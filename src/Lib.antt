-- ===== src/Lib.antt =====
-- Folder Buddies: a model of the client's transport, encryption, text codec and connection
-- codes, and proofs of what they promise.
--
-- The program shares a folder between machines. A host seals the address and the secret of the
-- share into a token; the token travels as a Base91 text or as a record published under a
-- short room code. Both ends then exchange framed messages over a stream, sealed by
-- ChaCha20-Poly1305 once the handshake is done, and the mounted folder's operations are such
-- messages.
--
--   Base.antt and Base/: numbers, lists, bytes, bit operations and association maps that the
--     other files share.
--
--   Wire.antt, Wire/: client/include/net/common.h. Writer and Reader are Wire.put_* and
--     Wire.get_*, the packed structs are lists of bytes; send_message and recv_message stand
--     over any stream in Wire/Stream.antt; recv_all, send_all and the socket stream
--     (client/src/net/stream.cpp) in Wire/Stream/Socket.antt.
--
--   Base91.antt, Base91/: client/src/crypto/base91.cpp.
--
--   Crypto.antt, Crypto/: client/src/crypto/crypto.cpp. Crypto/Chacha.antt is the cipher,
--     Crypto/Poly.antt the authenticator, Crypto/Aead.antt their combination,
--     Crypto/Channel.antt the class SecureChannel with its keys and counters as a record,
--     Crypto/Auth.antt the keys of client/include/crypto/auth.h.
--
--   Signaling.antt, Signaling/: client/src/net/signaling.cpp and
--     client/include/crypto/token.h. Signaling/Payload.antt is the plaintext of a token,
--     Signaling/Sealed.antt the bundle and the offline blob, Signaling/Cloud.antt the
--     published record, Signaling/RoomCode.antt the room codes.
--
--   RamCache.antt, RamCache/: client/src/fs/ram_cache.cpp. RamCache/Budget.antt is
--     compute_block_budget, RamCache/Names.antt parent_of and join_path, RamCache/Blocks.antt
--     the blocks and their order of use with purgeFileLocked, evictToBudgetLocked,
--     blockGetLocked and blockPutLocked, RamCache/Timed.antt the caches of attributes, missing
--     files and directories, RamCache/Read.antt the loop of doRead over any blockFetch,
--     RamCache/Handles.antt the tracked handles with their reads and closes as steps of
--     threads in RamCache/Handles/Close.antt, RamCache/State.antt the whole Impl and
--     budgetNow, RamCache/Prefetch.antt the pool and scheduleReadAhead, RamCache/Fetch.antt
--     blockFetch, ensureVersion and doRead, RamCache/Flights.antt the same for several threads
--     with the set of blocks in flight, RamCache/Request.antt the other requests and their
--     dispatch. The file system behind the cache is the record RemoteFs with the clock and the
--     memory that the system reports; time passes while it works on a request, and a request
--     is one thread's, so that it meets no block that another thread is fetching. The order of
--     use is kept with the least recent block first, and an iterator into it is the block's
--     own entry.
--
--   Server.antt, Server/: client/src/server/server.cpp. Server/Paths.antt is path_key,
--     path_within and resolve as they are compiled on POSIX, Server/State.antt what the
--     requests share and broadcastInvalidate, Server/Dispatch.antt the switch of handleStream
--     with one function for each kind of request. The calls of the file system are the record
--     Files over a state of the system, and its answers about paths the record Host.
--
--   Handshake.antt, Handshake/: Client::handshake of client/src/clients/client.cpp and
--     Server::handshake of client/src/server/server.cpp, as the steps between two receives;
--     Handshake/Duplex.antt gives each end a stream that writes in one direction and reads in
--     the other, Handshake/Layout.antt is the payload of a HELLO, Handshake/Run.antt has the
--     steps of the ends, and in Handshake/Agree.antt each end runs as a whole over the
--     messages of the other one; since a receive waits for its message, it makes no difference
--     when that is sent.
--
--   Client.antt, Client/: Client::request and Client::readerLoop of
--     client/src/clients/client.cpp; in Client/Answers.antt the callers and the reader of one
--     connection are steps that interleave.
--
--   Server/Clients.antt, Server/Clients/: launchStream and handleStream of
--     client/src/server/server.cpp around its loop, as the steps of connection threads that
--     interleave; each locked part is a step, and a call of onClientsChanged counts one with
--     the part before it.
--
--   Mount.antt, Mount/: the operations of client/src/fs/fuse_fs.cpp over any
--     `RemoteFs::request`, in Mount/Entries.antt those on names and attributes, in
--     Mount/Place.antt the name of the mount, and the open flags of
--     client/include/fs/osflags.h. A loop of a transfer gets one round for each byte, and
--     every round that goes on moves at least one. In Mount/Served.antt the requests reach the
--     switch of the server. A count is returned as the 32 bits of an int, in which 2 GiB and
--     more are negative.
--
--   Tests/: the test vectors of the self-tests, and each theorem at a concrete input.
--
-- Integers are natural numbers; where the code's integers wrap, the model takes the remainder.
-- A signed field of a message is its bit pattern. A function that fails returns none, false or
-- an error, and an out parameter that a failed call leaves half filled is not modelled, since
-- no caller reads it. Loops are recursions on the data; the stream cipher takes as fuel the
-- length of its input, of which each round consumes at least one byte, and the loop of a read
-- the number of bytes that are asked for, since each round that goes on reads at least one;
-- that this is enough is part of the theorems. A random draw is an argument, and the loop that
-- draws a room code runs on a list of draws.
--
-- A stream is a state with a read and a write. What is assumed of a transport is the record
-- Reliable of Wire/Stream/Laws.antt: a write that succeeds queues its bytes, and a read takes
-- as many as it asks for from the front of the queue. The memory stream is proved to be one.
-- The system's sockets are the pieces in which bytes arrive and the counts that are accepted;
-- requests beyond 2^31 bytes, which recv and send would truncate, do not occur below the
-- limits of the protocol and are not modelled. The password hash of libsodium, SHA-256 and
-- HMAC are parameters.
--
-- Not modelled: the HTTP and JSON of the signaling services, QUIC, UPnP, WebRTC, the user
-- interface and the drivers of the operating systems, which are input and output.
pub mod Base
pub mod Base91
pub mod Client
pub mod Crypto
pub mod Handshake
pub mod Mount
pub mod RamCache
pub mod Server
pub mod Signaling
mod Tests
pub mod Wire
