-- ===== src/Tests/Handshake.antt =====
-- A handshake over memory streams, with a toy hash.
use folder_buddies.Crypto.Channel.RoundTrip.{FitsPacket, Packet}
use folder_buddies.Crypto.Channel.Session.{opened, send_many, recv_many}
use folder_buddies.Crypto.Channel.{activate, send, SecureChannel}
use folder_buddies.Base.{
  map, some, true, ◌≡◌, All, List, false, refl, [], ◌∷◌, ◌++◌, replicate, arith, take,
}
use folder_buddies.Base.Bytes.{bytes_eq, Bytes}
use folder_buddies.Wire.Stream.{Memory, memory_stream, memory_write}
use folder_buddies.Wire.Stream.Laws.{frame, memory_reliable}
use folder_buddies.Crypto.Auth.{session, auth_proof}
use folder_buddies.Handshake.{hello_payload, done}
use folder_buddies.Handshake.Duplex.{Accepts}
use folder_buddies.Handshake.Agree.{
  handshake-recv_many, exchange-verdict, Ends, FitsEnds, Agreement, from_client, from_server,
  client_key, run_client, run_server,
}
use folder_buddies.Crypto.Auth.{derive_key}
use folder_buddies.Signaling.{Token}

abbrev toy_hmac : Bytes → Bytes → Bytes
toy_hmac key p = take 32 (key ++ replicate 32 7)

abbrev toy_sha : Bytes → Bytes
toy_sha b = take 32 (b ++ replicate 32 9)

abbrev unused : SecureChannel
unused = record { tx_key = []; rx_key = []; tx_ctr = 0; rx_ctr = 0; active = false }

abbrev invitation : Token
invitation = record { ip = []; port = 1; secret = 5 ∷ []; folder = 1 ∷ []; allow_writes = true }

-- A client with another secret than the server.
abbrev guest : Ends
guest = record {
  client_id = replicate 16 1;
  tok = invitation;
  share_name = 1 ∷ [];
  server_key = toy_sha (6 ∷ []);
  nonce_c = replicate 16 3;
  nonce_s = replicate 16 4;
  client_before = unused;
  server_before = unused;
}

-- A client with the same secret.
abbrev friend : Ends
friend = record guest { server_key = toy_sha (5 ∷ []) }

friend-FitsEnds : FitsEnds toy_sha toy_hmac friend
unfolding auth_proof derive_key
friend-FitsEnds = record {
  sized = record { id = refl; hash = refl; random = refl };
  share_hash = refl;
  nonce_s = refl;
  client_proof = refl;
  server_proof = refl;
}

abbrev empty_stream : Memory
empty_stream = record { bytes = []; offset = 0 }

memory-Accepts : Accepts memory_stream memory_reliable
unfolding memory_stream memory_write
memory-Accepts p s live = refl

abbrev stream_of : Bytes → Memory
stream_of sent = record { bytes = sent; offset = 0 }

abbrev to_guest : Memory
to_guest = stream_of (from_server toy_sha toy_hmac guest)

abbrev from_guest : Memory
from_guest = stream_of (from_client toy_sha toy_hmac guest)

abbrev to_friend : Memory
to_friend = stream_of (from_server toy_sha toy_hmac friend)

abbrev from_friend_stream : Memory
from_friend_stream = stream_of (from_client toy_sha toy_hmac friend)

friend_exchange :
    Agreement toy_sha toy_hmac friend memory_stream memory_reliable empty_stream to_friend
      empty_stream from_friend_stream
unfolding memory_reliable
friend_exchange =
    exchange-verdict toy_sha toy_hmac friend memory_stream memory_reliable memory-Accepts
      friend-FitsEnds empty_stream to_friend empty_stream from_friend_stream (omega arith)
      (omega arith) (omega arith) (omega arith) refl refl refl refl

abbrev client_end : SecureChannel
client_end = session toy_hmac (toy_sha (5 ∷ [])) (replicate 16 3) (replicate 16 4) false unused

abbrev server_end : SecureChannel
server_end = session toy_hmac (toy_sha (5 ∷ [])) (replicate 16 3) (replicate 16 4) true unused

friend_succeeds :
    ((run_client toy_sha toy_hmac friend memory_stream memory_reliable empty_stream to_friend).0
      ≡ done client_end)
    × ((run_server toy_sha toy_hmac friend memory_stream memory_reliable empty_stream
          from_friend_stream).0
        ≡ done (replicate 16 1, server_end))
unfolding auth_proof derive_key bytes_eq
friend_succeeds = (friend_exchange.client, friend_exchange.server)

abbrev greeting : List Packet
greeting = record { op = 10; status = 0; req_id = 1; payload = 47 ∷ [] } ∷ []

greeting_fits : All FitsPacket greeting
greeting_fits = (
  record { op = omega arith; status = omega arith; req_id = omega arith; size = omega arith },
  tt,
)

abbrev after_friend : Memory
after_friend =
    (run_server toy_sha toy_hmac friend memory_stream memory_reliable empty_stream
      from_friend_stream).1.1

greeting_sent : (send_many memory_stream greeting client_end after_friend).0 ≡ true
unfolding send_many send memory_stream memory_write activate
greeting_sent = refl

same_key : client_key toy_sha toy_hmac friend ≡ friend.server_key
unfolding derive_key
same_key = refl

handshake-recv_many_example :
    recv_many memory_stream 1 server_end
      (send_many memory_stream greeting client_end after_friend).2
    ≡ some (map opened greeting)
unfolding memory_reliable
handshake-recv_many_example =
    handshake-recv_many toy_sha toy_hmac friend memory_stream memory_reliable memory-Accepts
      friend-FitsEnds empty_stream to_friend empty_stream from_friend_stream (omega arith)
      (omega arith) (omega arith) (omega arith) refl refl refl refl client_end server_end
      (replicate 16 1) friend_succeeds.0 friend_succeeds.1 same_key true greeting greeting_fits
      greeting_sent

-- What a client with the right proof has sent.
abbrev from_friend : Memory
from_friend = record {
  bytes =
      frame 1 0 1 (hello_payload (replicate 16 1) (toy_sha (1 ∷ [])) (replicate 16 3))
      ++ frame 3 0 1 (auth_proof toy_hmac (5 ∷ []) (replicate 16 3) (replicate 16 4));
  offset = 0;
}

abbrev let_in : Bytes × SecureChannel
let_in = (replicate 16 1, session toy_hmac (5 ∷ []) (replicate 16 3) (replicate 16 4) true unused)
