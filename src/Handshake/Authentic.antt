-- ===== src/Handshake/Authentic.antt =====
-- Whom the server lets in, `Server::handshake` of client/src/server/server.cpp, whatever a client sends.
use folder_buddies.Base.{some, ◌≡◌}
use folder_buddies.Base.Bytes.{Bytes}
use folder_buddies.Wire.{MsgHeader, protocol_version}
use folder_buddies.Wire.Op.{Op, op_code}
use folder_buddies.Wire.Stream.{ByteStream, recv_message}
use folder_buddies.Handshake.{Hello, get_hello}

module _ {S : Type 0} (stream : ByteStream S) where
  -- A HELLO that was received and accepted.
  pub record Greeted (expect_folder : Bytes) (s : S) (hello : Hello) : Type 0 where
    pub header : MsgHeader
    pub payload : Bytes
    pub received : (recv_message stream s).0 ≡ some (header, payload)
    pub is_hello : header.op ≡ op_code Op.hello
    pub parsed : (get_hello payload).0 ≡ some hello
    pub same_version : hello.version ≡ protocol_version
    pub same_folder : hello.folder_hash ≡ expect_folder

  -- A proof that was received and accepted.
  pub record Proved (expect : Bytes) (s : S) : Type 0 where
    pub header : MsgHeader
    pub payload : Bytes
    pub received : (recv_message stream s).0 ≡ some (header, payload)
    pub is_auth : header.op ≡ op_code Op.auth
    pub right : payload ≡ expect
