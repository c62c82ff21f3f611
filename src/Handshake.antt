-- ===== src/Handshake.antt =====
-- The handshake of both ends, client/src/clients/client.cpp and client/src/server/server.cpp, over any
-- stream. SHA-256 and HMAC-SHA-256 are arguments, and so are the random nonces.
pub mod Duplex
pub mod Layout
pub mod Run
pub mod Agree
pub mod Authentic
use folder_buddies.Base.{
  ℕ, ◌+◌, ◌%◌, ◌^◌, Bool, true, false, not, ◌&&◌, ◌||◌, Option, none, some, List, [], ◌∷◌, ◌++◌,
  length, take, ltb, ◌==◌, if◌then◌else◌,
}
use folder_buddies.Base.Bytes.{Bytes, bytes_eq}
use folder_buddies.Wire.{
  MsgHeader, protocol_version, put_raw, put_pod, get_raw, get_pod, Parse, pure, ◌>>=◌,
}
use folder_buddies.Wire.Op.{Op, op_code}
use folder_buddies.Wire.Stream.{ByteStream, send_message, recv_message}
use folder_buddies.Crypto.Aead.{ct_equal}
use folder_buddies.Crypto.Auth.{auth_proof, derive_key, session}
use folder_buddies.Signaling.{Token}
use folder_buddies.Crypto.Channel.{SecureChannel}

-- The messages of `err` in `Client::handshake`.
pub data ClientError : Type 0 where
  hello_not_sent rejected auth_not_sent auth_failed : ClientError

-- The fields of a HELLO.
pub record Hello : Type 0 where
  pub version : ℕ
  pub client_id : Bytes
  pub folder_hash : Bytes
  pub nonce : Bytes

unfoldable pub hello_payload : Bytes → Bytes → Bytes → Bytes
unfolding put_raw put_pod
hello_payload client_id folder_hash nonce =
    put_raw nonce 16 (put_raw folder_hash 32 (put_raw client_id 16 (put_pod 4 protocol_version [])))

unfoldable pub get_hello : Parse Hello
get_hello = do
  version ← get_pod 4
  client_id ← get_raw 16
  folder_hash ← get_raw 32
  nonce ← get_raw 16
  pure (record {
    version = version;
    client_id = client_id;
    folder_hash = folder_hash;
    nonce = nonce;
  })

-- What a step of the handshake leaves: its result or why it ended, and the stream.
pub data Outcome (E A : Type 0) : Type 0 where
  broken : E → Outcome E A
  done : A → Outcome E A

module _ {E A B S : Type 0} where
  -- A step behind another.
  infixl 5 ◌>>>◌
  abbrev pub ◌>>>◌ : Outcome E A × S → (A → S → Outcome E B × S) → Outcome E B × S
  (broken e, s) >>> f = (broken e, s)
  (done a, s) >>> f = f a s

module _ {S : Type 0} (stream : ByteStream S) where
  -- A message with the whole of a buffer as its payload.
  abbrev pub send_buffer : ℕ → ℕ → Bytes → S → Bool × S
  send_buffer op req_id p s = send_message stream op 0 req_id p (length p % 2 ^ 32) s

  abbrev pub sent_or : {E A : Type 0} → E → A → Bool × S → Outcome E A × S
  sent_or e a (sent, s) = (if sent then done a else broken e, s)

  unfoldable pub client_hello : Bytes → Bytes → Bytes → S → Outcome ClientError (Unit {0}) × S
  unfolding hello_payload
  client_hello client_id folder_hash nonce s =
      sent_or hello_not_sent tt
        (send_buffer (op_code Op.hello) 1 (hello_payload client_id folder_hash nonce) s)

  module _ (hmac_sha256 : Bytes → Bytes → Bytes) where
    -- The answer to a challenge; its result is the nonce of the server.
    unfoldable pub answer_challenge :
        Bytes → Bytes → Option (MsgHeader × Bytes) × S → Outcome ClientError Bytes × S
    answer_challenge key nonce (none, s) = (broken rejected, s)
    answer_challenge key nonce (some (h, payload), s) =
        let nonce_s = take 16 payload in
        let proof = auth_proof hmac_sha256 key nonce nonce_s in
        if not (h.op == op_code Op.challenge) || ltb (length payload) 16
        then (broken rejected, s)
        else sent_or auth_not_sent nonce_s (send_buffer (op_code Op.auth) 1 proof s)

    unfoldable pub client_answer : Bytes → Bytes → S → Outcome ClientError Bytes × S
    unfolding answer_challenge
    client_answer key nonce s = answer_challenge key nonce (recv_message stream s)

  abbrev check_auth_ok : Option (MsgHeader × Bytes) × S → Outcome ClientError (Unit {0}) × S
  check_auth_ok (none, s) = (broken auth_failed, s)
  check_auth_ok (some (h, payload), s) =
      (if h.op == op_code Op.auth_ok then done tt else broken auth_failed, s)

  unfoldable pub client_finish : S → Outcome ClientError (Unit {0}) × S
  client_finish s = check_auth_ok (recv_message stream s)

  -- `Client::handshake`.
  unfoldable pub client_handshake :
      (sha256 : Bytes → Bytes) (hmac_sha256 : Bytes → Bytes → Bytes)
      → Bytes
      → Token
      → Bytes
      → SecureChannel
      → S
      → Outcome ClientError SecureChannel × S
  unfolding client_hello client_answer client_finish
  client_handshake sha256 hmac_sha256 client_id tok nonce c s =
      let key = derive_key sha256 tok.secret in
      client_hello client_id (sha256 tok.folder) nonce s >>> λ u s.
      client_answer hmac_sha256 key nonce s >>> λ nonce_s s.
      client_finish s >>> λ u s. (done (session hmac_sha256 key nonce nonce_s false c), s)

  -- AUTH_FAIL, whether it is sent or not.
  abbrev refuse : {A : Type 0} → ℕ → S → Outcome (Unit {0}) A × S
  refuse req_id s = (broken tt, (send_message stream (op_code Op.auth_fail) 0 req_id [] 0 s).1)

  abbrev greet_parsed : Bytes → Bytes → ℕ → Option Hello → S → Outcome (Unit {0}) Hello × S
  greet_parsed expect_folder nonce_s req_id none s = (broken tt, s)
  greet_parsed expect_folder nonce_s req_id (some hello) s =
      if not (hello.version == protocol_version)
        || not (length expect_folder == 32)
        || not (bytes_eq hello.folder_hash expect_folder)
      then refuse req_id s
      else sent_or tt hello (send_message stream (op_code Op.challenge) 0 req_id nonce_s 16 s)

  unfoldable pub greet :
      Bytes → Bytes → Option (MsgHeader × Bytes) × S → Outcome (Unit {0}) Hello × S
  greet expect_folder nonce_s (none, s) = (broken tt, s)
  greet expect_folder nonce_s (some (h, payload), s) =
      if h.op == op_code Op.hello
      then greet_parsed expect_folder nonce_s h.req_id (get_hello payload).0 s
      else (broken tt, s)

  -- HELLO and the challenge.
  unfoldable pub server_greet : Bytes → Bytes → S → Outcome (Unit {0}) Hello × S
  unfolding greet
  server_greet expect_folder nonce_s s = greet expect_folder nonce_s (recv_message stream s)

  -- The proof of a client against the expected one.
  unfoldable pub check_proof :
      Bytes → Option (MsgHeader × Bytes) × S → Outcome (Unit {0}) (Unit {0}) × S
  check_proof expect (none, s) = (broken tt, s)
  check_proof expect (some (h, proof), s) =
      if not (h.op == op_code Op.auth)
      then (broken tt, s)
      else if not (length proof == length expect) || not (ct_equal proof expect (length expect))
      then refuse h.req_id s
      else (done tt, (send_message stream (op_code Op.auth_ok) 0 h.req_id [] 0 s).1)

  module _ (hmac_sha256 : Bytes → Bytes → Bytes) where
    unfoldable pub server_check : Bytes → Bytes → Bytes → S → Outcome (Unit {0}) (Unit {0}) × S
    unfolding check_proof
    server_check key nonce_c nonce_s s =
        check_proof (auth_proof hmac_sha256 key nonce_c nonce_s) (recv_message stream s)

    -- `Server::handshake`: the identity of the client and the channel.
    unfoldable pub server_handshake :
        (Bytes → Bytes)
        → Bytes
        → Bytes
        → Bytes
        → SecureChannel
        → S
        → Outcome (Unit {0}) (Bytes × SecureChannel) × S
    unfolding server_greet server_check
    server_handshake sha256 share_name key nonce_s c s =
        server_greet (sha256 share_name) nonce_s s >>> λ hello s.
        server_check key hello.nonce nonce_s s >>> λ u s.
        (done (hello.client_id, session hmac_sha256 key hello.nonce nonce_s true c), s)
