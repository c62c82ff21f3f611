-- ===== src/Crypto/Auth.antt =====
-- The keys of a session, client/include/crypto/auth.h. SHA-256 and HMAC-SHA-256 are arguments.
use folder_buddies.Crypto.Channel.RoundTrip.{FitsPacket, Packet}
use folder_buddies.Base.{
  map, some, not, length, ◌≡◌, All, if◌then◌else◌, List, ◌++◌, take, Bool, refl, [], true, false,
}
use folder_buddies.Base.Bytes.{Bytes, codes}
use folder_buddies.Crypto.Channel.{SecureChannel, activate}
use folder_buddies.Crypto.Channel.Session.{opened, recv_many-send_many, send_many, recv_many}
use folder_buddies.Wire.Stream.{ByteStream}
use folder_buddies.Wire.Stream.Laws.{Reliable}

unfoldable pub derive_key : (Bytes → Bytes) → Bytes → Bytes
derive_key sha256 secret = sha256 secret

module _ (hmac_sha256 : Bytes → Bytes → Bytes) where
  unfoldable pub auth_proof : Bytes → Bytes → Bytes → Bytes
  auth_proof key nonce_client nonce_server = hmac_sha256 key (nonce_client ++ nonce_server)

  abbrev pub to_key256 : Bytes → Bytes
  to_key256 b = take 32 b

  -- The key to send with and the key to receive with.
  unfoldable pub derive_session_keys : Bytes → Bytes → Bytes → Bool → Bytes × Bytes
  derive_session_keys auth_key nonce_client nonce_server is_server =
      let master = hmac_sha256 auth_key (nonce_client ++ (nonce_server ++ codes "FB-session-v2")) in
      let kc2s = to_key256 (hmac_sha256 master (codes "client->server")) in
      let ks2c = to_key256 (hmac_sha256 master (codes "server->client")) in
      if is_server then (ks2c, kc2s) else (kc2s, ks2c)

  -- A channel as it is when its end has finished the handshake.
  abbrev pub session : Bytes → Bytes → Bytes → Bool → SecureChannel → SecureChannel
  session auth_key nonce_client nonce_server is_server c =
      let (tx, rx) = derive_session_keys auth_key nonce_client nonce_server is_server in
      activate tx rx c

-- After a handshake on one key and one pair of nonces, the messages that either end sends over a
-- reliable idle stream are those that the other end receives, in their order.
pub recv_many-session :
    {S : Type 0} (stream : ByteStream S) (r : Reliable stream) (hmac_sha256 : Bytes → Bytes → Bytes)
    (key nonce_client nonce_server : Bytes) (is_server : Bool) (a b : SecureChannel)
    (ms : List Packet) (s : S)
    → All FitsPacket ms
    → r.Live s
    → r.pending s ≡ []
    → (send_many stream ms (session hmac_sha256 key nonce_client nonce_server is_server a) s).0
      ≡ true
    → recv_many stream
        (length ms)
        (session hmac_sha256 key nonce_client nonce_server (not is_server) b)
        (send_many stream ms (session hmac_sha256 key nonce_client nonce_server is_server a) s).2
      ≡ some (map opened ms)
unfolding activate derive_session_keys
recv_many-session stream r hmac_sha256 key nc ns true a b ms s fit live idle ok =
    recv_many-send_many stream r ms (session hmac_sha256 key nc ns true a)
      (session hmac_sha256 key nc ns false b) s fit live idle refl refl refl refl ok
recv_many-session stream r hmac_sha256 key nc ns false a b ms s fit live idle ok =
    recv_many-send_many stream r ms (session hmac_sha256 key nc ns false a)
      (session hmac_sha256 key nc ns true b) s fit live idle refl refl refl refl ok
