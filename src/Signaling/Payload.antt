-- ===== src/Signaling/Payload.antt =====
-- The plaintext of a token: `serialize_token_payload` and `deserialize_token_payload`,
-- client/src/net/signaling.cpp.
pub mod RoundTrip
use folder_buddies.Base.{
  is_empty, ◌&&◌, ◌||◌, ◌==◌, not, length, [], false, leb, ◌∷◌, if◌then◌else◌, true, ℕ, Bool,
  Option,
}
use folder_buddies.Base.Bytes.{Bytes, codes, bytes_eq}
use folder_buddies.Signaling.{Token}
use folder_buddies.Wire.{
  put_raw, put_str, put_pod, put_bytes, Parse, pure, fail, get_raw, get_pod, get_str, get_bytes,
  ◌>>=◌,
}

-- kPayloadMagic
abbrev pub payload_magic : Bytes
payload_magic = codes "FBZK1"

-- kPayloadVersion
abbrev pub payload_version : ℕ
payload_version = 2

unfoldable pub serialize_token_payload : Token → Bytes
serialize_token_payload tok =
    let writes = if tok.allow_writes then 1 else 0 in
    put_bytes tok.secret (length tok.secret) (
      put_pod 1 writes (
        put_str tok.folder (
          put_pod 2 tok.port
            (put_str tok.ip (put_pod 4 payload_version (put_raw payload_magic 5 []))))))

-- A condition whose failure ends the reads.
abbrev pub guard : Bool → Parse (Unit {0})
guard true = pure tt
guard false = fail

-- The permission: its byte from version 2 on, and granted before.
abbrev pub get_writes : ℕ → Parse Bool
get_writes version =
    if leb 2 version then (do writes ← get_pod 1; pure (not (writes == 0))) else pure true

unfoldable pub get_token : Parse Token
get_token = do
  magic ← get_raw 5
  _ ← guard (bytes_eq magic payload_magic)
  version ← get_pod 4
  _ ← guard (version == 1 || version == payload_version)
  ip ← get_str
  port ← get_pod 2
  folder ← get_str
  allow_writes ← get_writes version
  secret ← get_bytes
  _ ← guard (not (is_empty ip) && not (port == 0) && not (is_empty secret))
  pure (record {
    ip = ip;
    port = port;
    secret = secret;
    folder = folder;
    allow_writes = allow_writes;
  })

-- The token of a payload, if it has one. What a failed call leaves in its out parameter is not used.
unfoldable pub deserialize_token_payload : Bytes → Option Token
deserialize_token_payload plain = (get_token plain).0
