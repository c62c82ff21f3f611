-- ===== src/Signaling/Sealed.antt =====
-- The sealed bundle of a token and the offline blob that carries its key,
-- client/src/net/signaling.cpp. The bytes that the system's generator supplies are arguments.
pub mod RoundTrip
use folder_buddies.Base91.{base91_encode, base91_decode}
use folder_buddies.Crypto.Aead.{aead_decrypt, aead_encrypt}
use folder_buddies.Base.{
  ◌+◌, drop, not, if◌then◌else◌, ◌++◌, take, Option, length, none, some, ◌-◌, ◌||◌, ltb, ◌==◌, [],
}
use folder_buddies.Base.Bytes.{Bytes, codes, bytes_eq}
use folder_buddies.Signaling.{
  Token, Result, ok, err, bad_key, malformed_bundle, tampered, malformed_payload, not_a_blob,
}
use folder_buddies.Signaling.Payload.{
  payload_magic, serialize_token_payload, deserialize_token_payload,
}

-- kOfflineMagic
abbrev pub offline_magic : Bytes
offline_magic = codes "FBOF1"

-- The first 32 bytes.
abbrev pub to_key : Bytes → Bytes
to_key v = take 32 v

-- The bundle of a token under a fresh key and nonce.
unfoldable pub seal_token : Token → Bytes → Bytes → Bytes
seal_token tok blob_key nonce =
    let (ct, tag) =
      aead_encrypt (to_key blob_key) (take 12 nonce) [] (serialize_token_payload tok) in
    payload_magic ++ (nonce ++ (ct ++ tag))

unfoldable pub open_plain_token : Option Bytes → Result Token
open_plain_token none = err tampered
open_plain_token (some plain) = elim (deserialize_token_payload plain) [
  | none ↦ err malformed_payload
  | some tok ↦ ok tok
]

unfoldable pub open_bundle : Bytes → Bytes → Result Token
open_bundle blob_key bundle =
    let ct_len = length bundle - 17 - 16 in
    if not (length blob_key == 32)
    then err bad_key
    else (if ltb (length bundle) 33 || not (bytes_eq (take 5 bundle) payload_magic)
        then err malformed_bundle
        else open_plain_token (
            aead_decrypt (to_key blob_key) (take 12 (drop 5 bundle)) []
              (take ct_len (drop 17 bundle)) (take 16 (drop (17 + ct_len) bundle))))

unfoldable pub seal_for_offline : Token → Bytes → Bytes → Bytes
seal_for_offline tok blob_key nonce =
    base91_encode (offline_magic ++ (blob_key ++ seal_token tok blob_key nonce))

-- What `open_offline_blob` does with the decoded blob.
unfoldable pub open_raw_blob : Option Bytes → Result Token
open_raw_blob none = err not_a_blob
open_raw_blob (some raw) =
    if ltb (length raw) 37 || not (bytes_eq (take 5 raw) offline_magic)
    then err not_a_blob
    else open_bundle (take 32 (drop 5 raw)) (drop 37 raw)

unfoldable pub open_offline_blob : Bytes → Result Token
open_offline_blob blob = open_raw_blob (base91_decode blob)
