-- ===== src/Signaling/Sealed/RoundTrip.antt =====
-- A sealed token is opened again.
use folder_buddies.Crypto.Aead.Octets.{All-aead_encrypt}
use folder_buddies.Base91.RoundTrip.{base91_decode-base91_encode}
use folder_buddies.Signaling.Payload.{serialize_token_payload, payload_magic}
use folder_buddies.Crypto.Aead.Laws.{aead_decrypt-aead_encrypt, length-aead_encrypt}
use folder_buddies.Crypto.Aead.{aead_encrypt}
use folder_buddies.Base.Bytes.{IsByte, bytes_eq_refl, Bytes}
use folder_buddies.Signaling.{ok, Token}
use folder_buddies.Base.{
  ◌≤◌, All-append, All, drop-drop, take_all, sym, ap, le→not-ltb, ◌∙◌, drop_exact, ==_iff, ◌-◌,
  take_exact, drop, length-append, arith, ◌+◌, ◌++◌, [], take, ◌≡◌, length, refl,
}
use folder_buddies.Signaling.Sealed.{
  offline_magic, open_raw_blob, seal_for_offline, open_offline_blob, to_key, seal_token,
  open_bundle, open_plain_token,
}
use folder_buddies.Signaling.Payload.RoundTrip.{
  All-payload_magic, All-serialize_token_payload, OctetToken, UsableToken,
  deserialize_token_payload-serialize_token_payload,
}

module _ (tok : Token) (blob_key nonce : Bytes) where
  abbrev ciphertext : Bytes
  ciphertext = (aead_encrypt (to_key blob_key) (take 12 nonce) [] (serialize_token_payload tok)).0

  abbrev tag : Bytes
  tag = (aead_encrypt (to_key blob_key) (take 12 nonce) [] (serialize_token_payload tok)).1

  length-tag : length tag ≡ 16
  length-tag =
      (length-aead_encrypt (to_key blob_key) (take 12 nonce) [] (serialize_token_payload tok)).1

  abbrev behind_magic : Bytes
  behind_magic = nonce ++ (ciphertext ++ tag)

  abbrev bundle : Bytes
  bundle = payload_magic ++ behind_magic

  length-bundle : length nonce ≡ 12 → length bundle ≡ 33 + length ciphertext
  length-bundle nonce_len =
      omega
        (arith, length-append nonce (ciphertext ++ tag), length-append ciphertext tag, length-tag)

  drop-bundle : length nonce ≡ 12 → drop 17 bundle ≡ ciphertext ++ tag
  drop-bundle nonce_len = drop_exact 12 nonce (ciphertext ++ tag) nonce_len

  -- The part of the bundle that is cut out as the ciphertext, and the tag behind it.
  cut_ciphertext : length nonce ≡ 12 → take (length bundle - 17 - 16) (drop 17 bundle) ≡ ciphertext
  cut_ciphertext nonce_len =
      rw (drop-bundle nonce_len) (
        take_exact (length bundle - 17 - 16) ciphertext tag
          (omega (arith, length-bundle nonce_len)))

  cut_tag : length nonce ≡ 12 → take 16 (drop (17 + (length bundle - 17 - 16)) bundle) ≡ tag
  cut_tag nonce_len =
      ap (take 16) (
        sym (drop-drop 17 (length bundle - 17 - 16) bundle)
        ∙ ap (drop (length bundle - 17 - 16)) (drop-bundle nonce_len)
        ∙ drop_exact (length bundle - 17 - 16) ciphertext tag
            (omega (arith, length-bundle nonce_len)))
      ∙ take_all 16 tag (omega (arith, length-tag))

  cut_nonce : length nonce ≡ 12 → take 12 behind_magic ≡ take 12 nonce
  cut_nonce nonce_len =
      take_exact 12 nonce (ciphertext ++ tag) nonce_len ∙ sym (take_all 12 nonce (omega arith))

  -- A usable token that is sealed under a key of 32 and a nonce of 12 bytes is opened under that key.
  pub open_bundle-seal_token :
      UsableToken tok
      → length blob_key ≡ 32
      → length nonce ≡ 12
      → open_bundle blob_key (seal_token tok blob_key nonce) ≡ ok tok
  unfolding open_bundle seal_token open_plain_token
  open_bundle-seal_token u key_len nonce_len =
      rw
        (
          (==_iff (length blob_key) 32).1 key_len,
          le→not-ltb (length bundle) 33 (omega (arith, length-bundle nonce_len)),
          bytes_eq_refl payload_magic,
          cut_nonce nonce_len,
          cut_ciphertext nonce_len,
          cut_tag nonce_len,
          aead_decrypt-aead_encrypt (to_key blob_key) (take 12 nonce) []
              (serialize_token_payload tok),
          open_plain_token,
          deserialize_token_payload-serialize_token_payload tok u,
        )
        refl

All-offline_magic : All IsByte offline_magic
All-offline_magic = (omega arith, (omega arith, (omega arith, (omega arith, (omega arith, tt)))))

pub All-seal_token :
    (tok : Token) (blob_key nonce : Bytes)
    → UsableToken tok
    → OctetToken tok
    → All IsByte nonce
    → All IsByte (seal_token tok blob_key nonce)
unfolding seal_token
All-seal_token tok blob_key nonce u o nonce_bytes =
    let (ct_bytes, tag_bytes) =
      All-aead_encrypt (to_key blob_key) (take 12 nonce) [] (serialize_token_payload tok)
        (All-serialize_token_payload tok u o) in
    All-append IsByte payload_magic _ All-payload_magic (
      All-append IsByte nonce _ nonce_bytes (
        All-append IsByte (ciphertext tok blob_key nonce) (tag tok blob_key nonce) ct_bytes
          tag_bytes))

-- The offline text of a usable token, sealed under a key of 32 bytes and a nonce of 12 bytes, is
-- opened to that token from the text alone.
pub open_offline_blob-seal_for_offline :
    (tok : Token) (blob_key nonce : Bytes)
    → UsableToken tok
    → OctetToken tok
    → length blob_key ≡ 32
    → length nonce ≡ 12
    → All IsByte blob_key
    → All IsByte nonce
    → open_offline_blob (seal_for_offline tok blob_key nonce) ≡ ok tok
unfolding open_offline_blob seal_for_offline open_raw_blob
open_offline_blob-seal_for_offline tok blob_key nonce u o key_len nonce_len key_bytes nonce_bytes =
    let sealed : Bytes = seal_token tok blob_key nonce in
    let bytes : All IsByte (offline_magic ++ (blob_key ++ sealed)) =
      All-append IsByte offline_magic (blob_key ++ sealed) All-offline_magic (
        All-append IsByte blob_key sealed key_bytes
          (All-seal_token tok blob_key nonce u o nonce_bytes)) in
    let long : 37 ≤ length (offline_magic ++ (blob_key ++ sealed)) =
      omega (arith, length-append blob_key sealed) in
    rw
      (
        base91_decode-base91_encode (offline_magic ++ (blob_key ++ sealed)) bytes,
        le→not-ltb (length (offline_magic ++ (blob_key ++ sealed))) 37 long,
        bytes_eq_refl offline_magic,
        take_exact 32 blob_key sealed key_len,
        drop_exact 32 blob_key sealed key_len,
      )
      (open_bundle-seal_token tok blob_key nonce u key_len nonce_len)
