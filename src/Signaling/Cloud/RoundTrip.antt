-- ===== src/Signaling/Cloud/RoundTrip.antt =====
-- A published record is opened with the room code that it was published under.
use mathlib.Core.Path.{subst}
use folder_buddies.Signaling.Sealed.RoundTrip.{open_bundle-seal_token, All-seal_token}
use folder_buddies.Base91.RoundTrip.{base91_decode-base91_encode}
use folder_buddies.Signaling.Sealed.{seal_token}
use folder_buddies.Base91.{base91_decode, base91_encode}
use folder_buddies.Crypto.Aead.Octets.{All-aead_encrypt}
use folder_buddies.Crypto.Aead.Laws.{aead_decrypt-aead_encrypt, length-aead_encrypt}
use folder_buddies.Crypto.Aead.{aead_decrypt, aead_encrypt}
use folder_buddies.Signaling.{ok, Token}
use folder_buddies.Signaling.RoomCode.{code_split, room_lookup_id}
use folder_buddies.Base.Bytes.{IsByte, Bytes}
use folder_buddies.Base.{
  ==_iff, inr, ap, drop-drop, take_all, sym, take_exact, drop_exact, inl, some, All-append, ◌∙◌,
  drop, Option-cases, ◌++◌, length-append, [], take, arith, All, ◌≡◌, length, ℕ, refl,
}
use folder_buddies.Signaling.Cloud.{
  argon2id_key, open_wrapped, open_decoded, CloudRecord, wrap_key, seal_for_cloud,
  open_cloud_record, Draws, Argon,
}
use folder_buddies.Signaling.Payload.RoundTrip.{UsableToken, OctetToken}

-- What the generator supplies: as many bytes as each call asks for.
pub record FreshDraws (d : Draws) : Type 0 where
  pub blob_key : length d.blob_key ≡ 32
  pub nonce : length d.nonce ≡ 12
  pub salt : length d.salt ≡ 16
  pub wrap_nonce : length d.wrap_nonce ≡ 12
  pub blob_key_bytes : All IsByte d.blob_key
  pub nonce_bytes : All IsByte d.nonce
  pub salt_bytes : All IsByte d.salt
  pub wrap_nonce_bytes : All IsByte d.wrap_nonce

module _ (wrap : Bytes) (d : Draws) (f : FreshDraws d) where
  abbrev ciphertext : Bytes
  ciphertext = (aead_encrypt wrap (take 12 d.wrap_nonce) [] d.blob_key).0

  abbrev tag : Bytes
  tag = (aead_encrypt wrap (take 12 d.wrap_nonce) [] d.blob_key).1

  length-ciphertext : (length ciphertext ≡ 32) × (length tag ≡ 16)
  length-ciphertext =
      let (long, short) = length-aead_encrypt wrap (take 12 d.wrap_nonce) [] d.blob_key in
      (long ∙ f.blob_key, short)

  length-wrap_key : length (wrap_key wrap d) ≡ 60
  unfolding wrap_key
  length-wrap_key = omega (
    arith,
    length-append d.wrap_nonce (ciphertext ++ tag),
    length-append ciphertext tag,
    length-ciphertext,
    f.wrap_nonce,
  )

  All-wrap_key : All IsByte (wrap_key wrap d)
  unfolding wrap_key
  All-wrap_key =
      let (ct_bytes, tag_bytes) =
        All-aead_encrypt wrap (take 12 d.wrap_nonce) [] d.blob_key f.blob_key_bytes in
      All-append IsByte d.wrap_nonce _ f.wrap_nonce_bytes
        (All-append IsByte ciphertext tag ct_bytes tag_bytes)

  -- The wrapped key is cut into the parts it was made of.
  unwrap :
      aead_decrypt wrap
        (take 12 (wrap_key wrap d))
        []
        (take 32 (drop 12 (wrap_key wrap d)))
        (take 16 (drop 44 (wrap_key wrap d)))
      ≡ some d.blob_key
  unfolding wrap_key
  unwrap =
      let behind : drop 12 (d.wrap_nonce ++ (ciphertext ++ tag)) ≡ ciphertext ++ tag =
        drop_exact 12 d.wrap_nonce (ciphertext ++ tag) f.wrap_nonce in
      let nonce_cut : take 12 (d.wrap_nonce ++ (ciphertext ++ tag)) ≡ take 12 d.wrap_nonce =
        take_exact 12 d.wrap_nonce (ciphertext ++ tag) f.wrap_nonce
        ∙ sym (take_all 12 d.wrap_nonce (omega (arith, f.wrap_nonce))) in
      let tag_cut : drop 44 (d.wrap_nonce ++ (ciphertext ++ tag)) ≡ tag =
        sym (drop-drop 12 32 (d.wrap_nonce ++ (ciphertext ++ tag)))
        ∙ ap (drop 32) behind
        ∙ drop_exact 32 ciphertext tag length-ciphertext.0 in
      rw
        (
          nonce_cut,
          tag_cut,
          behind,
          take_exact 32 ciphertext tag length-ciphertext.0,
          take_all 16 tag (omega (arith, length-ciphertext)),
        )
        (aead_decrypt-aead_encrypt wrap (take 12 d.wrap_nonce) [] d.blob_key)

abbrev record_of : Bytes → ℕ → Token → Draws → Bytes → CloudRecord
record_of room_code half tok d wrap = record {
  lookup_id = take half room_code;
  salt = base91_encode d.salt;
  wrapped = base91_encode (wrap_key wrap d);
  payload = base91_encode (seal_token tok d.blob_key d.nonce);
  owner = base91_encode d.owner;
}

open_decoded-wrap :
    (argon : Argon) (key_part wrap : Bytes) (tok : Token) (d : Draws)
    → UsableToken tok
    → OctetToken tok
    → FreshDraws d
    → argon2id_key argon key_part d.salt ≡ some wrap
    → open_decoded argon key_part
        (base91_decode (base91_encode d.salt))
        (base91_decode (base91_encode (wrap_key wrap d)))
        (base91_decode (base91_encode (seal_token tok d.blob_key d.nonce)))
      ≡ ok tok
unfolding open_decoded open_wrapped
open_decoded-wrap argon key_part wrap tok d u o f derived =
    rw
      (
        base91_decode-base91_encode d.salt f.salt_bytes,
        base91_decode-base91_encode (wrap_key wrap d) (All-wrap_key wrap d f),
        base91_decode-base91_encode (seal_token tok d.blob_key d.nonce)
            (All-seal_token tok d.blob_key d.nonce u o f.nonce_bytes),
        (==_iff (length d.salt) 16).1 f.salt,
        (==_iff (length (wrap_key wrap d)) 60).1 (length-wrap_key wrap d f),
        derived,
        unwrap wrap d f,
      )
      (open_bundle-seal_token tok d.blob_key d.nonce u f.blob_key f.nonce)

-- A record that was made for a usable token is opened to that token with the same room code, and it
-- is published under the public half of the code.
pub open_cloud_record-seal_for_cloud :
    (argon : Argon) (tok : Token) (room_code : Bytes) (d : Draws) (rec : CloudRecord)
    → UsableToken tok
    → OctetToken tok
    → FreshDraws d
    → seal_for_cloud argon tok room_code d ≡ ok rec
    → (open_cloud_record argon room_code rec.salt rec.wrapped rec.payload ≡ ok tok)
      × (rec.lookup_id ≡ room_lookup_id room_code)
unfolding seal_for_cloud open_cloud_record room_lookup_id
open_cloud_record-seal_for_cloud argon tok room_code d rec u o f h =
    elim (Option-cases (code_split (length room_code))) [
      | inl bad ↦ cc (rw (bad, seal_for_cloud) at h)
      | inr (halves, split) ↦
          let key_part : Bytes = take halves.1 (drop halves.0 room_code) in
          elim (Option-cases (argon2id_key argon key_part d.salt)) [
            | inl failed ↦ cc (rw (split, failed, seal_for_cloud) at h)
            | inr (wrap, derived) ↦
                let made : record_of room_code halves.0 tok d wrap ≡ rec =
                  cc (rw (split, derived, seal_for_cloud) at h) in
                subst
                  (λ (q : CloudRecord).
                    (open_cloud_record argon room_code q.salt q.wrapped q.payload ≡ ok tok)
                    × (q.lookup_id ≡ room_lookup_id room_code))
                  made
                  (
                    rw (split, open_cloud_record)
                        (open_decoded-wrap argon key_part wrap tok d u o f derived),
                    rw (split, room_lookup_id) refl,
                  )
          ]
    ]
