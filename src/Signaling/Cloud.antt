-- ===== src/Signaling/Cloud.antt =====
-- The records that are published under a room code, client/src/net/signaling.cpp. The password
-- hash of libsodium and the bytes of the system's generator are arguments.
pub mod RoundTrip
use folder_buddies.Base91.{base91_encode, base91_decode}
use folder_buddies.Crypto.Aead.{aead_decrypt, aead_encrypt}
use folder_buddies.Base.{◌++◌, ◌==◌, [], drop, take, if◌then◌else◌, Option, length, none, some, ◌-◌}
use folder_buddies.Base.Bytes.{Bytes}
use folder_buddies.Signaling.{
  bad_record, bad_wrapped, derivation_failed, wrong_code, bad_salt, bad_room_code, Token, Result,
  ok, err,
}
use folder_buddies.Signaling.Sealed.{seal_token, open_bundle}
use folder_buddies.Signaling.RoomCode.{code_split}

pub record CloudRecord : Type 0 where
  pub lookup_id : Bytes
  pub salt : Bytes
  pub wrapped : Bytes
  pub payload : Bytes
  pub owner : Bytes

-- `crypto_pwhash` of a text under a salt; `none` when it fails.
abbrev pub Argon : Type 0
Argon = Bytes → Bytes → Option Bytes

unfoldable pub argon2id_key : Argon → Bytes → Bytes → Option Bytes
argon2id_key argon key_part salt = if length salt == 16 then argon key_part salt else none

-- The random bytes that a record takes, in the order in which they are drawn.
pub record Draws : Type 0 where
  pub blob_key : Bytes
  pub nonce : Bytes
  pub salt : Bytes
  pub wrap_nonce : Bytes
  pub owner : Bytes

-- The blob key sealed under the wrap key: nonce, ciphertext and tag.
unfoldable pub wrap_key : Bytes → Draws → Bytes
wrap_key wrap d =
    let (ct, tag) = aead_encrypt wrap (take 12 d.wrap_nonce) [] d.blob_key in
    d.wrap_nonce ++ (ct ++ tag)

unfoldable pub seal_for_cloud : Argon → Token → Bytes → Draws → Result CloudRecord
seal_for_cloud argon tok room_code d = elim (code_split (length room_code)) [
  | none ↦ err bad_room_code
  | some halves ↦ elim (argon2id_key argon (take halves.1 (drop halves.0 room_code)) d.salt) [
    | none ↦ err derivation_failed
    | some wrap ↦ ok (record {
      lookup_id = take halves.0 room_code;
      salt = base91_encode d.salt;
      wrapped = base91_encode (wrap_key wrap d);
      payload = base91_encode (seal_token tok d.blob_key d.nonce);
      owner = base91_encode d.owner;
    })
  ]
]

-- The bundle under the key that the wrapped key holds.
unfoldable pub open_wrapped : Option Bytes → Bytes → Result Token
open_wrapped none bundle = err wrong_code
open_wrapped (some blob_key) bundle = open_bundle blob_key bundle

-- The rest of `open_cloud_record`, once the three texts are decoded.
unfoldable pub open_decoded :
    Argon → Bytes → Option Bytes → Option Bytes → Option Bytes → Result Token
open_decoded argon key_part none wrapped bundle = err bad_salt
open_decoded argon key_part (some salt) none bundle =
    if length salt == 16 then err bad_wrapped else err bad_salt
open_decoded argon key_part (some salt) (some wrapped) none =
    if length salt == 16
    then (if length wrapped == 60 then err bad_record else err bad_wrapped)
    else err bad_salt
open_decoded argon key_part (some salt) (some wrapped) (some bundle) =
    if length salt == 16
    then (if length wrapped == 60
        then elim (argon2id_key argon key_part salt) [
          | none ↦ err derivation_failed
          | some wrap ↦
              open_wrapped
                (aead_decrypt wrap (take 12 wrapped) [] (take 32 (drop 12 wrapped))
                  (take 16 (drop 44 wrapped)))
                bundle
        ]
        else err bad_wrapped)
    else err bad_salt

unfoldable pub open_cloud_record : Argon → Bytes → Bytes → Bytes → Bytes → Result Token
open_cloud_record argon room_code salt wrapped payload = elim (code_split (length room_code)) [
  | none ↦ err bad_room_code
  | some halves ↦
      open_decoded argon (take halves.1 (drop halves.0 room_code)) (base91_decode salt)
        (base91_decode wrapped) (base91_decode payload)
]
