-- ===== src/Tests/Signaling.antt =====
-- Tokens and room codes.
use folder_buddies.Base91.{alphabet_at, base91_encode}
use folder_buddies.Signaling.Sealed.{seal_token, seal_for_offline, open_offline_blob}
use folder_buddies.Signaling.Payload.{serialize_token_payload, deserialize_token_payload}
use folder_buddies.Signaling.RoomCode.{
  room_lookup_id, push_draw, draw_code, code_split, looks_like_room_code, random_room_code,
}
use folder_buddies.Signaling.Cloud.{
  argon2id_key, wrap_key, Draws, Argon, seal_for_cloud, CloudRecord, open_cloud_record,
}
use folder_buddies.Base.{
  take, zero, length, suc, ◌≤◌, true, ◌↔◌, All, ◌≡◌, some, [], false, replicate, List, ℕ, ◌∷◌,
  arith, refl,
}
use folder_buddies.Base.Bytes.{IsByte, Bytes, codes}
use folder_buddies.Signaling.{ok, Token}
use folder_buddies.Signaling.Payload.RoundTrip.{
  UsableToken, OctetToken, deserialize_token_payload-serialize_token_payload,
}
use folder_buddies.Signaling.Sealed.RoundTrip.{open_offline_blob-seal_for_offline}
use folder_buddies.Signaling.Cloud.RoundTrip.{FreshDraws, open_cloud_record-seal_for_cloud}
use folder_buddies.Signaling.RoomCode.Draw.{
  joined_draws, symbols, random_room_code_iff, looks_like_room_code-random_room_code,
}

abbrev sample : Token
sample = record {
  ip = codes "::1";
  port = 4433;
  secret = 1 ∷ 2 ∷ [];
  folder = codes "ab";
  allow_writes = true;
}

sample-UsableToken : UsableToken sample
sample-UsableToken = record {
  ip = refl;
  ip_size = omega arith;
  port = omega arith;
  port_size = omega arith;
  folder_size = omega arith;
  secret = refl;
  secret_size = omega arith;
}

sample-OctetToken : OctetToken sample
sample-OctetToken = record {
  ip = (omega arith, (omega arith, (omega arith, tt)));
  folder = (omega arith, (omega arith, tt));
  secret = (omega arith, (omega arith, tt));
}

All-replicate : (n b : ℕ) → IsByte b → All IsByte (replicate n b)
All-replicate zero b h = tt
All-replicate (suc n) b h = (h, All-replicate n b h)

deserialize_token_payload-serialize_token_payload_example :
    deserialize_token_payload (serialize_token_payload sample) ≡ some sample
deserialize_token_payload-serialize_token_payload_example =
    deserialize_token_payload-serialize_token_payload sample sample-UsableToken

open_offline_blob-seal_for_offline_example :
    open_offline_blob (seal_for_offline sample (replicate 32 9) (replicate 12 4)) ≡ ok sample
open_offline_blob-seal_for_offline_example =
    open_offline_blob-seal_for_offline sample (replicate 32 9) (replicate 12 4) sample-UsableToken
      sample-OctetToken refl refl (All-replicate 32 9 (omega arith))
      (All-replicate 12 4 (omega arith))

-- A stand-in for the password hash.
abbrev constant_argon : Argon
constant_argon key_part salt = some (replicate 32 1)

abbrev draws : Draws
draws = record {
  blob_key = replicate 32 9;
  nonce = replicate 12 4;
  salt = replicate 16 5;
  wrap_nonce = replicate 12 6;
  owner = replicate 16 7;
}

draws-FreshDraws : FreshDraws draws
draws-FreshDraws = record {
  blob_key = refl;
  nonce = refl;
  salt = refl;
  wrap_nonce = refl;
  blob_key_bytes = All-replicate 32 9 (omega arith);
  nonce_bytes = All-replicate 12 4 (omega arith);
  salt_bytes = All-replicate 16 5 (omega arith);
  wrap_nonce_bytes = All-replicate 12 6 (omega arith);
}

abbrev room_code : Bytes
room_code = codes "aB3x9z"

abbrev published : CloudRecord
published = record {
  lookup_id = codes "aB3x";
  salt = base91_encode (replicate 16 5);
  wrapped = base91_encode (wrap_key (replicate 32 1) draws);
  payload = base91_encode (seal_token sample (replicate 32 9) (replicate 12 4));
  owner = base91_encode (replicate 16 7);
}

publishes : seal_for_cloud constant_argon sample room_code draws ≡ ok published
unfolding seal_for_cloud code_split argon2id_key
publishes = refl

open_cloud_record-seal_for_cloud_example :
    (open_cloud_record constant_argon room_code published.salt published.wrapped published.payload
      ≡ ok sample)
    × (published.lookup_id ≡ room_lookup_id room_code)
open_cloud_record-seal_for_cloud_example =
    open_cloud_record-seal_for_cloud constant_argon sample room_code draws published
      sample-UsableToken sample-OctetToken draws-FreshDraws publishes

abbrev random_draws : List Bytes
random_draws = (200 ∷ 1 ∷ 92 ∷ 181 ∷ []) ∷ (255 ∷ 10 ∷ 20 ∷ 30 ∷ []) ∷ []

abbrev drawn : Bytes
drawn = codes "11~AKU"

draws_code : random_room_code false random_draws ≡ some drawn
unfolding random_room_code draw_code push_draw alphabet_at
draws_code = refl

random_room_code_iff_example :
    (random_room_code false random_draws ≡ some drawn)
    ↔ (6 ≤ length (symbols (joined_draws random_draws)))
      × (drawn ≡ take 6 (symbols (joined_draws random_draws)))
random_room_code_iff_example = random_room_code_iff false random_draws drawn

looks_like_room_code-random_room_code_example : looks_like_room_code drawn ≡ true
looks_like_room_code-random_room_code_example =
    looks_like_room_code-random_room_code false random_draws drawn draws_code
