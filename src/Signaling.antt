-- ===== src/Signaling.antt =====
-- The sealed connection tokens of client/src/net/signaling.cpp, over `Token` of
-- client/include/crypto/token.h.
pub mod Payload
pub mod RoomCode
pub mod Sealed
pub mod Cloud
use folder_buddies.Base.{Bool, ℕ}
use folder_buddies.Base.Bytes.{Bytes}

pub record Token : Type 0 where
  pub ip : Bytes
  pub port : ℕ
  pub secret : Bytes
  pub folder : Bytes
  pub allow_writes : Bool

-- The texts that the functions leave in `err`.
pub data OpenError : Type 0 where
  bad_key : OpenError
  malformed_bundle : OpenError
  tampered : OpenError
  malformed_payload : OpenError
  not_a_blob : OpenError
  bad_room_code : OpenError
  bad_salt : OpenError
  bad_wrapped : OpenError
  bad_record : OpenError
  derivation_failed : OpenError
  wrong_code : OpenError

pub data Result {ℓ} (A : Type ℓ) : Type ℓ where
  ok : A → Result A
  err : OpenError → Result A
