-- ===== src/Tests/Base91.antt =====
-- Base91 on two bytes.
use folder_buddies.Base.Bytes.{Bytes}
use folder_buddies.Base91.{base91_is_clean, base91_encode, base91_decode}
use folder_buddies.Base.{is_some, arith, some, [], ◌≡◌, ◌∷◌}
use folder_buddies.Base91.RoundTrip.{base91_decode-base91_encode}
use folder_buddies.Base91.Clean.{base91_decode-is_clean, in_alphabet}

abbrev two_bytes : Bytes
two_bytes = 72 ∷ 205 ∷ []

base91_decode-base91_encode_example : base91_decode (base91_encode two_bytes) ≡ some two_bytes
base91_decode-base91_encode_example =
    base91_decode-base91_encode two_bytes (omega arith, (omega arith, tt))

base91_decode-is_clean_example :
    (is_some (base91_decode (65 ∷ 32 ∷ 39 ∷ [])) ≡ base91_is_clean (65 ∷ 32 ∷ 39 ∷ []))
    × (base91_is_clean (65 ∷ 32 ∷ 39 ∷ []) ≡ in_alphabet (65 ∷ 32 ∷ 39 ∷ []))
base91_decode-is_clean_example =
    base91_decode-is_clean (65 ∷ 32 ∷ 39 ∷ []) (omega arith, (omega arith, (omega arith, tt)))
