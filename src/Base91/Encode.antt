-- ===== src/Base91/Encode.antt =====
-- One round of the encoder as arithmetic.
use folder_buddies.Base.Bytes.{Bytes}
use folder_buddies.Base.{
  lt→ltb, ◌-◌, le→not-ltb, arith, ◌/◌, ◌*◌, ◌+◌, inr, bit_or, ◌∷◌, inl, Bool-cases, bit_and, ◌≤◌,
  ◌^◌, ◌≡◌, ltb, ◌%◌, ◌<◌, if◌then◌else◌, ℕ,
}
use folder_buddies.Base91.Bits.{push_bits, low13, low14}
use folder_buddies.Base91.{alphabet_at, encode_loop, width, shift_left}

pub pushed :
    (b n byte : ℕ)
    → b < 2 ^ n
    → n ≤ 13
    → byte < 256
    → bit_or b (shift_left byte n) ≡ b + byte * 2 ^ n
pushed b n byte hb hn hy = push_bits b byte n hb hn (omega arith)

pub encode_queued :
    (b n byte : ℕ) (rest : Bytes)
    → b < 2 ^ n
    → n ≤ 5
    → byte < 256
    → encode_loop b n (byte ∷ rest) ≡ encode_loop (b + byte * 2 ^ n) (n + 8) rest
unfolding encode_loop
encode_queued b n byte rest hb hn hy =
    rw (pushed b n byte hb (omega arith) hy, le→not-ltb 13 (n + 8) (omega arith))

-- The digit that the encoder takes from a queue of value `c`.
abbrev pub digit : ℕ → ℕ
digit c = c % 2 ^ width (c % 8192)

digit_choice :
    (c : ℕ) → (if ltb 88 (bit_and c 8191) then bit_and c 8191 else bit_and c 16383) ≡ digit c
digit_choice c =
    rw (low13 c, low14 c)
      (elim (Bool-cases (ltb 88 (c % 8192))) [ inl wide ↦ rw wide | inr narrow ↦ rw narrow ])

pub digit_lem : (c : ℕ) → (digit c < 8281) × (width (digit c % 8192) ≡ width (c % 8192))
digit_lem c = elim (Bool-cases (ltb 88 (c % 8192))) [
  | inl wide ↦ rw wide (omega arith, ground arith)
  | inr narrow ↦ rw narrow (ground arith, ground arith)
]

pub encode_digit :
    (b n byte : ℕ) (rest : Bytes)
    → b < 2 ^ n
    → 6 ≤ n
    → n ≤ 13
    → byte < 256
    → encode_loop b n (byte ∷ rest)
      ≡ alphabet_at (digit (b + byte * 2 ^ n) % 91)
        ∷ alphabet_at (digit (b + byte * 2 ^ n) / 91)
        ∷ encode_loop
            ((b + byte * 2 ^ n) / 2 ^ width ((b + byte * 2 ^ n) % 8192))
            (n + 8 - width ((b + byte * 2 ^ n) % 8192))
            rest
unfolding encode_loop
encode_digit b n byte rest hb lo hi hy = rw (
  pushed b n byte hb hi hy,
  lt→ltb 13 (n + 8) (omega arith),
  digit_choice (b + byte * 2 ^ n),
  low13 (b + byte * 2 ^ n),
)
