-- ===== src/Base91/Clean.antt =====
-- Which texts are accepted.
use folder_buddies.Base91.RoundTrip.{base91_decode-base91_encode}
use folder_buddies.Base.Bytes.{IsByte, Bytes}
use folder_buddies.Base.{
  ◌||◌, if◌then◌else◌, Bool, false, is_some, ap, ◌∙◌, sym, get_or, Option-cases, All, [], inr, none,
  inl, true, some, Bool-cases, ◌∷◌, ◌≡◌, Option, ℕ, refl,
}
use folder_buddies.Base91.Table.{has, table-has}
use folder_buddies.Base91.{
  base91_alphabet, base91_encode, decode_table, is_space, base91_is_clean, decode_loop,
  base91_decode,
}

decode_loop-is_clean :
    (text out : Bytes) (v : Option ℕ) (b n : ℕ)
    → is_some (decode_loop out v b n text) ≡ base91_is_clean text
unfolding decode_loop base91_is_clean
decode_loop-is_clean [] out v b n = refl
decode_loop-is_clean (ch ∷ text) out none b n = elim (Bool-cases (is_space ch)) [
  | inl space ↦ rw space (decode_loop-is_clean text out none b n)
  | inr other ↦ elim (Option-cases (get_or decode_table ch none)) [
    | inl foreign ↦ rw (other, foreign)
    | inr (c, digit) ↦ rw (other, digit) (decode_loop-is_clean text out (some c) b n)
  ]
]
decode_loop-is_clean (ch ∷ text) out (some u) b n = elim (Bool-cases (is_space ch)) [
  | inl space ↦ rw space (decode_loop-is_clean text out (some u) b n)
  | inr other ↦ elim (Option-cases (get_or decode_table ch none)) [
    | inl foreign ↦ rw (other, foreign)
    | inr (c, digit) ↦ rw (other, digit) (decode_loop-is_clean text _ none _ _)
  ]
]

decode-is_clean : (text : Bytes) → is_some (base91_decode text) ≡ base91_is_clean text
unfolding base91_decode
decode-is_clean text = decode_loop-is_clean text [] none 0 0

-- Every character stands in the alphabet or is white space.
unfoldable pub in_alphabet : Bytes → Bool
in_alphabet [] = true
in_alphabet (c ∷ text) =
    let rest = in_alphabet text in if is_space c || has c base91_alphabet then rest else false

is_clean-in_alphabet : (text : Bytes) → All IsByte text → base91_is_clean text ≡ in_alphabet text
unfolding base91_is_clean in_alphabet
is_clean-in_alphabet [] h = refl
is_clean-in_alphabet (c ∷ text) h =
    let rest = is_clean-in_alphabet text h.1 in
    let entry = table-has c h.0 in
    elim (Bool-cases (is_space c)) [
      | inl space ↦ rw space rest
      | inr other ↦ elim (Option-cases (get_or decode_table c none)) [
        | inl foreign ↦
            let no_symbol : has c base91_alphabet ≡ false = sym (rw foreign at entry) in
            rw (other, foreign, no_symbol) refl
        | inr (d, digit) ↦
            let symbol : has c base91_alphabet ≡ true = sym (rw digit at entry) in
            rw (other, digit, symbol) rest
      ]
    ]

-- `base91_decode` succeeds on exactly the texts that `base91_is_clean` accepts, and those are the
-- texts of bytes that stand in the alphabet or are white space.
pub base91_decode-is_clean :
    (text : Bytes)
    → All IsByte text
    → (is_some (base91_decode text) ≡ base91_is_clean text)
      × (base91_is_clean text ≡ in_alphabet text)
base91_decode-is_clean text h = (decode-is_clean text, is_clean-in_alphabet text h)

-- What `base91_encode` puts out is accepted.
pub base91_encode-is_clean :
    (input : Bytes) → All IsByte input → base91_is_clean (base91_encode input) ≡ true
base91_encode-is_clean input h =
    sym (decode-is_clean (base91_encode input)) ∙ ap is_some (base91_decode-base91_encode input h)
