-- ===== src/Base91/Table.antt =====
-- The decoding table against the alphabet, by evaluation.
use folder_buddies.Base.{
  [], ◌∷◌, sym, is_some, if◌then◌else◌, refl, ltb, not, ◌==◌, ◌&&◌, zero, none, some, suc, arith,
  true, false, get_or, Bool, ◌<◌, ◌≡◌, List, Option, ℕ,
}
use folder_buddies.Base91.{base91_alphabet, alphabet_at, decode_table, is_space}

-- A test of the numbers below a bound, run from the highest down.
passes : (ℕ → Bool) → ℕ → Bool
passes test zero = true
passes test (suc top) = let below = passes test top in if test top then below else false

passed : (test : ℕ → Bool) (bound d : ℕ) → passes test bound ≡ true → d < bound → test d ≡ true
unfolding passes
passed test zero d run small = absurd (omega arith)
passed test (suc top) d run small = ground (arith, passed test top d)

abbrev is_entry : Option ℕ → ℕ → Bool
is_entry none d = false
is_entry (some c) d = c == d

abbrev good_digit : List (Option ℕ) → ℕ → Bool
good_digit table d =
    is_entry (get_or table (alphabet_at d) none) d
    && (not (is_space (alphabet_at d)) && ltb (alphabet_at d) 256)

good_digits : passes (good_digit decode_table) 91 ≡ true
unfolding passes decode_table alphabet_at
good_digits = refl

is_entry_eq : (o : Option ℕ) (d : ℕ) → is_entry o d ≡ true → o ≡ some d
is_entry_eq none d h = cc
is_entry_eq (some c) d h = ground arith

module _ (d : ℕ) (small : d < 91) where
  good : good_digit decode_table d ≡ true
  good = passed (good_digit decode_table) 91 d good_digits small

  pub table-alphabet : get_or decode_table (alphabet_at d) none ≡ some d
  table-alphabet = is_entry_eq (get_or decode_table (alphabet_at d) none) d (ground (arith, good))

  pub alphabet-not-space : is_space (alphabet_at d) ≡ false
  alphabet-not-space = ground (arith, good)

-- Whether a character stands in the alphabet.
unfoldable pub has : ℕ → List ℕ → Bool
has c [] = false
has c (x ∷ xs) = let rest = has c xs in if x == c then true else rest

abbrev agree : Bool → Bool → Bool
agree true b = b
agree false b = not b

agree_eq : (a b : Bool) → agree a b ≡ true → a ≡ b
agree_eq true b h = sym h
agree_eq false true h = cc
agree_eq false false h = refl

abbrev good_entry : List (Option ℕ) → ℕ → Bool
good_entry table c = agree (is_some (get_or table c none)) (has c base91_alphabet)

good_entries : passes (good_entry decode_table) 256 ≡ true
unfolding passes decode_table has
good_entries = refl

-- The table has a digit for the characters of the alphabet and for no others.
pub table-has : (c : ℕ) → c < 256 → is_some (get_or decode_table c none) ≡ has c base91_alphabet
table-has c small =
    agree_eq (is_some (get_or decode_table c none)) (has c base91_alphabet)
      (passed (good_entry decode_table) 256 c good_entries small)
