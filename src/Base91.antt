-- ===== src/Base91.antt =====
-- The Base91 text codec, client/src/crypto/base91.cpp and client/include/crypto/base91.h.
pub mod Table
pub mod Bits
pub mod Encode
pub mod Decode
pub mod Queue
pub mod RoundTrip
pub mod Clean
use folder_buddies.Base.Bytes.{codes, Bytes}
use mathlib.Core.Option
use folder_buddies.Base.{
  zero, ◌&&◌, ◌-◌, leb, bit_and, ◌/◌, false, set, bit_or, ◌++◌, ◌%◌, none, ◌+◌, [], some, replicate,
  ◌||◌, ltb, ◌∷◌, ◌^◌, true, ◌==◌, suc, Option, Bool, List, get_or, ◌*◌, if◌then◌else◌, ℕ,
}

-- kBase91Alphabet
abbrev pub base91_alphabet : Bytes
base91_alphabet =
    codes
      "0123456789ABCDEFGHIJKLMNOPQRSTUVWXYZabcdefghijklmnopqrstuvwxyz!#$%&()*+,-./:;<=>?@[]^_`{|}~"

unfoldable pub alphabet_at : ℕ → ℕ
alphabet_at i = get_or base91_alphabet i 0

-- The loop that fills the table; `none` stands for -1.
unfoldable pub fill_table : ℕ → Bytes → List (Option ℕ) → List (Option ℕ)
fill_table i [] table = table
fill_table i (c ∷ cs) table = fill_table (i + 1) cs (set table c (some i))

unfoldable pub decode_table : List (Option ℕ)
unfolding fill_table
decode_table = fill_table 0 base91_alphabet (replicate 256 none)

-- `std::isspace` in the C locale.
abbrev pub is_space : ℕ → Bool
is_space c = c == 32 || (leb 9 c && leb c 13)

-- `x << n` of an `unsigned int`.
abbrev pub shift_left : ℕ → ℕ → ℕ
shift_left x n = x * 2 ^ n % 2 ^ 32

-- What is left in the queue of `n` bits when the data ends.
unfoldable pub encode_end : ℕ → ℕ → Bytes
encode_end b n =
    if n == 0
    then []
    else alphabet_at (b % 91) ∷ (if ltb 7 n || ltb 90 b then alphabet_at (b / 91) ∷ [] else [])

-- The width of a digit: 13 bits if their value is above 88, else 14.
abbrev pub width : ℕ → ℕ
width v = if ltb 88 v then 13 else 14

unfoldable pub encode_loop : ℕ → ℕ → Bytes → Bytes
encode_loop b n [] = encode_end b n
encode_loop b n (byte ∷ rest) =
    let b1 = bit_or b (shift_left byte n) in
    let n1 = n + 8 in
    let w = width (bit_and b1 8191) in
    let v = if ltb 88 (bit_and b1 8191) then bit_and b1 8191 else bit_and b1 16383 in
    let more = encode_loop (b1 / 2 ^ w) (n1 - w) rest in
    let queued = encode_loop b1 n1 rest in
    if ltb 13 n1 then alphabet_at (v % 91) ∷ alphabet_at (v / 91) ∷ more else queued

unfoldable pub base91_encode : Bytes → Bytes
base91_encode input = encode_loop 0 0 input

-- The `do … while (n > 7)` that takes whole bytes from the queue. Fuel: a round takes 8 bits.
unfoldable pub flush : ℕ → Bytes → ℕ → ℕ → Bytes × ℕ × ℕ
flush zero out b n = (out, b, n)
flush (suc fuel) out b n =
    let out1 = out ++ (bit_and b 255 ∷ []) in
    let n1 = (n + 2 ^ 32 - 8) % 2 ^ 32 in
    let more = flush fuel out1 (b / 2 ^ 8) n1 in if ltb 7 n1 then more else (out1, b / 2 ^ 8, n1)

-- `v` is `none` for -1, between two digits.
unfoldable pub decode_end : Bytes → Option ℕ → ℕ → ℕ → Bytes
decode_end out none b n = out
decode_end out (some v) b n = out ++ (bit_and (bit_or b (shift_left v n)) 255 ∷ [])

unfoldable pub decode_loop : Bytes → Option ℕ → ℕ → ℕ → Bytes → Option Bytes
decode_loop out v b n [] = some (decode_end out v b n)
decode_loop out v b n (ch ∷ text) =
    let skip = decode_loop out v b n text in
    let digit : Option Bytes = elim (get_or decode_table ch none) [
      | none ↦ none
      | some c ↦ elim v [
        | none ↦ decode_loop out (some c) b n text
        | some u ↦
            let x = u + c * 91 in
            let n1 = n + width (bit_and x 8191) in
            let (out2, b2, n2) = flush n1 out (bit_or b (shift_left x n)) n1 in
            decode_loop out2 none b2 n2 text
      ]
    ] in
    if is_space ch then skip else digit

-- `none` is the empty result with `*ok` false.
unfoldable pub base91_decode : Bytes → Option Bytes
base91_decode text = decode_loop [] none 0 0 text

unfoldable pub base91_is_clean : Bytes → Bool
base91_is_clean [] = true
base91_is_clean (ch ∷ text) =
    let rest = base91_is_clean text in
    let digit : Bool = elim (get_or decode_table ch none) [ none ↦ false | some c ↦ rest ] in
    if is_space ch then rest else digit
