-- ===== src/Base91/Decode.antt =====
-- The decoder on the characters of one digit.
use folder_buddies.Base.Bytes.{Bytes}
use folder_buddies.Base.{
  ap, ◌∙◌, bit_or, ◌≡◌, ◌∷◌, ◌/◌, bit_and, some, ◌^◌, none, ◌%◌, ◌*◌, Option, arith, ◌+◌, ◌<◌, ◌≤◌,
  ℕ,
}
use folder_buddies.Base91.Table.{table-alphabet, alphabet-not-space}
use folder_buddies.Base91.Bits.{push_bits, low13, flush_lem, after}
use folder_buddies.Base91.{alphabet_at, decode_loop, width, flush, shift_left}

pub decode_first :
    (d : ℕ) (out : Bytes) (b n : ℕ) (text : Bytes)
    → d < 91
    → decode_loop out none b n (alphabet_at d ∷ text) ≡ decode_loop out (some d) b n text
unfolding decode_loop
decode_first d out b n text h = rw (alphabet-not-space d h, table-alphabet d h)

-- The state behind a digit of value `v`.
abbrev pub behind : Bytes → ℕ → ℕ → ℕ → Bytes × ℕ × ℕ
behind out b n v =
    after ((n + width (v % 8192)) / 8) out (b + v * 2 ^ n) ((n + width (v % 8192)) % 8)

abbrev pub resume : Bytes × ℕ × ℕ → Bytes → Option Bytes
resume (out, b, n) text = decode_loop out none b n text

pub width_bounds : (v : ℕ) → (13 ≤ width v) × (width v ≤ 14)
width_bounds v = ground arith

flushed :
    (out : Bytes) (b n v : ℕ)
    → b < 2 ^ n
    → n ≤ 7
    → v < 2 ^ 14
    → flush
        (n + width (bit_and v 8191))
        out
        (bit_or b (shift_left v n))
        (n + width (bit_and v 8191))
      ≡ behind out b n v
flushed out b n v hb hn hv =
    rw (low13 v, push_bits b v n hb (omega arith) hv)
      (flush_lem (n + width (v % 8192)) out (b + v * 2 ^ n) (n + width (v % 8192))
        (omega (arith, width_bounds (v % 8192))) (omega (arith, width_bounds (v % 8192)))
        (omega (arith, width_bounds (v % 8192))))

decode_second :
    (u c : ℕ) (out : Bytes) (b n : ℕ) (text : Bytes)
    → c < 91
    → u + c * 91 < 2 ^ 14
    → b < 2 ^ n
    → n ≤ 7
    → decode_loop out (some u) b n (alphabet_at c ∷ text)
      ≡ resume (behind out b n (u + c * 91)) text
unfolding decode_loop
decode_second u c out b n text hc hv hb hn =
    rw (alphabet-not-space c hc, table-alphabet c hc, flushed out b n (u + c * 91) hb hn hv)

-- Two characters of the alphabet are read as the number of up to 14 bits that they stand for.
pub decode_pair :
    (v : ℕ) (out : Bytes) (b n : ℕ) (text : Bytes)
    → v < 8281
    → b < 2 ^ n
    → n ≤ 7
    → decode_loop out none b n (alphabet_at (v % 91) ∷ alphabet_at (v / 91) ∷ text)
      ≡ resume (behind out b n v) text
decode_pair v out b n text hv hb hn =
    decode_first (v % 91) out b n _ (omega arith)
    ∙ decode_second (v % 91) (v / 91) out b n text (omega arith) (omega arith) hb hn
    ∙ ap (λ (t : ℕ). resume (behind out b n t) text) (digits v)
  where
    digits : (v : ℕ) → v % 91 + v / 91 * 91 ≡ v
    digits v = omega arith
