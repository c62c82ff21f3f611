-- ===== src/Base91/Queue.antt =====
-- The decoder's and the encoder's queues of bits side by side, as arithmetic.
use folder_buddies.Base91.Decode.{width_bounds}
use mathlib.Core.Path.{ap₂}
use native.Mathlib.Nat.{
  mod-lt, div-lt_iff_lt-mul, one-le-pow, add-mul-div_right, mod-add-div', add-zero,
}
use folder_buddies.Base.Bytes.{le_bytes, Bytes}
use folder_buddies.Base.{
  sym, ◌-◌, [], ◌++◌, suc, ap, ◌∙◌, ◌≡◌, ◌∷◌, ◌/◌, ◌^◌, ◌%◌, ◌*◌, arith, ◌+◌, ◌<◌, ◌≤◌, ℕ,
}
use folder_buddies.Base91.Bits.{
  le_bytes-low, le_bytes-split, le_bytes-snoc, pow_bytes, stacked-lt, pow-add,
}
use folder_buddies.Base91.{width}

-- The decoder's queue of `m` bits with value `b` and the encoder's of `n` bits with value `c` together
-- hold the last `k` bytes that are not decoded yet.
pub record Between (b m c n k : ℕ) : Type 0 where
  pub low : b < 2 ^ m
  pub high : c < 2 ^ n
  pub few : m ≤ 7
  pub room : n ≤ 13
  pub whole : m + n ≡ 8 * k

module _ {b m c n k : ℕ} (w : Between b m c n k) where
  pub held-lt : b + c * 2 ^ m < 256 ^ k
  held-lt = omega (
    arith,
    stacked-lt b c m n w.low w.high,
    ap (λ (t : ℕ). 2 ^ t) w.whole,
    pow_bytes k 0,
    add-zero (8 * k),
    ap (λ (t : ℕ). 2 ^ t) (add-zero (8 * k)),
  )

  -- The encoder queues one more byte.
  pub held-snoc :
      (byte : ℕ)
      → byte < 256
      → le_bytes (suc k) (b + (c + byte * 2 ^ n) * 2 ^ m)
        ≡ le_bytes k (b + c * 2 ^ m) ++ (byte ∷ [])
  held-snoc byte hy = ap (le_bytes (suc k)) weigh ∙ le_bytes-snoc k (b + c * 2 ^ m) byte held-lt hy
    where
      weigh : b + (c + byte * 2 ^ n) * 2 ^ m ≡ b + c * 2 ^ m + byte * 256 ^ k
      weigh = omega (
        arith,
        ap (λ (t : ℕ). byte * t) (pow-add m n),
        ap (λ (t : ℕ). byte * 2 ^ t) w.whole,
        ap (λ (t : ℕ). byte * t) (pow_bytes k 0),
        ap (λ (t : ℕ). byte * 2 ^ t) (add-zero (8 * k)),
      )

  pub queued-Between :
      (byte : ℕ) → byte < 256 → n ≤ 5 → Between b m (c + byte * 2 ^ n) (n + 8) (suc k)
  queued-Between byte hy hn = record {
    low = w.low;
    high = stacked-lt c byte n 8 w.high hy;
    few = w.few;
    room = omega arith;
    whole = omega (arith, w.whole);
  }

-- A digit `v` of `e` bits moves from a queue of value `d` to the decoder's queue, which gives off
-- its whole bytes.
module _ (b m d e : ℕ) where
  abbrev pub bytes_out : ℕ
  bytes_out = (m + e) / 8

  abbrev pub taken : ℕ
  taken = b + d % 2 ^ e * 2 ^ m

  split_bits : 2 ^ (m + e) ≡ 256 ^ bytes_out * 2 ^ ((m + e) % 8)
  split_bits = ap (λ (t : ℕ). 2 ^ t) (parts (m + e)) ∙ pow_bytes bytes_out ((m + e) % 8)
    where
      parts : (t : ℕ) → t ≡ 8 * (t / 8) + t % 8
      parts t = omega arith

  moved_value : b + d * 2 ^ m ≡ taken + d / 2 ^ e * 2 ^ ((m + e) % 8) * 256 ^ bytes_out
  moved_value = omega (
    arith,
    ap (λ (t : ℕ). t * 2 ^ m) (mod-add-div' d (2 ^ e)),
    ap (λ (t : ℕ). d / 2 ^ e * t) (pow-add m e),
    ap (λ (t : ℕ). d / 2 ^ e * t) split_bits,
  )

  moved_bytes :
      (k : ℕ)
      → le_bytes (bytes_out + k) (b + d * 2 ^ m)
        ≡ le_bytes bytes_out taken
          ++ le_bytes k (taken / 256 ^ bytes_out + d / 2 ^ e * 2 ^ ((m + e) % 8))
  moved_bytes k =
      ap (le_bytes (bytes_out + k)) moved_value
      ∙ le_bytes-split bytes_out k _
      ∙ ap₂ (λ (s t : Bytes). s ++ t) (le_bytes-low bytes_out taken (d / 2 ^ e * 2 ^ ((m + e) % 8)))
          (ap (le_bytes k) (
            add-mul-div_right taken (d / 2 ^ e * 2 ^ ((m + e) % 8))
              (one-le-pow bytes_out 256 (omega arith))))

  moved_low : b < 2 ^ m → taken / 256 ^ bytes_out < 2 ^ ((m + e) % 8)
  moved_low h = (div-lt_iff_lt-mul (one-le-pow bytes_out 256 (omega arith))).1 (
      omega (
        arith,
        split_bits,
        stacked-lt b (d % 2 ^ e) m e h (mod-lt d (one-le-pow e 2 (omega arith))),
      ))

moved_high : (d e n : ℕ) → e ≤ n → d < 2 ^ n → d / 2 ^ e < 2 ^ (n - e)
moved_high d e n h hd =
    (div-lt_iff_lt-mul (one-le-pow e 2 (omega arith))).1
      (omega (arith, pow-add e (n - e), ap (λ (t : ℕ). 2 ^ t) (back e n h)))
  where
    back : (e n : ℕ) → e ≤ n → e + (n - e) ≡ n
    back e n h = omega arith

-- The encoder's queue with a byte that completes a digit, and the digit's width.
abbrev pub with_byte : ℕ → ℕ → ℕ → ℕ
with_byte c n byte = c + byte * 2 ^ n

abbrev pub digit_bits : ℕ → ℕ
digit_bits q = width (q % 8192)

module _ {b m c n k : ℕ} (w : Between b m c n k) (byte : ℕ) (hy : byte < 256) (many : 6 ≤ n) where
  pub digit-Between :
      Between
        (taken b m (with_byte c n byte) (digit_bits (with_byte c n byte))
          / 256 ^ bytes_out b m (with_byte c n byte) (digit_bits (with_byte c n byte)))
        ((m + (digit_bits (with_byte c n byte))) % 8)
        ((with_byte c n byte) / 2 ^ (digit_bits (with_byte c n byte)))
        (n + 8 - (digit_bits (with_byte c n byte)))
        (suc k - bytes_out b m (with_byte c n byte) (digit_bits (with_byte c n byte)))
  digit-Between = record {
    low = moved_low b m (with_byte c n byte) (digit_bits (with_byte c n byte)) w.low;
    high =
        moved_high (with_byte c n byte) (digit_bits (with_byte c n byte)) (n + 8)
          (omega (arith, width_bounds ((with_byte c n byte) % 8192)))
          (stacked-lt c byte n 8 w.high hy);
    few = omega arith;
    room = omega (arith, w.room, width_bounds ((with_byte c n byte) % 8192));
    whole = omega (arith, w.whole, w.few, width_bounds ((with_byte c n byte) % 8192));
  }

  pub digit_bytes :
      le_bytes k (b + c * 2 ^ m) ++ (byte ∷ [])
      ≡ le_bytes
          (bytes_out b m (with_byte c n byte) (digit_bits (with_byte c n byte)))
          (taken b m (with_byte c n byte) (digit_bits (with_byte c n byte)))
        ++ le_bytes (suc k - bytes_out b m (with_byte c n byte) (digit_bits (with_byte c n byte))) (
            taken b m (with_byte c n byte) (digit_bits (with_byte c n byte))
              / 256 ^ bytes_out b m (with_byte c n byte) (digit_bits (with_byte c n byte))
            + (with_byte c n byte)
              / 2 ^ (digit_bits (with_byte c n byte))
              * 2 ^ ((m + (digit_bits (with_byte c n byte))) % 8))
  digit_bytes =
      sym (held-snoc w byte hy)
      ∙ ap (λ (t : ℕ). le_bytes t (b + (with_byte c n byte) * 2 ^ m)) count
      ∙ moved_bytes b m (with_byte c n byte) (digit_bits (with_byte c n byte))
          (suc k - bytes_out b m (with_byte c n byte) (digit_bits (with_byte c n byte)))
    where
      count :
          suc k
          ≡ bytes_out b m (with_byte c n byte) (digit_bits (with_byte c n byte))
            + (suc k - bytes_out b m (with_byte c n byte) (digit_bits (with_byte c n byte)))
      count = omega (arith, w.whole, w.few, w.room, width_bounds ((with_byte c n byte) % 8192))
