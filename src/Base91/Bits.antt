-- ===== src/Base91/Bits.antt =====
-- The queues of bits of the codec as arithmetic.
use mathlib.Core.Path.{ap₂}
use native.Mathlib.Nat.{
  div-eq_of_lt, mul-le-mul_right, pow-succ', div-div-eq-div-mul, suc-add, div-one, pow-zero,
  mul-le-mul, mod-eq_of_lt, zero-add, pow-suc, pow-le-pow_right, add-mul-mod_self_right,
  add-mul-div_right,
}
use native.Mathlib.Decide.{dec_lt}
use folder_buddies.Base.{
  append-nil, lt→ltb, append_assoc, le→not-ltb, [], ◌-◌, sym, ◌∙◌, ◌∷◌, arith, ap, ◌/◌, zero, ◌%◌,
  ◌++◌, suc, bit_or, ◌≤◌, ◌*◌, ◌≡◌, ◌^◌, ◌<◌, ◌+◌, bit_and, ℕ, refl,
}
use folder_buddies.Base.Bits.{bit_or-shifted, bit_and-mask}
use folder_buddies.Base.Bytes.{Bytes, le_bytes}
use folder_buddies.Base91.{shift_left, flush}

pub pow-add : (m n : ℕ) → 2 ^ (m + n) ≡ 2 ^ m * 2 ^ n
pow-add zero n = rw zero-add (omega (arith, pow-zero 2))
pow-add (suc m) n =
    rw (suc-add, pow-suc, pow-suc) (omega (arith, ap (λ (t : ℕ). t * 2) (pow-add m n)))

below : (x p : ℕ) → x < 2 ^ 14 → p ≤ 2 ^ 13 → x * p < 2 ^ 32
below x p hx hp =
    omega (arith, mul-le-mul {n₁ = x} {m₁ = p} {n₂ = 2 ^ 14} {m₂ = 2 ^ 13} (omega arith) hp)

-- `b | x << n` while all bits stay below 2 ^ 32.
pub push_bits :
    (b x n : ℕ) → b < 2 ^ n → n ≤ 13 → x < 2 ^ 14 → bit_or b (shift_left x n) ≡ b + x * 2 ^ n
push_bits b x n hb hn hx =
    let room : x * 2 ^ n < 2 ^ 32 =
      below x (2 ^ n) hx (pow-le-pow_right {n = 2} (omega arith) hn) in
    ap (bit_or b) (mod-eq_of_lt room) ∙ bit_or-shifted n b x hb

pub low8 : (b : ℕ) → bit_and b 255 ≡ b % 256
low8 b = bit_and-mask 8 b

pub low13 : (b : ℕ) → bit_and b 8191 ≡ b % 8192
low13 b = bit_and-mask 13 b

pub low14 : (b : ℕ) → bit_and b 16383 ≡ b % 16384
low14 b = bit_and-mask 14 b

-- The bytes of a sum, cut at `j` bytes.
pub le_bytes-split : (j m c : ℕ) → le_bytes (j + m) c ≡ le_bytes j c ++ le_bytes m (c / 256 ^ j)
unfolding le_bytes
le_bytes-split zero m c = rw (zero-add, div-one)
le_bytes-split (suc j) m c = rw suc-add (
    ap (λ (t : Bytes). (c % 256) ∷ t)
      (le_bytes-split j m (c / 256)
        ∙ ap (λ (t : ℕ). le_bytes j (c / 256) ++ le_bytes m t)
            (div-div-eq-div-mul c 256 (256 ^ j) ∙ ap (λ (t : ℕ). c / t) (sym (pow-succ' 256 j)))))

pub le_bytes-low : (j b x : ℕ) → le_bytes j (b + x * 256 ^ j) ≡ le_bytes j b
unfolding le_bytes
le_bytes-low zero b x = refl
le_bytes-low (suc j) b x = rw (shifted x j) (
    ap₂ ◌∷◌ (add-mul-mod_self_right b (x * 256 ^ j) 256) (
      ap (le_bytes j) (add-mul-div_right b (x * 256 ^ j) (omega arith))
      ∙ le_bytes-low j (b / 256) x))
  where
    shifted : (x j : ℕ) → x * 256 ^ suc j ≡ x * 256 ^ j * 256
    shifted x j = omega (arith, ap (λ (t : ℕ). x * t) (pow-suc 256 j))

wrap : (n : ℕ) → 8 ≤ n → n < 2 ^ 32 → (n + 2 ^ 32 - 8) % 2 ^ 32 ≡ n - 8
wrap n lo hi = omega arith

module _ (fuel : ℕ) (out : Bytes) (b n : ℕ) (lo : 8 ≤ n) (hi : n < 2 ^ 32) where
  flush_more :
      15 < n → flush (suc fuel) out b n ≡ flush fuel (out ++ ((b % 256) ∷ [])) (b / 256) (n - 8)
  unfolding flush
  flush_more h = rw (wrap n lo hi, lt→ltb 7 (n - 8) (omega arith), low8 b)

  flush_last : n < 16 → flush (suc fuel) out b n ≡ (out ++ ((b % 256) ∷ []), b / 256, n - 8)
  unfolding flush
  flush_last h = rw (wrap n lo hi, le→not-ltb 7 (n - 8) (omega arith), low8 b)

-- What the loop has put out and kept after `k` rounds.
abbrev pub after : ℕ → Bytes → ℕ → ℕ → Bytes × ℕ × ℕ
after k out b left = (out ++ le_bytes k b, b / 256 ^ k, left)

after-suc :
    (k : ℕ) (out : Bytes) (b left : ℕ)
    → after k (out ++ ((b % 256) ∷ [])) (b / 256) left ≡ after (suc k) out b left
unfolding le_bytes
after-suc k out b left = rw (
  append_assoc out ((b % 256) ∷ []) (le_bytes k (b / 256)),
  pow-succ' 256 k,
  div-div-eq-div-mul b 256 (256 ^ k),
)

after_zero :
    (out : Bytes) (b left : ℕ)
    → (out ++ ((b % 256) ∷ []), b / 256, left) ≡ after 0 (out ++ ((b % 256) ∷ [])) (b / 256) left
unfolding le_bytes
after_zero out b left = rw (append-nil, div-one)

-- The loop ends with fewer than eight bits, and has put out the bytes of the whole ones before.
pub flush_lem :
    (fuel : ℕ) (out : Bytes) (b n : ℕ)
    → 8 ≤ n
    → n < 2 ^ 32
    → n ≤ fuel * 8 + 7
    → flush fuel out b n ≡ after (n / 8) out b (n % 8)
flush_lem zero out b n lo hi enough = absurd (omega arith)
flush_lem (suc fuel) out b n lo hi enough = elim (dec_lt 15 n) [
  | yes more ↦
      flush_more fuel out b n lo hi more
      ∙ flush_lem fuel (out ++ ((b % 256) ∷ [])) (b / 256) (n - 8) (omega arith) (omega arith)
          (omega arith)
      ∙ after-suc ((n - 8) / 8) out b ((n - 8) % 8)
      ∙ ap₂ (λ (k l : ℕ). after k out b l) (omega arith) (omega arith)
  | no last ↦
      flush_last fuel out b n lo hi (omega arith)
      ∙ after_zero out b (n - 8)
      ∙ after-suc 0 out b (n - 8)
      ∙ ap₂ (λ (k l : ℕ). after k out b l) (omega arith) (omega arith)
]

pub pow_bytes : (j r : ℕ) → 2 ^ (8 * j + r) ≡ 256 ^ j * 2 ^ r
pow_bytes zero r = ap (λ (t : ℕ). 2 ^ t) (start r) ∙ omega arith
  where
    start : (r : ℕ) → 8 * 0 + r ≡ r
    start r = omega arith
pow_bytes (suc j) r =
    ap (λ (t : ℕ). 2 ^ t) (regroup j r)
    ∙ pow-add 8 (8 * j + r)
    ∙ omega (arith, pow_bytes j r, ap (λ (t : ℕ). t * 2 ^ r) (pow-suc 256 j))
  where
    regroup : (j r : ℕ) → 8 * suc j + r ≡ 8 + (8 * j + r)
    regroup j r = omega arith

-- A queue of `m` bits under one of `n` bits holds `m + n` bits.
pub stacked-lt : (b c m n : ℕ) → b < 2 ^ m → c < 2 ^ n → b + c * 2 ^ m < 2 ^ (m + n)
stacked-lt b c m n hb hc =
    omega (arith, pow-add m n, mul-le-mul_right {m = suc c} {n = 2 ^ n} (2 ^ m) hc)

-- A byte behind `k` whole bytes.
pub le_bytes-snoc :
    (k c byte : ℕ)
    → c < 256 ^ k
    → byte < 256
    → le_bytes (suc k) (c + byte * 256 ^ k) ≡ le_bytes k c ++ (byte ∷ [])
le_bytes-snoc k c byte hc hb =
    ap (λ (t : ℕ). le_bytes t (c + byte * 256 ^ k)) (suc-eq k)
    ∙ le_bytes-split k 1 (c + byte * 256 ^ k)
    ∙ ap₂ (λ (s t : Bytes). s ++ t) (le_bytes-low k c byte)
        (ap (le_bytes 1) (top k c byte hc) ∙ single byte hb)
  where
    suc-eq : (k : ℕ) → suc k ≡ k + 1
    suc-eq k = omega arith

    top : (k c byte : ℕ) → c < 256 ^ k → (c + byte * 256 ^ k) / 256 ^ k ≡ byte
    top k c byte h = add-mul-div_right c byte (omega arith) ∙ rw (div-eq_of_lt h) (zero-add byte)

    single : (byte : ℕ) → byte < 256 → le_bytes 1 byte ≡ byte ∷ []
    single byte h = unfold le_bytes in rw (mod-eq_of_lt h)
