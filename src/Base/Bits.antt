-- ===== src/Base/Bits.antt =====
-- The binary operations as arithmetic: `|` of a value and one shifted past it, `&` with a low mask,
-- and `^` twice.
use Prim.Native.Nat.{
  ℕ, zero, suc, ◌+◌, ◌-◌, ◌*◌, ◌/◌, ◌%◌, ◌^◌, ◌≤◌, ◌<◌, min, max, bit_and, bit_or, bit_xor,
}
use Prim.Native.Nat.{digits, differ, bit_and-bitwise, bit_or-bitwise, bit_xor-bitwise}
use mathlib.Core.Path.{◌≡◌, refl, ap}
use native.Mathlib.Nat.{pow-suc, one-le-pow, mod-add-div', div-div-eq-div-mul}
use native.Mathlib.Omega.{arith}

-- Two counts of rounds, both at least the first number, give one result.
module _ (z : ℕ → ℕ) (f : ℕ → ℕ → ℕ) where
  digits_enough : (a n m b : ℕ) → a ≤ n → a ≤ m → digits z f n a b ≡ digits z f m a b
  digits_enough zero zero zero b h k = refl
  digits_enough zero zero (suc m) b h k = refl
  digits_enough zero (suc n) zero b h k = refl
  digits_enough zero (suc n) (suc m) b h k = refl
  digits_enough (suc a) zero m b h k = absurd (omega arith)
  digits_enough (suc a) (suc n) zero b h k = absurd (omega arith)
  digits_enough (suc a) (suc n) (suc m) b h k =
      ap (λ (t : ℕ). t * 2 + f (suc a % 2) (b % 2))
        (digits_enough (suc a / 2) n m (b / 2) (omega arith) (omega arith))

  digits_halve :
      (a b : ℕ)
      → digits z f (suc a) (suc a) b
        ≡ digits z f (suc a / 2) (suc a / 2) (b / 2) * 2 + f (suc a % 2) (b % 2)
  digits_halve a b =
      ap (λ (t : ℕ). t * 2 + f (suc a % 2) (b % 2))
        (digits_enough (suc a / 2) a (suc a / 2) (b / 2) (omega arith) (omega arith))

-- The lowest digit apart from the others.
pub bit_or-halve : (a b : ℕ) → bit_or a b ≡ bit_or (a / 2) (b / 2) * 2 + max (a % 2) (b % 2)
bit_or-halve zero b = simp bit_or-bitwise (omega arith)
bit_or-halve (suc a) b = simp bit_or-bitwise (digits_halve (λ y. y) max a b)

pub bit_and-halve : (a b : ℕ) → bit_and a b ≡ bit_and (a / 2) (b / 2) * 2 + min (a % 2) (b % 2)
bit_and-halve zero b = simp bit_and-bitwise (omega arith)
bit_and-halve (suc a) b = simp bit_and-bitwise (digits_halve (λ y. 0) min a b)

pub bit_xor-halve : (a b : ℕ) → bit_xor a b ≡ bit_xor (a / 2) (b / 2) * 2 + differ (a % 2) (b % 2)
bit_xor-halve zero b = simp bit_xor-bitwise (omega arith)
bit_xor-halve (suc a) b = simp bit_xor-bitwise (digits_halve (λ y. y) differ a b)

zero-bit_or : (b : ℕ) → bit_or 0 b ≡ b
zero-bit_or b = bit_or-bitwise 0 b

two_pow_suc : (k : ℕ) → 2 ^ suc k ≡ 2 * 2 ^ k
two_pow_suc k = omega (arith, pow-suc 2 k)

twice_pow : (x k : ℕ) → x * 2 ^ suc k ≡ x * 2 ^ k * 2
twice_pow x k = omega (arith, ap (λ (t : ℕ). x * t) (pow-suc 2 k))

-- `b | x << k` is a sum when `b` has at most `k` digits.
pub bit_or-shifted : (k b x : ℕ) → b < 2 ^ k → bit_or b (x * 2 ^ k) ≡ b + x * 2 ^ k
bit_or-shifted zero zero x h = omega (arith, zero-bit_or (x * 2 ^ 0))
bit_or-shifted zero (suc b) x h = absurd (omega arith)
bit_or-shifted (suc k) b x h = omega (
  arith,
  bit_or-halve b (x * 2 ^ suc k),
  twice_pow x k,
  bit_or-shifted k (b / 2) x (omega (arith, pow-suc 2 k)),
  ap (λ (t : ℕ). bit_or (b / 2) t) (half x k),
)
  where
    half : (x k : ℕ) → x * 2 ^ suc k / 2 ≡ x * 2 ^ k
    half x k = omega (arith, twice_pow x k)

bit_and-zero : (n a : ℕ) → a ≤ n → bit_and a 0 ≡ 0
bit_and-zero n zero h = refl
bit_and-zero zero (suc a) h = absurd (omega arith)
bit_and-zero (suc n) (suc a) h =
    omega (arith, bit_and-halve (suc a) 0, bit_and-zero n (suc a / 2) (omega arith))

half_mask : (k : ℕ) → (2 ^ suc k - 1) / 2 ≡ 2 ^ k - 1
half_mask k = omega (arith, pow-suc 2 k, one-le-pow k 2 (omega arith))

mod_twice : (m a : ℕ) → a % (2 * m) ≡ a / 2 % m * 2 + a % 2
mod_twice m a = omega (
  arith,
  mod-add-div' a (2 * m),
  mod-add-div' (a / 2) m,
  ap (λ (t : ℕ). t * (2 * m)) (div-div-eq-div-mul a 2 m),
)

mod_pow_suc : (k a : ℕ) → a % 2 ^ suc k ≡ a / 2 % 2 ^ k * 2 + a % 2
mod_pow_suc k a = rw (two_pow_suc k) (mod_twice (2 ^ k) a)

-- `a & (2 ^ k - 1)` is a remainder.
pub bit_and-mask : (k a : ℕ) → bit_and a (2 ^ k - 1) ≡ a % 2 ^ k
bit_and-mask zero a = omega (arith, bit_and-zero a a (omega arith))
bit_and-mask (suc k) a = omega (
  arith,
  bit_and-halve a (2 ^ suc k - 1),
  pow-suc 2 k,
  one-le-pow k 2,
  ap (λ (t : ℕ). bit_and (a / 2) t) (half_mask k),
  bit_and-mask k (a / 2),
  mod_pow_suc k a,
)

-- A bit is given back by a second exclusive or.
differ_twice : (x y : ℕ) → x < 2 → y < 2 → differ (differ x y) y ≡ x
differ_twice zero zero p q = refl
differ_twice zero (suc zero) p q = refl
differ_twice zero (suc (suc y)) p q = absurd (omega arith)
differ_twice (suc zero) zero p q = refl
differ_twice (suc zero) (suc zero) p q = refl
differ_twice (suc zero) (suc (suc y)) p q = absurd (omega arith)
differ_twice (suc (suc x)) y p q = absurd (omega arith)

differ-lt : (x y : ℕ) → x < 2 → y < 2 → differ x y < 2
differ-lt zero y p q = q
differ-lt (suc zero) zero p q = omega arith
differ-lt (suc zero) (suc zero) p q = omega arith
differ-lt (suc zero) (suc (suc y)) p q = absurd (omega arith)
differ-lt (suc (suc x)) y p q = absurd (omega arith)

xor_half : (a b : ℕ) → bit_xor a b / 2 ≡ bit_xor (a / 2) (b / 2)
xor_half a b =
    omega (arith, bit_xor-halve a b, differ-lt (a % 2) (b % 2) (omega arith) (omega arith))

xor_parity : (a b : ℕ) → bit_xor a b % 2 ≡ differ (a % 2) (b % 2)
xor_parity a b =
    omega (arith, bit_xor-halve a b, differ-lt (a % 2) (b % 2) (omega arith) (omega arith))

bit_xor-twice_fuel : (n a b : ℕ) → a ≤ n → b ≤ n → bit_xor (bit_xor a b) b ≡ a
bit_xor-twice_fuel zero zero zero p q = refl
bit_xor-twice_fuel zero (suc a) b p q = absurd (omega arith)
bit_xor-twice_fuel zero zero (suc b) p q = absurd (omega arith)
bit_xor-twice_fuel (suc n) a b p q = omega (
  arith,
  bit_xor-halve (bit_xor a b) b,
  bit_xor-halve a b,
  differ-lt (a % 2) (b % 2) (omega arith) (omega arith),
  differ_twice (a % 2) (b % 2) (omega arith) (omega arith),
  ap (λ (t : ℕ). bit_xor t (b / 2)) (xor_half a b),
  ap (λ (t : ℕ). differ t (b % 2)) (xor_parity a b),
  bit_xor-twice_fuel n (a / 2) (b / 2) (omega arith) (omega arith),
)

pub bit_xor-twice : (a b : ℕ) → bit_xor (bit_xor a b) b ≡ a
bit_xor-twice a b = bit_xor-twice_fuel (a + b) a b (omega arith) (omega arith)

pub bit_xor-lt : (k a b : ℕ) → a < 2 ^ k → b < 2 ^ k → bit_xor a b < 2 ^ k
bit_xor-lt zero zero zero p q = omega arith
bit_xor-lt zero (suc a) b p q = absurd (omega arith)
bit_xor-lt zero zero (suc b) p q = absurd (omega arith)
bit_xor-lt (suc k) a b p q = omega (
  arith,
  bit_xor-halve a b,
  differ-lt (a % 2) (b % 2) (omega arith) (omega arith),
  pow-suc 2 k,
  bit_xor-lt k (a / 2) (b / 2) (omega (arith, pow-suc 2 k)) (omega (arith, pow-suc 2 k)),
)

pub bit_xor_self : (a : ℕ) → bit_xor a a ≡ 0
bit_xor_self a = go a a (omega arith)
  where
    parity : (x : ℕ) → x < 2 → differ x x ≡ 0
    parity zero h = refl
    parity (suc zero) h = refl
    parity (suc (suc x)) h = absurd (omega arith)

    go : (n a : ℕ) → a ≤ n → bit_xor a a ≡ 0
    go n zero h = refl
    go zero (suc a) h = absurd (omega arith)
    go (suc n) (suc a) h = omega (
      arith,
      bit_xor-halve (suc a) (suc a),
      parity (suc a % 2) (omega arith),
      go n (suc a / 2) (omega arith),
    )

-- Values whose exclusive or is zero are equal.
pub eq_of_bit_xor : (a b : ℕ) → bit_xor a b ≡ 0 → a ≡ b
eq_of_bit_xor a b h =
    omega (arith, bit_xor-twice a b, ap (λ (t : ℕ). bit_xor t b) h, zero-bit_xor b)
  where
    zero-bit_xor : (b : ℕ) → bit_xor 0 b ≡ b
    zero-bit_xor b = bit_xor-bitwise 0 b

-- An or is at least each of its sides.
pub le-bit_or : (a b : ℕ) → (a ≤ bit_or a b) × (b ≤ bit_or a b)
le-bit_or a b = go (a + b) a b (omega arith)
  where
    go : (n a b : ℕ) → a + b ≤ n → (a ≤ bit_or a b) × (b ≤ bit_or a b)
    go zero a b h = (omega arith, omega (arith, bit_or-halve a b))
    go (suc n) zero zero h = (omega arith, omega arith)
    go (suc n) (suc a) b h =
        let (left, right) = go n (suc a / 2) (b / 2) (omega arith) in
        (omega (arith, bit_or-halve (suc a) b), omega (arith, bit_or-halve (suc a) b))
    go (suc n) zero (suc b) h =
        let (left, right) = go n 0 (suc b / 2) (omega arith) in
        (omega arith, omega (arith, bit_or-halve 0 (suc b)))
