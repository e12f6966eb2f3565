-- ===== src/Common/Bits.antt =====
-- `|` of disjoint fields and `&` with a low mask as arithmetic.
use Prim.Native.Nat.{
  digits, bit_and-bitwise, bit_or-bitwise, ℕ, zero, suc, ◌+◌, ◌-◌, ◌*◌, ◌/◌, ◌%◌, ◌^◌, ◌≤◌, ◌<◌,
  min, max, bit_and, bit_or,
}
use mathlib.Core.Path.{◌≡◌, refl, ap}
use native.Mathlib.Nat.{
  pow-suc, one-le-pow, mod-eq-sub-div-mul, div-div-eq-div-mul, div-add-mod', mul_comm,
}
use native.Mathlib.Omega.{arith}

-- More fuel than digits changes nothing.
module _ (rest : ℕ → ℕ) (op : ℕ → ℕ → ℕ) where
  enough_fuel : (k l a b : ℕ) → a ≤ k → a ≤ l → digits rest op k a b ≡ digits rest op l a b
  enough_fuel zero zero zero b hk hl = refl
  enough_fuel zero (suc l) zero b hk hl = refl
  enough_fuel (suc k) zero zero b hk hl = refl
  enough_fuel (suc k) (suc l) zero b hk hl = refl
  enough_fuel zero l (suc a) b hk hl = absurd (omega arith)
  enough_fuel (suc k) zero (suc a) b hk hl = absurd (omega arith)
  enough_fuel (suc k) (suc l) (suc a) b hk hl =
      rw (enough_fuel k l (suc a / 2) (b / 2) (omega arith) (omega arith))

pub bit_or_halve : (a b : ℕ) → bit_or a b ≡ bit_or (a / 2) (b / 2) * 2 + max (a % 2) (b % 2)
bit_or_halve zero b = omega (arith, bit_or-bitwise 0 b, bit_or-bitwise 0 (b / 2))
bit_or_halve (suc a) b = omega (
  arith,
  bit_or-bitwise (suc a) b,
  bit_or-bitwise (suc a / 2) (b / 2),
  enough_fuel (λ y. y) max a (suc a / 2) (suc a / 2) (b / 2) (omega arith) (omega arith),
)

pub bit_and_halve : (a b : ℕ) → bit_and a b ≡ bit_and (a / 2) (b / 2) * 2 + min (a % 2) (b % 2)
bit_and_halve zero b = omega (arith, bit_and-bitwise 0 b, bit_and-bitwise 0 (b / 2))
bit_and_halve (suc a) b = omega (
  arith,
  bit_and-bitwise (suc a) b,
  bit_and-bitwise (suc a / 2) (b / 2),
  enough_fuel (λ y. 0) min a (suc a / 2) (suc a / 2) (b / 2) (omega arith) (omega arith),
)

-- The right operand 0, by strong induction as recursion on a bound.
bit_or-zero_below : (n a : ℕ) → a ≤ n → bit_or a 0 ≡ a
bit_or-zero_below n zero h = refl
bit_or-zero_below zero (suc a) h = absurd (omega arith)
bit_or-zero_below (suc n) (suc a) h =
    omega (arith, bit_or_halve (suc a) 0, bit_or-zero_below n (suc a / 2) (omega arith))

pub bit_or-zero : (a : ℕ) → bit_or a 0 ≡ a
bit_or-zero a = bit_or-zero_below a a (omega arith)

bit_and-zero_below : (n a : ℕ) → a ≤ n → bit_and a 0 ≡ 0
bit_and-zero_below n zero h = refl
bit_and-zero_below zero (suc a) h = absurd (omega arith)
bit_and-zero_below (suc n) (suc a) h =
    omega (arith, bit_and_halve (suc a) 0, bit_and-zero_below n (suc a / 2) (omega arith))

pub bit_and-zero : (a : ℕ) → bit_and a 0 ≡ 0
bit_and-zero a = bit_and-zero_below a a (omega arith)

zero-bit_or : (b : ℕ) → bit_or 0 b ≡ b
zero-bit_or b = bit_or-bitwise 0 b

double_shift : (q k : ℕ) → q * 2 ^ suc k ≡ q * 2 ^ k * 2
double_shift q k = omega (arith, ap (λ (t : ℕ). q * t) (pow-suc 2 k))

-- A low field below 2 ^ k and a high field shifted by k.
pub bit_or_low_high : (k lo hi : ℕ) → lo < 2 ^ k → bit_or lo (hi * 2 ^ k) ≡ lo + hi * 2 ^ k
bit_or_low_high zero zero hi h = omega (arith, zero-bit_or (hi * 2 ^ 0))
bit_or_low_high zero (suc lo) hi h = absurd (omega arith)
bit_or_low_high (suc k) lo hi h = ground (
  arith,
  bit_or_halve lo (hi * 2 ^ suc k),
  double_shift hi k,
  pow-suc 2 k,
  bit_or_low_high k (lo / 2) hi (omega (arith, pow-suc 2 k)),
)

pub bit_or_high_low : (k hi lo : ℕ) → lo < 2 ^ k → bit_or (hi * 2 ^ k) lo ≡ hi * 2 ^ k + lo
bit_or_high_low zero hi zero h = omega (arith, bit_or-zero (hi * 2 ^ 0))
bit_or_high_low zero hi (suc lo) h = absurd (omega arith)
bit_or_high_low (suc k) hi lo h = ground (
  arith,
  bit_or_halve (hi * 2 ^ suc k) lo,
  double_shift hi k,
  pow-suc 2 k,
  bit_or_high_low k hi (lo / 2) (omega (arith, pow-suc 2 k)),
)

pub bit_and_one : (a : ℕ) → bit_and a 1 ≡ a % 2
bit_and_one a = omega (arith, bit_and_halve a 1, bit_and-zero (a / 2))

pub bit_and_three : (a : ℕ) → bit_and a 3 ≡ a % 4
bit_and_three a = omega (arith, bit_and_halve a 3, bit_and_one (a / 2))

split_mod : (a p : ℕ) → a % (p * 2) ≡ a / 2 % p * 2 + a % 2
split_mod a p = omega (
  arith,
  mod-eq-sub-div-mul a (2 * p),
  div-div-eq-div-mul a 2 p,
  ap (λ (t : ℕ). t * (2 * p)) (div-div-eq-div-mul a 2 p),
  div-add-mod' (a / 2) p,
  ap (λ (t : ℕ). a % t) (mul_comm p 2),
)

-- The k low bits.
pub bit_and_mask : (k a : ℕ) → bit_and a (2 ^ k - 1) ≡ a % 2 ^ k
bit_and_mask zero a = omega (arith, bit_and-zero a)
bit_and_mask (suc k) a = ground (
  arith,
  pow-suc 2 k,
  one-le-pow k 2,
  bit_and_halve a (2 ^ suc k - 1),
  bit_and_mask k (a / 2),
  split_mod a (2 ^ k),
)
