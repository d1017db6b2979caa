-- ===== src/Base/Bits.antt =====
-- `bit_or` joins fields that do not overlap: there it is a sum.
use Prim.Native.Nat.{
  ℕ, zero, suc, ◌+◌, ◌*◌, ◌/◌, ◌%◌, ◌^◌, ◌≤◌, ◌<◌, max, bit_or, digits, bit_or-bitwise,
}
use mathlib.Core.Path.{◌≡◌, refl, ap}
use native.Mathlib.Omega.{arith}
use native.Mathlib.Nat.{pow-succ'}

abbrev or_digits : ℕ → ℕ → ℕ → ℕ
or_digits n a b = digits (λ b. b) max n a b

or_digits_fuel : (n m a b : ℕ) → a ≤ n → a ≤ m → or_digits n a b ≡ or_digits m a b
or_digits_fuel zero zero a b p q = refl
or_digits_fuel zero (suc m) zero b p q = refl
or_digits_fuel zero (suc m) (suc a) b p q = absurd (omega arith)
or_digits_fuel (suc n) zero zero b p q = refl
or_digits_fuel (suc n) zero (suc a) b p q = absurd (omega arith)
or_digits_fuel (suc n) (suc m) zero b p q = refl
or_digits_fuel (suc n) (suc m) (suc a) b p q =
    omega (arith, or_digits_fuel n m (suc a / 2) (b / 2) (omega arith) (omega arith))

pub zero-bit_or : (b : ℕ) → bit_or 0 b ≡ b
zero-bit_or b = bit_or-bitwise 0 b

pub bit_or_step : (a b : ℕ) → bit_or a b ≡ bit_or (a / 2) (b / 2) * 2 + max (a % 2) (b % 2)
bit_or_step zero b = omega (arith, zero-bit_or b, zero-bit_or (b / 2))
bit_or_step (suc a) b = omega (
  arith,
  bit_or-bitwise (suc a) b,
  bit_or-bitwise (suc a / 2) (b / 2),
  or_digits_fuel a (suc a / 2) (suc a / 2) (b / 2) (omega arith) (omega arith),
)

bit_or-zero_fuel : (n a : ℕ) → a ≤ n → bit_or a 0 ≡ a
bit_or-zero_fuel n zero h = refl
bit_or-zero_fuel zero (suc a) h = absurd (omega arith)
bit_or-zero_fuel (suc n) (suc a) h =
    omega (arith, bit_or_step (suc a) 0, bit_or-zero_fuel n (suc a / 2) (omega arith))

pub bit_or-zero : (a : ℕ) → bit_or a 0 ≡ a
bit_or-zero a = bit_or-zero_fuel a a (omega arith)

double_half : (q : ℕ) → 2 * q / 2 ≡ q
double_half q = omega arith

shift_suc : (k b : ℕ) → b * 2 ^ suc k ≡ 2 * (b * 2 ^ k)
shift_suc k b = omega (arith, ap (λ (t : ℕ). b * t) (pow-succ' 2 k))

-- A field below bit `k` beside one above it, in either order.
pub bit_or_low_high : (k a b : ℕ) → a < 2 ^ k → bit_or a (b * 2 ^ k) ≡ a + b * 2 ^ k
bit_or_low_high zero zero b h = omega (arith, zero-bit_or (b * 1))
bit_or_low_high zero (suc a) b h = absurd (omega arith)
bit_or_low_high (suc k) a b h = rw (shift_suc k b) (
    omega (
      arith,
      bit_or_step a (2 * (b * 2 ^ k)),
      ap (bit_or (a / 2)) (double_half (b * 2 ^ k)),
      bit_or_low_high k (a / 2) b (omega (arith, pow-succ' 2 k)),
    ))

pub bit_or_high_low : (k a b : ℕ) → a < 2 ^ k → bit_or (b * 2 ^ k) a ≡ b * 2 ^ k + a
bit_or_high_low zero zero b h = omega (arith, bit_or-zero (b * 1))
bit_or_high_low zero (suc a) b h = absurd (omega arith)
bit_or_high_low (suc k) a b h = rw (shift_suc k b) (
    omega (
      arith,
      bit_or_step (2 * (b * 2 ^ k)) a,
      ap (λ (t : ℕ). bit_or t (a / 2)) (double_half (b * 2 ^ k)),
      bit_or_high_low k (a / 2) b (omega (arith, pow-succ' 2 k)),
    ))
