-- ===== src/Base/Int.antt =====
-- Signed integers over the native numbers, under the library's names, with C++'s parity test,
-- halving and rounding down to an even number.
use Prim.Native.Nat.{ℕ, suc, ◌+◌, ◌-◌, ◌*◌, ◌/◌, ◌%◌, ◌^◌, ◌≤◌, ◌<◌}
use mathlib.Core.Path.{◌≡◌, refl}
use mathlib.Core.Bool.{Bool, false}
use native.Mathlib.Omega.{arith}
use neoruntime_sdks.Base.Tests.{ltb, leb, ◌==◌, if◌then◌else◌}

-- `negsuc n` is -(n + 1).
pub data ℤ : Type 0 where
  pos : ℕ → ℤ
  negsuc : ℕ → ℤ

abbrev pub pos_part : ℤ → ℕ
pos_part (pos n) = n
pos_part (negsuc n) = 0

abbrev pub neg_part : ℤ → ℕ
neg_part (pos n) = 0
neg_part (negsuc n) = suc n

-- a - b, as an integer.
abbrev pub sub_ℕ : ℕ → ℕ → ℤ
sub_ℕ a b = if leb b a then pos (a - b) else negsuc (b - a - 1)

infixl 65 ◌+ℤ◌ ◌-ℤ◌
infix 50 ◌≤ℤ◌
unfoldable pub ◌+ℤ◌ : ℤ → ℤ → ℤ
a +ℤ b = sub_ℕ (pos_part a + pos_part b) (neg_part a + neg_part b)

unfoldable pub ◌-ℤ◌ : ℤ → ℤ → ℤ
a -ℤ b = sub_ℕ (pos_part a + neg_part b) (neg_part a + pos_part b)

abbrev pub ◌≤ℤ◌ : ℤ → ℤ → Type 0
a ≤ℤ b = pos_part a + neg_part b ≤ pos_part b + neg_part a

abbrev pub ltb_ℤ : ℤ → ℤ → Bool
ltb_ℤ a b = ltb (pos_part a + neg_part b) (pos_part b + neg_part a)

abbrev pub leb_ℤ : ℤ → ℤ → Bool
leb_ℤ a b = leb (pos_part a + neg_part b) (pos_part b + neg_part a)

-- `a & 1` on two's complement: the parity of the magnitude.
abbrev pub is_odd_ℤ : ℤ → Bool
is_odd_ℤ a = (pos_part a + neg_part a) % 2 == 1

-- `a / k` and `k * a` for a positive constant `k`: C++ divides towards zero.
abbrev pub quot_ℤ : ℤ → ℕ → ℤ
quot_ℤ a k = sub_ℕ (pos_part a / k) (neg_part a / k)

abbrev pub scale_ℤ : ℕ → ℤ → ℤ
scale_ℤ k a = sub_ℕ (k * pos_part a) (k * neg_part a)

-- `a & ~1`: down to the even number below.
abbrev pub clear_low_bit : ℤ → ℤ
clear_low_bit a = if is_odd_ℤ a then a -ℤ pos 1 else a

-- The conversion of an `int` to `uint32_t`.
abbrev pub to_u32 : ℤ → ℕ
to_u32 (pos n) = n % 2 ^ 32
to_u32 (negsuc n) = 2 ^ 32 - 1 - n % 2 ^ 32

-- The conversion of a `uint32_t` to `int`, on two's complement.
abbrev pub of_u32 : ℕ → ℤ
of_u32 n = if ltb n (2 ^ 31) then pos n else negsuc (2 ^ 32 - 1 - n)

-- The sum of two ints, which wraps around on two's complement.
abbrev pub add_i32 : ℤ → ℤ → ℤ
add_i32 a b = of_u32 (to_u32 (a +ℤ b))

pub +ℤ_parts :
    (a b : ℤ)
    → pos_part (a +ℤ b) + neg_part a + neg_part b ≡ neg_part (a +ℤ b) + pos_part a + pos_part b
unfolding ◌+ℤ◌
+ℤ_parts a b = ground arith

pub -ℤ_parts :
    (a b : ℤ)
    → pos_part (a -ℤ b) + neg_part a + pos_part b ≡ neg_part (a -ℤ b) + pos_part a + neg_part b
unfolding ◌-ℤ◌
-ℤ_parts a b = ground arith

pub eq_of_parts : (a b : ℤ) → pos_part a + neg_part b ≡ pos_part b + neg_part a → a ≡ b
eq_of_parts a b h = ground arith

pub ruleset int_laws = (arith, +ℤ_parts, -ℤ_parts, eq_of_parts)

of_u32-to_u32 : (a : ℤ) → pos_part a < 2 ^ 31 → neg_part a ≤ 2 ^ 31 → of_u32 (to_u32 a) ≡ a
of_u32-to_u32 (pos n) p q = let e : n % 2 ^ 32 ≡ n = omega arith in rw e (ground arith)
of_u32-to_u32 (negsuc n) p q =
    let e : n % 2 ^ 32 ≡ n = omega arith in
    let t : 2 ^ 32 - 1 - (2 ^ 32 - 1 - n) ≡ n = omega arith in
    let big : ltb (2 ^ 32 - 1 - n) (2 ^ 31) ≡ false = ground arith in rw (e, big, t) refl

sub_ℕ-parts : (m n : ℕ) → (pos_part (sub_ℕ m n) ≤ m) × (neg_part (sub_ℕ m n) ≤ n)
sub_ℕ-parts m n = (ground arith, ground arith)

-- A number whose sum with another such number fits in an int.
abbrev pub IsNear : ℤ → Type 0
IsNear a = (pos_part a < 2 ^ 30) × (neg_part a ≤ 2 ^ 30)

pub add_i32-IsNear : (a b : ℤ) → IsNear a → IsNear b → add_i32 a b ≡ a +ℤ b
unfolding ◌+ℤ◌
add_i32-IsNear a b (pa, na) (pb, nb) =
    let s = sub_ℕ-parts (pos_part a + pos_part b) (neg_part a + neg_part b) in
    of_u32-to_u32 (a +ℤ b) (omega (arith, s.0)) (omega (arith, s.1))
