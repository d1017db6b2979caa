-- ===== src/Base/Double.antt =====
-- `double`: the type and the operations that the code uses, as a parameter of what uses them. The
-- theorems hold for every choice of them, and so assume no law of floating-point arithmetic.
use neoruntime_sdks.Base.Tests.{ltb, leb, ◌==◌}
use Prim.Native.Nat.{ℕ, ◌+◌, ◌-◌, ◌*◌, ◌/◌, ◌^◌}
use neoruntime_sdks.Base.Int.{ℤ, pos_part}
use mathlib.Core.Bool.{Bool}

pub record Double : Type 1 where
  pub D : Type 0
  pub eq : D → D → Bool
  pub lt : D → D → Bool
  pub le : D → D → Bool
  pub add : D → D → D
  pub sub : D → D → D
  pub mul : D → D → D
  pub div : D → D → D
  pub of_ℤ : ℤ → D
  -- `decimal n k` is the literal n / 10 ^ k.
  pub decimal : ℕ → ℕ → D

-- Whole numbers in place of doubles, to run the model on; what is negative counts as 0.
abbrev pub whole : Double
whole = record {
  D = ℕ;
  eq = ◌==◌;
  lt = ltb;
  le = leb;
  add = ◌+◌;
  sub = ◌-◌;
  mul = ◌*◌;
  div = ◌/◌;
  of_ℤ = pos_part;
  decimal = λ n k. n / 10 ^ k;
}
