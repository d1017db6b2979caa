-- ===== src/Base/Action.antt =====
-- Calls that change a state and return a value or throw. A throw keeps what was changed before it.
use mathlib.Core.Bool.{Bool, true, false}
use neoruntime_sdks.Base.Outcome.{Result, ok, err}

abbrev pub Action : Type 0 → Type 0 → Type 0 → Type 0
Action S E A = S → Result E A × S

module _ {S E A B : Type 0} where
  abbrev pub then_do : (A → Action S E B) → Result E A × S → Result E B × S
  then_do f (ok a, s) = f a s
  then_do f (err e, s) = (err e, s)

infixl 5 ◌>>=◌ ◌>>◌
abbrev pub ◌>>=◌ : {S E A B : Type 0} → Action S E A → (A → Action S E B) → Action S E B
(m >>= f) s = then_do f (m s)

abbrev pub ◌>>◌ : {S E B : Type 0} → Action S E (Unit {0}) → Action S E B → Action S E B
(m >> k) s = then_do (λ _. k) (m s)

module _ {S E : Type 0} where
  abbrev pub return : {A : Type 0} → A → Action S E A
  return a s = (ok a, s)

  abbrev pub throw : {A : Type 0} → E → Action S E A
  throw e s = (err e, s)

  abbrev pub modify : (S → S) → Action S E (Unit {0})
  modify f s = (ok tt, f s)

  abbrev pub gets : {A : Type 0} → (S → A) → Action S E A
  gets f s = (ok (f s), s)

  abbrev pub lift : {A : Type 0} → Result E A → Action S E A
  lift r s = (r, s)

  -- `if (test) throw e;`
  abbrev pub throws_if : Bool → E → Action S E (Unit {0})
  throws_if true e s = (err e, s)
  throws_if false e s = (ok tt, s)

  -- `if (test) m;`
  abbrev pub when : Bool → Action S E (Unit {0}) → Action S E (Unit {0})
  when true m s = m s
  when false m s = (ok tt, s)
