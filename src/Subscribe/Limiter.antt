-- ===== src/Subscribe/Limiter.antt =====
-- ConsecutiveFailureLimiter of detail/subscribe_health.hpp.
use neoruntime_sdks.Base.{
  ℕ, ◌+◌, ◌%◌, ◌^◌, ◌≤◌, ◌<◌, ◌≡◌, refl, List, [], ◌∷◌, Bool, true, false, arith, leb, ◌==◌,
  if◌then◌else◌, length,
}

pub record ConsecutiveFailureLimiter : Type 0 where
  pub max : ℕ
  pub count : ℕ

unfoldable pub fresh : ℕ → ConsecutiveFailureLimiter
fresh max_failures = record { max = max_failures; count = 0 }

-- `max_ != 0 && ++count_ >= max_`: with the limit disabled the counter stands still.
unfoldable pub note_failure : ConsecutiveFailureLimiter → Bool × ConsecutiveFailureLimiter
note_failure l =
    if l.max == 0
    then (false, l)
    else (leb l.max ((l.count + 1) % 2 ^ 32), record l { count = (l.count + 1) % 2 ^ 32 })

unfoldable pub note_success : ConsecutiveFailureLimiter → ConsecutiveFailureLimiter
note_success l = record l { count = 0 }

-- A history of frames, failed (`true`) or not, and what the last note_failure answered.
pub note : Bool → ConsecutiveFailureLimiter → Bool × ConsecutiveFailureLimiter
note true l = note_failure l
note false l = (false, note_success l)

pub notes : List Bool → ConsecutiveFailureLimiter → ConsecutiveFailureLimiter
notes [] l = l
notes (b ∷ bs) l = notes bs (note b l).1

-- How many frames have failed in a row at the end of a history, `n` before it.
abbrev pub trailing : ℕ → List Bool → ℕ
trailing n [] = n
trailing n (true ∷ bs) = trailing (n + 1) bs
trailing n (false ∷ bs) = trailing 0 bs

trailing-le : (n : ℕ) (bs : List Bool) → trailing n bs ≤ n + length bs
trailing-le n [] = omega arith
trailing-le n (true ∷ bs) = omega (arith, trailing-le (n + 1) bs)
trailing-le n (false ∷ bs) = omega (arith, trailing-le 0 bs)

pub note_failure-count :
    (l : ConsecutiveFailureLimiter)
    → 0 < l.max
    → l.count + 1 < 2 ^ 32
    → note_failure l ≡ (leb l.max (l.count + 1), record l { count = l.count + 1 })
unfolding note_failure
note_failure-count l m h = ground arith

notes-max : (bs : List Bool) (l : ConsecutiveFailureLimiter) → (notes bs l).max ≡ l.max
unfolding notes note note_failure note_success
notes-max [] l = refl
notes-max (true ∷ bs) l = ground (arith, notes-max bs (note_failure l).1)
notes-max (false ∷ bs) l = notes-max bs (record l { count = 0 })

notes-count :
    (bs : List Bool) (l : ConsecutiveFailureLimiter)
    → 0 < l.max
    → l.count + length bs < 2 ^ 32
    → notes bs l ≡ record l { count = trailing l.count bs }
unfolding notes note note_success
notes-count [] l m h = refl
notes-count (true ∷ bs) l m h =
    rw (note_failure-count l m (omega arith))
      (notes-count bs (record l { count = l.count + 1 }) m (omega arith))
notes-count (false ∷ bs) l m h = notes-count bs (record l { count = 0 }) m (omega arith)

-- With a limit above 0, a failed frame trips it exactly if it and the frames before it make up a run
-- of at least `max` failures, whatever came before the run.
pub note_failure_trips :
    (bs : List Bool) (max_failures : ℕ)
    → 0 < max_failures
    → length bs + 1 < 2 ^ 32
    → (note_failure (notes bs (fresh max_failures))).0 ≡ leb max_failures (trailing 0 bs + 1)
unfolding fresh
note_failure_trips bs m h k = rw (
  notes-count bs (fresh m) h (omega arith),
  note_failure-count (record { max = m; count = trailing 0 bs }) h
      (omega (arith, trailing-le 0 bs)),
)

-- With the limit 0 no history trips it.
pub note_failure_disabled : (bs : List Bool) → (note_failure (notes bs (fresh 0))).0 ≡ false
unfolding note_failure fresh
note_failure_disabled bs = ground (arith, notes-max bs (fresh 0))
