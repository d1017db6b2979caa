-- ===== src/Subscribe/Queue.antt =====
-- BoundedDropOldestQueue<T> of detail/subscribe_health.hpp.
pub mod Newest
use neoruntime_sdks.Base.{
  ℕ, zero, suc, ◌+◌, ◌-◌, ◌≤◌, ◌<◌, ◌≡◌, ◌≢◌, refl, ap, ◌∙◌, sym, List, [], ◌∷◌, ◌++◌, Option, none,
  some, Bool, true, false, not, ◌&&◌, arith, leb, ◌==◌, if◌then◌else◌, length, length-append, drop,
  append-nil, append_assoc, ◌⊎◌, inl, inr,
}

pub record BoundedDropOldestQueue (T : Type 0) : Type 0 where
  pub capacity : ℕ
  pub items : List T
  pub dropped : ℕ

module _ {T : Type 0} where
  -- `std::deque::pop_front` on a queue that is not empty.
  abbrev pub pop_front : List T → List T
  pop_front [] = []
  pop_front (x ∷ xs) = xs

  -- Capacity 0 means unbounded.
  unfoldable pub offer : T → BoundedDropOldestQueue T → BoundedDropOldestQueue T
  offer item q =
      if not (q.capacity == 0) && leb q.capacity (length q.items)
      then record q { items = pop_front q.items ++ (item ∷ []); dropped = q.dropped + 1 }
      else record q { items = q.items ++ (item ∷ []) }

  -- `none` is a consumer that waits: take returns only once the queue holds an item.
  unfoldable pub take : BoundedDropOldestQueue T → Option (T × BoundedDropOldestQueue T)
  take q = elim q.items [ [] ↦ none | x ∷ xs ↦ some (x, record q { items = xs }) ]

unfoldable pub empty : (T : Type 0) → ℕ → BoundedDropOldestQueue T
empty T capacity = record { capacity = capacity; items = []; dropped = 0 }
