-- ===== src/Subscribe/Queue/Newest.antt =====
-- The queue in a history of offers and takes.
use neoruntime_sdks.Base.{
  ℕ, zero, suc, ◌+◌, ◌-◌, ◌≤◌, ◌<◌, ◌≡◌, ◌≢◌, refl, ap, ◌∙◌, sym, List, [], ◌∷◌, ◌++◌, some, arith,
  length, length-append, drop, ◌⊎◌, inl, inr, length-drop, drop-snoc, drop-suc-of_cons,
}
use neoruntime_sdks.Subscribe.Queue.{BoundedDropOldestQueue, offer, take, pop_front, empty}

-- A queue with what its history has offered and how many items it has handed out.
pub record History (T : Type 0) : Type 0 where
  pub queue : BoundedDropOldestQueue T
  pub offered : List T
  pub taken : ℕ

abbrev pub after_offer : {T : Type 0} → T → History T → History T
after_offer x s = record {
  queue = offer x s.queue;
  offered = s.offered ++ (x ∷ []);
  taken = s.taken;
}

-- One operation under the lock. A take that finds nothing waits, and is no step.
pub data Step {T : Type 0} (s : History T) : History T → Type 0 where
  offers : (x : T) → Step s (after_offer x s)
  takes :
      (x : T) (q : BoundedDropOldestQueue T)
      → take s.queue ≡ some (x, q)
      → Step s (record { queue = q; offered = s.offered; taken = s.taken + 1 })

pub data Reach {T : Type 0} (s : History T) : History T → Type 0 where
  here : Reach s s
  next : {t u : History T} → Reach s t → Step t u → Reach s u

abbrev pub start : (T : Type 0) → ℕ → History T
start T capacity = record { queue = empty T capacity; offered = []; taken = 0 }

-- What the queue holds is what was offered, less what was taken or dropped from the front; it keeps
-- within its capacity, and drops nothing if it has none.
pub record IsNewest {T : Type 0} (s : History T) : Type 0 where
  pub counted : s.taken + s.queue.dropped ≤ length s.offered
  pub newest : s.queue.items ≡ drop (s.taken + s.queue.dropped) s.offered
  pub bounded : (s.queue.capacity ≡ 0) ⊎ (length s.queue.items ≤ s.queue.capacity)
  pub unbounded : (s.queue.capacity ≢ 0) ⊎ (s.queue.dropped ≡ 0)

module _ {T : Type 0} where
  pub pop_front-drop : (n : ℕ) (xs : List T) → pop_front (drop n xs) ≡ drop (suc n) xs
  pop_front-drop zero [] = refl
  pop_front-drop zero (x ∷ xs) = refl
  pop_front-drop (suc n) [] = refl
  pop_front-drop (suc n) (x ∷ xs) = pop_front-drop n xs

  length-pop_front : (xs : List T) → length (pop_front xs) ≡ length xs - 1
  length-pop_front [] = omega arith
  length-pop_front (x ∷ xs) = omega arith

  pub offer-room :
      (x : T) (q : BoundedDropOldestQueue T)
      → (q.capacity ≡ 0) ⊎ (length q.items < q.capacity)
      → offer x q ≡ record q { items = q.items ++ (x ∷ []) }
  unfolding offer
  offer-room x q h = ground arith

  pub offer-full :
      (x : T) (q : BoundedDropOldestQueue T)
      → q.capacity ≢ 0
      → q.capacity ≤ length q.items
      → offer x q ≡ record q { items = pop_front q.items ++ (x ∷ []); dropped = q.dropped + 1 }
  unfolding offer
  offer-full x q h k = ground arith

  room-or-full :
      (q : BoundedDropOldestQueue T)
      → ((q.capacity ≡ 0) ⊎ (length q.items < q.capacity))
        ⊎ ((q.capacity ≢ 0) × (q.capacity ≤ length q.items))
  room-or-full q = grind arith

  take-some :
      (q r : BoundedDropOldestQueue T) (x : T)
      → take q ≡ some (x, r)
      → (q.items ≡ x ∷ r.items) × (r.capacity ≡ q.capacity) × (r.dropped ≡ q.dropped)
  unfolding take
  take-some q r x e = ground arith

  module _ (s : History T) (v : IsNewest s) where
    open s use {queue, offered, taken}

    length-items : length queue.items ≡ length offered - (taken + queue.dropped)
    length-items = ap length v.newest ∙ length-drop (taken + queue.dropped) offered

    shifted :
        (x : T)
        → taken + queue.dropped < length offered
        → pop_front queue.items ++ (x ∷ [])
          ≡ drop (taken + (queue.dropped + 1)) (offered ++ (x ∷ []))
    shifted x h =
        let e : taken + (queue.dropped + 1) ≡ suc (taken + queue.dropped) = omega arith in
        rw (
          e,
          drop-snoc (suc (taken + queue.dropped)) offered x h,
          v.newest,
          pop_front-drop (taken + queue.dropped) offered,
        )

    offer-IsNewest : (x : T) → IsNewest (after_offer x s)
    offer-IsNewest x = elim (room-or-full queue) [
      | inl room ↦ rw (offer-room x queue room) (record {
        counted = omega (arith, length-append offered (x ∷ []), v.counted);
        newest = rw (v.newest) (sym (drop-snoc (taken + queue.dropped) offered x v.counted));
        bounded = ground (arith, length-append queue.items (x ∷ []));
        unbounded = v.unbounded;
      })
      | inr (bounded, full) ↦ rw (offer-full x queue bounded full) (record {
        counted = omega (arith, length-append offered (x ∷ []), v.counted, length-items);
        newest = shifted x (omega (arith, length-items));
        bounded = ground (
          arith,
          length-append (pop_front queue.items) (x ∷ []),
          length-pop_front queue.items,
          v.bounded,
        );
        unbounded = inl bounded;
      })
    ]

    take-IsNewest :
        (x : T) (q : BoundedDropOldestQueue T)
        → take queue ≡ some (x, q)
        → IsNewest (record { queue = q; offered = offered; taken = taken + 1 })
    take-IsNewest x q e =
        let (items, capacity, dropped) = take-some queue q x e in
        let held : length queue.items ≡ suc (length q.items) = ap length items in
        let n : taken + 1 + q.dropped ≡ suc (taken + queue.dropped) = omega arith in
        record {
          counted = omega (arith, length-items);
          newest = rw n (
              sym (
                drop-suc-of_cons (taken + queue.dropped) offered q.items x (sym v.newest ∙ items)));
          bounded = ground (arith, v.bounded);
          unbounded = ground (arith, v.unbounded);
        }

  Step-IsNewest : {s t : History T} → Step s t → IsNewest s → IsNewest t
  Step-IsNewest {s} (offers x) v = offer-IsNewest s v x
  Step-IsNewest {s} (takes x q e) v = take-IsNewest s v x q e

  start-IsNewest : (capacity : ℕ) → IsNewest (start T capacity)
  unfolding empty
  start-IsNewest capacity = record {
    counted = omega arith;
    newest = refl;
    bounded = inr (omega arith);
    unbounded = inr refl;
  }

  -- After any interleaving of offers and takes on a new queue, the queue holds what was offered less
  -- what was taken or dropped, in order and up to the newest; it never exceeds a capacity that is
  -- not 0, and with capacity 0 nothing is dropped.
  pub Reach-IsNewest : (capacity : ℕ) {t : History T} → Reach (start T capacity) t → IsNewest t
  Reach-IsNewest capacity here = start-IsNewest capacity
  Reach-IsNewest capacity (next r st) = Step-IsNewest st (Reach-IsNewest capacity r)
