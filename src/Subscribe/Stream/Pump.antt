-- ===== src/Subscribe/Stream/Pump.antt =====
-- The pump and the consumer of a subscription together: what reaches a consumer that starts late.
use Prim.Native.String.{String}
use native.Mathlib.Decide.{dec_le}
use neoruntime_sdks.Base.{
  ℕ, zero, suc, ◌+◌, ◌-◌, ◌^◌, ◌≤◌, ◌<◌, ◌≡◌, inl, inr, refl, List, [], ◌∷◌, ◌++◌, map, Option,
  none, some, arith, length, length-append, drop, drop-snoc, ap, sym, ◌∙◌, Bool-cases, append_assoc,
  length-drop, min,
}
use neoruntime_sdks.Base.Double.{Double}
use neoruntime_sdks.Subscribe.Queue.{BoundedDropOldestQueue, offer, empty, pop_front}
use neoruntime_sdks.Subscribe.Queue.Newest.{pop_front-drop, offer-room, offer-full}
use neoruntime_sdks.Subscribe.Limiter.{ConsecutiveFailureLimiter, fresh}
use neoruntime_sdks.Subscribe.Stream.{Response, Item, response, Stream, pump, subscribe}
use neoruntime_sdks.Subscribe.Stream.Drain.{
  successes, RunsBelow, none_left, delivered, skipped, terminal, outcome, drain, drain_delivers,
}

-- What a queue of capacity `c` keeps of `xs`: the last `c`, or all if `c` is 0.
abbrev pub kept : {T : Type 0} → ℕ → List T → List T
kept zero xs = xs
kept (suc c) xs = drop (length xs - suc c) xs

-- A queue that holds what it keeps of all that was offered, with no take in between.
abbrev Holds : {T : Type 0} → ℕ → List T → BoundedDropOldestQueue T → Type 0
Holds c xs q = (q.capacity ≡ c) × (q.items ≡ kept c xs)

module _ {T : Type 0} where
  length-kept : (c : ℕ) (xs : List T) → length (kept (suc c) xs) ≡ min (length xs) (suc c)
  length-kept c xs = omega (arith, length-drop (length xs - suc c) xs)

  kept-all : (c : ℕ) (xs : List T) → length xs ≤ suc c → kept (suc c) xs ≡ xs
  kept-all c xs h = let e : length xs - suc c ≡ 0 = omega arith in rw e

  kept-snoc :
      (c : ℕ) (xs : List T) (x : T)
      → suc c ≤ length xs
      → kept (suc c) (xs ++ (x ∷ [])) ≡ pop_front (kept (suc c) xs) ++ (x ∷ [])
  kept-snoc c xs x h =
      let e : length (xs ++ (x ∷ [])) - suc c ≡ suc (length xs - suc c) =
        omega (arith, length-append xs (x ∷ [])) in
      rw (
        e,
        drop-snoc (suc (length xs - suc c)) xs x (omega arith),
        pop_front-drop (length xs - suc c) xs,
      )

  offer-Holds :
      (c : ℕ) (xs : List T) (x : T) (q : BoundedDropOldestQueue T)
      → Holds c xs q
      → Holds c (xs ++ (x ∷ [])) (offer x q)
  offer-Holds zero xs x q (capacity, items) =
      rw (offer-room x q (inl capacity)) (capacity, rw items)
  offer-Holds (suc c) xs x q (capacity, items) = elim (dec_le (suc c) (length xs)) [
    | yes full ↦
        rw (offer-full x q (omega arith) (omega (arith, ap length items, length-kept c xs)))
          (capacity, rw (items) (sym (kept-snoc c xs x full)))
    | no room ↦ rw (offer-room x q (inr (omega (arith, ap length items, length-kept c xs)))) (
      capacity,
      rw (items, kept-all c xs (omega arith))
          (sym (kept-all c (xs ++ (x ∷ [])) (omega (arith, length-append xs (x ∷ []))))),
    )
  ]

module _ (double : Double) {R : Type 0} where
  pump-Holds :
      (c : ℕ) (rs : List (Response R)) (status : Option String) (before : List (Item R))
      (s : Stream double R)
      → Holds c before s.queue
      → Holds c
          (before ++ (map response rs ++ (terminal status ∷ [])))
          (pump double rs status s).queue
  unfolding pump
  pump-Holds c [] none before s h = offer-Holds c before (terminal none) s.queue h
  pump-Holds c [] (some e) before s h = offer-Holds c before (terminal (some e)) s.queue h
  pump-Holds c (r ∷ rs) status before s h =
      rw (← append_assoc before (response r ∷ []) (map response rs ++ (terminal status ∷ []))) (
        pump-Holds c rs status (before ++ (response r ∷ []))
          (record s { queue = offer (response r) s.queue })
          (offer-Holds c before (response r) s.queue h))

  pump-rest :
      (rs : List (Response R)) (status : Option String) (s : Stream double R)
      → ((pump double rs status s).limiter ≡ s.limiter)
        × ((pump double rs status s).ended_flag ≡ s.ended_flag)
  unfolding pump
  pump-rest [] none s = (refl, refl)
  pump-rest [] (some e) s = (refl, refl)
  pump-rest (r ∷ rs) status s =
      pump-rest rs status (record s { queue = offer (response r) s.queue })

  RunsBelow-zero : (n : ℕ) (rs : List (Response R)) → RunsBelow 0 n rs
  RunsBelow-zero n [] = none_left
  RunsBelow-zero n (r ∷ rs) = elim (Bool-cases r.success) [
    | inl good ↦ delivered good (RunsBelow-zero 0 rs)
    | inr bad ↦ skipped bad (inl refl) (RunsBelow-zero (n + 1) rs)
  ]

  drop-map :
      (n : ℕ) (rs : List (Response R)) (t : Item R)
      → n ≤ length rs
      → drop n (map response rs ++ (t ∷ [])) ≡ map response (drop n rs) ++ (t ∷ [])
  drop-map zero rs t h = refl
  drop-map (suc n) [] t h = absurd (omega arith)
  drop-map (suc n) (r ∷ rs) t h = drop-map n rs t (omega arith)

  length-map : (rs : List (Response R)) → length (map response rs) ≡ length rs
  length-map [] = refl
  length-map (r ∷ rs) = ap suc (length-map rs)

  kept-items :
      (c : ℕ) (rs : List (Response R)) (t : Item R)
      → kept (suc c) (map response rs ++ (t ∷ []))
        ≡ map response (drop (length rs - c) rs) ++ (t ∷ [])
  kept-items c rs t =
      let e : length (map response rs ++ (t ∷ [])) - suc c ≡ length rs - c =
        omega (arith, length-append (map response rs) (t ∷ []), length-map rs) in
      rw (e, drop-map (length rs - c) rs t (omega arith))

  -- With a queue of `suc c` items, a consumer that starts after the service has sent `rs` and ended
  -- gets the successes among the last `c` responses, if no run of failures among them reaches the
  -- limit `m` (0 for none), and then the terminal item: backpressure drops old results, never the end.
  pub drain-pump :
      (m c : ℕ) (rs : List (Response R)) (status : Option String)
      → m < 2 ^ 32
      → RunsBelow m 0 (drop (length rs - c) rs)
      → drain double
          (length rs + 1)
          (pump double rs status (subscribe double R (some m) (some (suc c))))
        ≡ (successes (drop (length rs - c) rs), outcome status)
  unfolding subscribe fresh empty
  drain-pump m c rs status h below =
      let s = subscribe double R (some m) (some (suc c)) in
      let (limiter, open_) = pump-rest rs status s in
      let (_, items) =
        pump-Holds (suc c) rs status [] s (refl, sym (kept-all c [] (omega arith))) in
      drain_delivers double m (length rs + 1) status [] (drop (length rs - c) rs)
        (pump double rs status s) h (omega (arith, length-drop (length rs - c) rs)) below open_
        (
          ap (λ (l : ConsecutiveFailureLimiter). l.max) limiter,
          inr (ap (λ (l : ConsecutiveFailureLimiter). l.count) limiter),
        )
        (items ∙ kept-items c rs (terminal status))
