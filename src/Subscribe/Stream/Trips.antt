-- ===== src/Subscribe/Stream/Trips.antt =====
-- How a run of failures ends an InferenceStream, and what its next() does from then on.
use neoruntime_sdks.Base.{
  ℕ, ◌+◌, ◌^◌, ◌<◌, ◌≡◌, refl, List, [], ◌∷◌, ◌++◌, map, Bool, true, false, arith, length, leb, ap,
  ◌∙◌,
}
use neoruntime_sdks.Base.Double.{Double}
use neoruntime_sdks.Subscribe.Limiter.{ConsecutiveFailureLimiter, note_failure-count}
use neoruntime_sdks.Subscribe.Stream.{
  Response, Item, response, Next, Stream, next, next_items, ended, throws, consecutive_failures,
  failure_error, note_telemetry,
}
use neoruntime_sdks.Subscribe.Stream.Drain.{skip, next_items-failed, next-open}

abbrev pub AllFailed : {R : Type 0} → List (Response R) → Type 0
AllFailed [] = Unit {0}
AllFailed (r ∷ rs) = (r.success ≡ false) × AllFailed rs

module _ (double : Double) {R : Type 0} where
  -- The error of the limit, with the stream ended.
  abbrev Tripped : ℕ → Response R → Next R × Stream double R → Type 0
  Tripped m r out =
      (out.0 ≡ throws (consecutive_failures m r.frame_sequence r.message))
      × (out.1.ended_flag ≡ true)

  next_items-limit :
      (r : Response R) (rest : List (Item R)) (s : Stream double R)
      → r.success ≡ false
      → s.limiter.max < 2 ^ 32
      → s.limiter.count + 1 ≡ s.limiter.max
      → Tripped s.limiter.max r (next_items double (response r ∷ rest) s)
  unfolding next_items failure_error
  next_items-limit r rest s bad lt e =
      let reached : leb s.limiter.max (s.limiter.count + 1) ≡ true = ground arith in
      rw (bad, note_failure-count s.limiter (omega arith) (omega arith), reached, e) (refl, refl)

  next_items-trips :
      (bad : List (Response R)) (r : Response R) (rest : List (Item R)) (s : Stream double R)
      → AllFailed bad
      → r.success ≡ false
      → s.limiter.max < 2 ^ 32
      → s.limiter.count + length bad + 1 ≡ s.limiter.max
      → Tripped s.limiter.max r (next_items double (map response bad ++ (response r ∷ rest)) s)
  unfolding skip
  next_items-trips [] r rest s h bad lt e = next_items-limit r rest s bad lt (omega arith)
  next_items-trips (b ∷ bs) r rest s h bad lt e =
      let counted = note_failure-count s.limiter (omega arith) (omega arith) in
      let quiet : leb s.limiter.max (s.limiter.count + 1) ≡ false = ground arith in
      let counter : ConsecutiveFailureLimiter = record s.limiter { count = s.limiter.count + 1 } in
      let items = map response bs ++ (response r ∷ rest) in
      let with_limiter : ConsecutiveFailureLimiter → Stream double R =
        λ l. record s { limiter = l; telemetry = note_telemetry double b s.telemetry } in
      let step : next_items double (response b ∷ items) s
          ≡ next_items double items (with_limiter counter) =
        next_items-failed double b items s h.0
          (ap (λ (x : Bool × ConsecutiveFailureLimiter). x.0) counted ∙ quiet)
        ∙ ap (λ (x : Bool × ConsecutiveFailureLimiter). next_items double items (with_limiter x.1))
            counted in
      rw step (next_items-trips bs r rest (with_limiter counter) h.1 bad lt (omega arith))

  next-ended : (s : Stream double R) → s.ended_flag ≡ true → next double s ≡ (ended, s)
  unfolding next
  next-ended s e = rw e

  -- On a stream with the limit `m` above 0 whose queue starts with `m` failed responses in a row,
  -- next() throws the limit's error, with the count `m` and the last of those frames, and the stream
  -- has ended; the responses before the last are skipped.
  pub next_trips :
      (bad : List (Response R)) (r : Response R) (rest : List (Item R)) (s : Stream double R)
      → s.ended_flag ≡ false
      → s.queue.items ≡ map response bad ++ (response r ∷ rest)
      → AllFailed bad
      → r.success ≡ false
      → s.limiter.max < 2 ^ 32
      → s.limiter.count + length bad + 1 ≡ s.limiter.max
      → ((next double s).0 ≡ throws (consecutive_failures s.limiter.max r.frame_sequence r.message))
        × (next double (next double s).1 ≡ (ended, (next double s).1))
  next_trips bad r rest s o items h b lt e =
      let tripped = next_items-trips bad r rest s h b lt e in
      rw (next-open double s _ o items) (tripped.0, next-ended (next_items double _ s).1 tripped.1)
