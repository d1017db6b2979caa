-- ===== src/Subscribe/Stream/Drain.antt =====
-- What a consumer gets that calls InferenceStream::next until it returns no result.
use Prim.Native.String.{String}
use neoruntime_sdks.Base.{
  ℕ, zero, suc, ◌+◌, ◌^◌, ◌<◌, ◌≡◌, ◌⊎◌, inr, refl, List, [], ◌∷◌, ◌++◌, map, true, false,
  if◌then◌else◌, Option, none, some, arith, length, ap, sym, ◌∙◌,
}
use neoruntime_sdks.Base.Double.{Double}
use neoruntime_sdks.Subscribe.Limiter.{ConsecutiveFailureLimiter, note_failure, note_success}
use neoruntime_sdks.Subscribe.Stream.{
  Response, Item, response, error, end, stream_error, Next, waits, ended, throws, returns, Stream,
  next, next_items, note_telemetry,
}

-- The results of the responses that succeeded.
abbrev pub successes : {R : Type 0} → List (Response R) → List (ℕ × R)
successes [] = []
successes (r ∷ rs) =
    let rest = successes rs in if r.success then (r.frame_sequence, r.result) ∷ rest else rest

-- Within `rs`, after `n` failures in a row, no run of failures reaches the limit `m`, if there is one.
pub data RunsBelow {R : Type 0} (m : ℕ) : ℕ → List (Response R) → Type 0 where
  none_left : {n : ℕ} → RunsBelow m n []
  delivered :
      {n : ℕ} {r : Response R} {rs : List (Response R)}
      → r.success ≡ true
      → RunsBelow m 0 rs
      → RunsBelow m n (r ∷ rs)
  skipped :
      {n : ℕ} {r : Response R} {rs : List (Response R)}
      → r.success ≡ false
      → (m ≡ 0) ⊎ (n + 1 < m)
      → RunsBelow m (n + 1) rs
      → RunsBelow m n (r ∷ rs)

-- The item that a stream ends with, and what next() makes of it.
abbrev pub terminal : {R : Type 0} → Option String → Item R
terminal none = end
terminal (some e) = error e

abbrev pub outcome : {R : Type 0} → Option String → Next R
outcome none = ended
outcome (some e) = throws (stream_error e)

-- A new limiter is below any limit; with the limit 0 its counter plays no part.
abbrev pub Counts : ℕ → ℕ → ConsecutiveFailureLimiter → Type 0
Counts m n l = (l.max ≡ m) × ((m ≡ 0) ⊎ (l.count ≡ n))

note_failure-below :
    (m n : ℕ) (l : ConsecutiveFailureLimiter)
    → Counts m n l
    → m < 2 ^ 32
    → (m ≡ 0) ⊎ (n + 1 < m)
    → ((note_failure l).0 ≡ false) × Counts m (n + 1) (note_failure l).1
unfolding note_failure
note_failure-below m n l c h b = ground arith

gather : {R : Type 0} → ℕ × R → List (ℕ × R) × Next R → List (ℕ × R) × Next R
gather x (xs, o) = (x ∷ xs, o)

module _ (double : Double) {R : Type 0} where
  collect :
      (Stream double R → List (ℕ × R) × Next R) → Next R × Stream double R → List (ℕ × R) × Next R
  unfolding gather
  collect k (returns n x, s) = gather (n, x) (k s)
  collect k (o, s) = ([], o)

  -- Calls of next() until one returns no result: the results, and what the last call did.
  pub drain : ℕ → Stream double R → List (ℕ × R) × Next R
  unfolding collect
  drain zero s = ([], waits)
  drain (suc f) s = collect (drain f) (next double s)

  abbrev with_items : List (Item R) → Stream double R → Stream double R
  with_items items s = record s { queue = record s.queue { items = items } }

  -- The loop overwrites the queue's items, and does not read them.
  next_items-with_items :
      (items old : List (Item R)) (s : Stream double R)
      → next_items double items (with_items old s) ≡ next_items double items s
  unfolding next_items
  next_items-with_items [] old s = refl
  next_items-with_items (end ∷ items) old s = refl
  next_items-with_items (error e ∷ items) old s = refl
  next_items-with_items (response r ∷ items) old s = rw (
      next_items-with_items items old (record s {
        limiter = (note_failure s.limiter).1;
        telemetry = note_telemetry double r s.telemetry;
      }))

  -- A failed frame below the limit leaves no trace but the telemetry and the counter.
  unfoldable pub skip : Response R → Stream double R → Stream double R
  skip r s = record s {
    limiter = (note_failure s.limiter).1;
    telemetry = note_telemetry double r s.telemetry;
  }

  pub next_items-failed :
      (r : Response R) (items : List (Item R)) (s : Stream double R)
      → r.success ≡ false
      → (note_failure s.limiter).0 ≡ false
      → next_items double (response r ∷ items) s ≡ next_items double items (skip r s)
  unfolding next_items skip
  next_items-failed r items s bad low = rw (bad, low)

  delivered_state : Response R → List (Item R) → Stream double R → Stream double R
  delivered_state r items s = record s {
    queue = record s.queue { items = items };
    limiter = note_success s.limiter;
    telemetry = note_telemetry double r s.telemetry;
  }

  next_items-ok :
      (r : Response R) (items : List (Item R)) (s : Stream double R)
      → r.success ≡ true
      → next_items double (response r ∷ items) s
        ≡ (returns r.frame_sequence r.result, delivered_state r items s)
  unfolding next_items delivered_state
  next_items-ok r items s good = rw good

  pub next-open :
      (s : Stream double R) (items : List (Item R))
      → s.ended_flag ≡ false
      → s.queue.items ≡ items
      → next double s ≡ next_items double items s
  unfolding next
  next-open s items open_ e = rw (open_, e)

  next_items-terminal :
      (status : Option String) (rest : List (Item R)) (s : Stream double R)
      → (next_items double (terminal status ∷ rest) s).0 ≡ outcome status
  unfolding next_items
  next_items-terminal none rest s = refl
  next_items-terminal (some e) rest s = refl

  drain-returns :
      (f n : ℕ) (x : R) (s t : Stream double R)
      → next double s ≡ (returns n x, t)
      → drain (suc f) s ≡ gather (n, x) (drain f t)
  unfolding drain
  drain-returns f n x s t e = ap (collect (drain f)) e

  collect-outcome :
      (k : Stream double R → List (ℕ × R) × Next R) (status : Option String) (s : Stream double R)
      → collect k (outcome status, s) ≡ ([], outcome status)
  unfolding collect
  collect-outcome k none s = refl
  collect-outcome k (some e) s = refl

  drain-outcome :
      (f : ℕ) (status : Option String) (s : Stream double R)
      → (next double s).0 ≡ outcome status
      → drain (suc f) s ≡ ([], outcome status)
  unfolding drain
  drain-outcome f status s e =
      ap (λ (o : Next R). collect (drain f) (o, (next double s).1)) e
      ∙ collect-outcome (drain f) status (next double s).1

  drain-same :
      (f : ℕ) (s t : Stream double R)
      → next double s ≡ next double t
      → drain (suc f) s ≡ drain (suc f) t
  unfolding drain
  drain-same f s t e = ap (collect (drain f)) e

  successes-ok :
      (r : Response R) (rs : List (Response R))
      → r.success ≡ true
      → successes (r ∷ rs) ≡ (r.frame_sequence, r.result) ∷ successes rs
  successes-ok r rs good = rw good

  successes-failed :
      (r : Response R) (rs : List (Response R))
      → r.success ≡ false
      → successes (r ∷ rs) ≡ successes rs
  successes-failed r rs bad = rw bad

  drain-RunsBelow :
      {m : ℕ} (status : Option String) (rest : List (Item R))
      → m < 2 ^ 32
      → {n : ℕ} {rs : List (Response R)} → RunsBelow m n rs
      → (f : ℕ) (s : Stream double R) → s.ended_flag ≡ false
      → Counts m n s.limiter
      → s.queue.items ≡ map response rs ++ (terminal status ∷ rest)
      → length rs < f
      → drain f s ≡ (successes rs, outcome status)
  unfolding gather skip delivered_state note_success
  drain-RunsBelow status rest h none_left zero s o c e lt = absurd (omega arith)
  drain-RunsBelow status rest h none_left (suc f) s o c e lt =
      drain-outcome f status s (rw (next-open s _ o e) (next_items-terminal status rest s))
  drain-RunsBelow status rest h (delivered good below) zero s o c e lt = absurd (omega arith)
  drain-RunsBelow status rest h (delivered {r = r} {rs = rs} good below) (suc f) s o c e lt =
      let items = map response rs ++ (terminal status ∷ rest) in
      drain-returns f r.frame_sequence r.result s (delivered_state r items s)
        (next-open s _ o e ∙ next_items-ok r items s good)
      ∙ ap (gather (r.frame_sequence, r.result)) (
          drain-RunsBelow status rest h below f (delivered_state r items s) o (c.0, inr refl) refl
            (omega arith))
      ∙ ap (λ (l : List (ℕ × R)). (l, outcome status)) (sym (successes-ok r rs good))
  drain-RunsBelow status rest h (skipped bad low below) zero s o c e lt = absurd (omega arith)
  drain-RunsBelow status rest h (skipped {n = n} {r = r} {rs = rs} bad low below) (suc f) s o c e
        lt =
      let items = map response rs ++ (terminal status ∷ rest) in
      let (quiet, counts) = note_failure-below _ n s.limiter c h low in
      let t = with_items items (skip r s) in
      drain-same f s t (
        next-open s _ o e
        ∙ next_items-failed r items s bad quiet
        ∙ sym (next-open t items o refl ∙ next_items-with_items items items (skip r s)))
      ∙ drain-RunsBelow status rest h below (suc f) t o counts refl (omega arith)
      ∙ ap (λ (l : List (ℕ × R)). (l, outcome status)) (sym (successes-failed r rs bad))

  -- A consumer that pulls until no result comes gets every successful response that is queued, in
  -- order, if no run of failures reaches the limit; then the end of the stream, or the error that
  -- the service ended it with. Any number of calls above that of the responses is enough.
  pub drain_delivers :
      (m f : ℕ) (status : Option String) (rest : List (Item R)) (rs : List (Response R))
      (s : Stream double R)
      → m < 2 ^ 32
      → length rs < f
      → RunsBelow m 0 rs
      → s.ended_flag ≡ false
      → Counts m 0 s.limiter
      → s.queue.items ≡ map response rs ++ (terminal status ∷ rest)
      → drain f s ≡ (successes rs, outcome status)
  drain_delivers m f status rest rs s h lt below o c e =
      drain-RunsBelow status rest h below f s o c e lt
