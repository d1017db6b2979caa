-- ===== src/StreamPipeline/Counts.antt =====
-- What the counters of a StreamPipeline count.
use Prim.Native.String.{String}
use neoruntime_sdks.Base.{
  ℕ, ◌+◌, ◌≡◌, refl, ap, ◌∙◌, List, [], ◌∷◌, Option, none, some, Bool, true, false, if◌then◌else◌,
  arith, length, length-append, Bool-cases, inl, inr,
}
use neoruntime_sdks.Base.Double.{Double}
use neoruntime_sdks.StreamPipeline.{InferenceResult, StreamPipeline}
use neoruntime_sdks.StreamPipeline.Worker.{
  Hooked, no_hook, drops, keeps, raises, Turn, annotate, publish_result, enqueue, after_hook,
  handle, handle_all, finish, run,
}
use neoruntime_sdks.StreamPipeline.Delivery.{flow, flows}

abbrev pub if_drawing : Bool → ℕ → ℕ
if_drawing draw n = if draw then n else 0

if_drawing-add :
    (draw : Bool) (m n : ℕ) → if_drawing draw (m + n) ≡ if_drawing draw m + if_drawing draw n
if_drawing-add true m n = refl
if_drawing-add false m n = omega arith

module _ {D R : Type 0} where
  -- From `s` to `t`, `n` results were received and `k` were let through by the hook: each of those was
  -- drawn, with or without an error, if the pipeline draws.
  pub record Counted (n k : ℕ) (s t : StreamPipeline D R) : Type 0 where
    pub seen : t.results_seen ≡ s.results_seen + n
    pub draws : t.draw ≡ s.draw
    pub drawn :
        t.results_annotated + t.annotate_errors
        ≡ s.results_annotated + s.annotate_errors + if_drawing s.draw k

module _ (double : Double) {R : Type 0} where
  open double use {D}

  publish_result-Counted :
      (seq : ℕ) (r : InferenceResult D R) (e : Option String) (s : StreamPipeline D R)
      → Counted 0 1 s (publish_result double seq r e s)
  unfolding publish_result annotate enqueue
  publish_result-Counted seq r e s = elim (Bool-cases s.draw) [
    | inl on ↦ go e on
    | inr off ↦ record { seen = rw off (omega arith); draws = rw off; drawn = rw off (omega arith) }
  ]
    where
      go : (e : Option String) → s.draw ≡ true → Counted 0 1 s (publish_result double seq r e s)
      go none on = record { seen = rw on (omega arith); draws = rw on; drawn = rw on (omega arith) }
      go (some text) on = record {
        seen = rw on (omega arith);
        draws = rw on;
        drawn = rw on (omega arith);
      }

  after_hook-Counted :
      (t : Turn D R) (h : Hooked (InferenceResult D R)) (s : StreamPipeline D R)
      → Counted 0 (length (flow t h)) s (after_hook double t h s)
  unfolding after_hook
  after_hook-Counted t no_hook s = publish_result-Counted t.seq t.received t.overlay_error s
  after_hook-Counted t (keeps r) s = publish_result-Counted t.seq r t.overlay_error s
  after_hook-Counted t drops s = record { seen = omega arith; draws = refl; drawn = ground arith }
  after_hook-Counted t (raises text) s = record {
    seen = omega arith;
    draws = refl;
    drawn = ground arith;
  }

  handle_all-Counted :
      (ts : List (Turn D R)) (s : StreamPipeline D R)
      → Counted (length ts) (length (flows ts)) s (handle_all double ts s)
  unfolding handle_all handle
  handle_all-Counted [] s = record { seen = omega arith; draws = refl; drawn = ground arith }
  handle_all-Counted (t ∷ ts) s =
      let h = after_hook-Counted t t.hooked (record s { results_seen = s.results_seen + 1 }) in
      let rest = handle_all-Counted ts (handle double t s) in
      let l = length-append (flow t t.hooked) (flows ts) in
      let a = h.seen in
      let b = rest.seen in
      let c = h.draws in
      let d = rest.draws in
      let e = h.drawn in
      let f = rest.drawn in
      let add = if_drawing-add s.draw (length (flow t t.hooked)) (length (flows ts)) in
      let g = ap (λ b. if_drawing b (length (flows ts))) c in
      record { seen = omega arith; draws = d ∙ c; drawn = rw l (omega arith) }

  -- run() counts every result that the stream returned as seen; if the pipeline draws, every result
  -- that the hook let through is counted once, as annotated or as an error of annotating, and if it
  -- does not draw none is.
  pub run-Counted :
      (ts : List (Turn D R)) (error : Option String) (s : StreamPipeline D R)
      → Counted (length ts) (length (flows ts)) s (run double ts error s)
  unfolding run finish
  run-Counted ts error s =
      let c = handle_all-Counted ts (record s { has_iterator = true }) in
      record { seen = c.seen; draws = c.draws; drawn = c.drawn }
