-- ===== src/StreamPipeline/Worker.antt =====
-- run, handle and annotate of stream_pipeline.cpp. What the stream, the hook and the overlay client
-- answer is given with each result.
use Prim.Native.String.{String}
use text.Mathlib.Text.{◌==◌ as str_eq}
use neoruntime_sdks.Base.{
  ℕ, ◌+◌, List, [], ◌∷◌, ◌++◌, Option, none, some, Bool, true, false, not, ◌||◌, if◌then◌else◌,
}
use neoruntime_sdks.Base.Double.{Double}
use neoruntime_sdks.StreamPipeline.{
  Slot, result, stop_marker, ResultQueue, offer_slot, DetectedObject, InferenceResult, Call,
  annotate_objects, annotate_result, StreamPipeline,
}

-- The outcome of the hook: the result that goes on, none, or an exception with its text.
pub data Hooked (A : Type 0) : Type 0 where
  no_hook drops : Hooked A
  keeps : A → Hooked A
  raises : String → Hooked A

-- A result of the stream, with the outcomes of the hook and of the overlay call, if one is made: an
-- exception's text, or none.
pub record Turn (D R : Type 0) : Type 0 where
  pub seq : ℕ
  pub received : InferenceResult D R
  pub hooked : Hooked (InferenceResult D R)
  pub overlay_error : Option String

abbrev pub member : String → List String → Bool
member x [] = false
member x (y ∷ ys) = str_eq y x || member x ys

abbrev pub allowed : Option (List String) → String → Bool
allowed none label = true
allowed (some labels) label = member label labels

module _ (double : Double) where
  open double use {D}

  -- The loop of annotate over the objects.
  unfoldable pub kept_objects :
      D → Option (List String) → List (DetectedObject D) → List (DetectedObject D)
  kept_objects min_score labels [] = []
  kept_objects min_score labels (o ∷ os) =
      let rest = kept_objects min_score labels os in
      if double.lt o.score min_score
      then rest
      else if not (allowed labels o.label)
      then rest
      else o ∷ rest

module _ {D R : Type 0} where
  abbrev pub annotated : Option String → StreamPipeline D R → StreamPipeline D R
  annotated none s = record s { results_annotated = s.results_annotated + 1 }
  annotated (some text) s = record s { annotate_errors = s.annotate_errors + 1; last_error = text }

  unfoldable pub offered :
      Slot (InferenceResult D R)
      → Option (ResultQueue (InferenceResult D R))
      → Option (ResultQueue (InferenceResult D R))
  unfolding offer_slot
  offered slot none = none
  offered slot (some q) = some (offer_slot slot q)

  unfoldable pub enqueue : ℕ → InferenceResult D R → StreamPipeline D R → StreamPipeline D R
  unfolding offered
  enqueue seq r s = record s { results = offered (result seq r) s.results }

  -- The end of run: `none` is a clean end of the stream, and a text an exception.
  unfoldable pub finish : Option String → StreamPipeline D R → StreamPipeline D R
  unfolding offered
  finish error s = record s {
    last_error = elim error [ none ↦ s.last_error | some text ↦ text ];
    running = false;
    worker_done = true;
    results = offered stop_marker s.results;
  }

  -- run, when the subscription throws.
  unfoldable pub run_unsubscribed : String → StreamPipeline D R → StreamPipeline D R
  unfolding finish
  run_unsubscribed text s = finish (some text) s

module _ (double : Double) {R : Type 0} where
  open double use {D}

  -- The overlay call for a result.
  unfoldable pub overlay_call : StreamPipeline D R → InferenceResult D R → Call D R
  unfolding kept_objects
  overlay_call s r =
      if s.filter_active
      then annotate_objects (kept_objects double s.min_score s.labels r.objects)
      else annotate_result r

  unfoldable pub annotate :
      InferenceResult D R → Option String → StreamPipeline D R → StreamPipeline D R
  unfolding overlay_call
  annotate r error s = annotated error (record s { calls = s.calls ++ (overlay_call s r ∷ []) })

  -- The end of handle: the result is drawn and queued.
  unfoldable pub publish_result :
      ℕ → InferenceResult D R → Option String → StreamPipeline D R → StreamPipeline D R
  unfolding annotate enqueue
  publish_result seq r error s = enqueue seq r (if s.draw then annotate r error s else s)

  unfoldable pub after_hook :
      Turn D R → Hooked (InferenceResult D R) → StreamPipeline D R → StreamPipeline D R
  unfolding publish_result
  after_hook t no_hook s = publish_result t.seq t.received t.overlay_error s
  after_hook t (keeps r) s = publish_result t.seq r t.overlay_error s
  after_hook t drops s = s
  after_hook t (raises text) s = record s { last_error = text }

  unfoldable pub handle : Turn D R → StreamPipeline D R → StreamPipeline D R
  unfolding after_hook
  handle t s = after_hook t t.hooked (record s { results_seen = s.results_seen + 1 })

  -- The loop of run over what the stream returns.
  unfoldable pub handle_all : List (Turn D R) → StreamPipeline D R → StreamPipeline D R
  unfolding handle
  handle_all [] s = s
  handle_all (t ∷ ts) s = handle_all ts (handle t s)

  -- run, on a stream that is subscribed to.
  unfoldable pub run : List (Turn D R) → Option String → StreamPipeline D R → StreamPipeline D R
  unfolding handle_all finish
  run ts error s = finish error (handle_all ts (record s { has_iterator = true }))
