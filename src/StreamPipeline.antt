-- ===== src/StreamPipeline.antt =====
-- StreamPipeline of stream_pipeline.cpp: the queue of results for the application, the worker that
-- fills it, and the calls that start and stop it.
pub mod Worker
pub mod Life
pub mod Newest
pub mod Delivery
pub mod Once
pub mod Counts
mod Tests
use Prim.Native.String.{String}
use text.Mathlib.Text.{◌==◌ as str_eq}
use neoruntime_sdks.Base.{
  ℕ, zero, suc, ◌+◌, List, [], ◌∷◌, ◌++◌, Option, none, some, Bool, true, false, not, ◌&&◌, ◌||◌,
  leb, ltb, ◌==◌, if◌then◌else◌, Result, ok, err, ◌>>=◌, ◌>>◌, throw_if, length,
}
use neoruntime_sdks.Base.Int.{ℤ, pos}
use neoruntime_sdks.Base.Double.{Double}

pub data Slot (R : Type 0) : Type 0 where
  result : ℕ → R → Slot R
  stop_marker : Slot R

pub record ResultQueue (R : Type 0) : Type 0 where
  pub capacity : ℕ
  pub slots : List (Slot R)
  pub ended : Bool
  pub drops : ℕ

-- What a get() does: `waits` blocks until a slot is offered.
pub data Get (R : Type 0) : Type 0 where
  waits ends : Get R
  gets : ℕ → R → Get R

abbrev pub new_queue : (R : Type 0) → ℕ → ResultQueue R
new_queue R capacity = record { capacity = capacity; slots = []; ended = false; drops = 0 }

module _ {R : Type 0} where
  -- The loop of evict_until_fits_locked: the slots that stay, and how often the loop ran.
  unfoldable pub evict : ℕ → List (Slot R) → List (Slot R) × ℕ
  evict capacity [] = ([], 0)
  evict capacity (x ∷ xs) =
      let (kept, n) = evict capacity xs in
      if leb capacity (suc (length xs)) then (kept, suc n) else (x ∷ xs, 0)

  unfoldable pub offer_slot : Slot R → ResultQueue R → ResultQueue R
  unfolding evict
  offer_slot slot q =
      let (kept, n) = evict q.capacity q.slots in
      record q { slots = kept ++ (slot ∷ []); drops = q.drops + n }

  abbrev pub get_slot : List (Slot R) → ResultQueue R → Get R × ResultQueue R
  get_slot [] q = (if q.ended then ends else waits, q)
  get_slot (stop_marker ∷ xs) q = (ends, record q { slots = xs; ended = true })
  get_slot (result seq r ∷ xs) q = (gets seq r, record q { slots = xs })

  unfoldable pub get : ResultQueue R → Get R × ResultQueue R
  get q = get_slot q.slots q

pub record DetectedObject (D : Type 0) : Type 0 where
  pub score : D
  pub label : String

-- A result, with what the pipeline does not look at.
pub record InferenceResult (D R : Type 0) : Type 0 where
  pub objects : List (DetectedObject D)
  pub rest : R

-- A call that the pipeline makes of its clients and of its thread.
pub data Call (D R : Type 0) : Type 0 where
  apply_config static_zones : Call D R
  annotate_objects : List (DetectedObject D) → Call D R
  annotate_result : InferenceResult D R → Call D R
  cancel_stream join_worker clear_boxes clear_zones close_inference close_overlay : Call D R

pub data PipelineError : Type 0 where
  bad_min_score bad_result_queue_size bad_ttl : PipelineError
  already_started not_started : PipelineError
  client_error : String → PipelineError

pub record StreamPipeline (D R : Type 0) : Type 0 where
  pub draw : Bool
  pub has_overlay_config : Bool
  pub has_polygons : Bool
  pub min_score : D
  pub labels : Option (List String)
  pub filter_active : Bool
  pub result_queue_size : ℕ
  -- The clients that stop() closes, and whether there is an overlay client at all.
  pub injected_inference : Bool
  pub owned_inference : Bool
  pub owned_overlay : Bool
  pub has_overlay : Bool
  pub joinable : Bool
  pub has_iterator : Bool
  pub results : Option (ResultQueue (InferenceResult D R))
  pub started : Bool
  pub stopped : Bool
  pub running : Bool
  pub worker_done : Bool
  pub results_seen : ℕ
  pub results_annotated : ℕ
  pub annotate_errors : ℕ
  pub last_error : String
  -- The calls so far, oldest first.
  pub calls : List (Call D R)

abbrev pub has : {A : Type 0} → Option A → Bool
has none = false
has (some a) = true

abbrev pub is_zero : Option ℕ → Bool
is_zero none = false
is_zero (some n) = n == 0

module _ (double : Double) (R : Type 0) where
  open double use {D}

  -- The constructor; an injected client is one that the caller keeps.
  unfoldable pub new_pipeline :
      (draw has_overlay_config has_polygons injected_inference injected_overlay : Bool)
      → D
      → Option (List String)
      → (ttl_ms : Option ℕ) → (result_queue_size : ℕ) → Result PipelineError (StreamPipeline D R)
  new_pipeline draw config polygons inference overlay min_score labels ttl_ms size = do
    throw_if
        (not
          (double.le (double.of_ℤ (pos 0)) min_score && double.le min_score (double.of_ℤ (pos 1))))
        bad_min_score
    throw_if (ltb size 1) bad_result_queue_size
    throw_if (is_zero ttl_ms) bad_ttl
    ok (record {
      draw = draw;
      has_overlay_config = config;
      has_polygons = polygons;
      min_score = min_score;
      labels = labels;
      filter_active = double.lt (double.of_ℤ (pos 0)) min_score || has labels;
      result_queue_size = size;
      injected_inference = inference;
      owned_inference = false;
      owned_overlay = false;
      has_overlay = overlay;
      joinable = false;
      has_iterator = false;
      results = none;
      started = false;
      stopped = false;
      running = false;
      worker_done = false;
      results_seen = 0;
      results_annotated = 0;
      annotate_errors = 0;
      last_error = "";
      calls = [];
    })
