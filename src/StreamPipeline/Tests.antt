-- ===== src/StreamPipeline/Tests.antt =====
-- A pipeline with room for two results, and the theorems about its worker and its stop().
use neoruntime_sdks.Base.{ℕ, ◌≡◌, refl, List, [], ◌∷◌, ◌++◌, none, some, true, false, length}
use neoruntime_sdks.Base.Double.{whole}
use neoruntime_sdks.StreamPipeline.{
  new_queue, InferenceResult, cancel_stream, join_worker, StreamPipeline,
}
use neoruntime_sdks.StreamPipeline.Worker.{no_hook, keeps, drops, raises, Turn, run}
use neoruntime_sdks.StreamPipeline.Life.{only_if, stop}
use neoruntime_sdks.StreamPipeline.Delivery.{flows, Delivered, run-Delivered}
use neoruntime_sdks.StreamPipeline.Once.{cleaning, stop_again, stop_once}
use neoruntime_sdks.StreamPipeline.Counts.{Counted, run-Counted}

abbrev cats : ℕ → InferenceResult ℕ ℕ
cats n = record { objects = record { score = n; label = "cat" } ∷ []; rest = n }

-- Four results: one as it came, one dropped, one replaced, and one on which the hook fails.
abbrev turns : List (Turn ℕ ℕ)
turns =
    record { seq = 1; received = cats 1; hooked = no_hook; overlay_error = none }
    ∷ record { seq = 2; received = cats 2; hooked = drops; overlay_error = none }
    ∷ record { seq = 3; received = cats 3; hooked = keeps (cats 9); overlay_error = some "busy" }
    ∷ record {
      seq = 4;
      received = cats 4;
      hooked = raises "on_result raised: no";
      overlay_error = none;
    }
    ∷ []

abbrev running : StreamPipeline ℕ ℕ
running = record {
  draw = true;
  has_overlay_config = false;
  has_polygons = true;
  min_score = 2;
  labels = none;
  filter_active = true;
  result_queue_size = 2;
  injected_inference = false;
  owned_inference = true;
  owned_overlay = true;
  has_overlay = true;
  joinable = true;
  has_iterator = true;
  results = some (new_queue (InferenceResult ℕ ℕ) 2);
  started = true;
  stopped = false;
  running = true;
  worker_done = false;
  results_seen = 0;
  results_annotated = 0;
  annotate_errors = 0;
  last_error = "";
  calls = [];
}

run-Delivered_example : Delivered whole 1 turns (run whole turns none running)
run-Delivered_example = run-Delivered whole 1 turns none running refl

run-Counted_example : Counted 4 (length (flows turns)) running (run whole turns none running)
run-Counted_example = run-Counted whole turns none running

stop_once_example :
    (stop_again ((true, false) ∷ (false, false) ∷ []) (stop false true running)).calls
    ≡ [] ++ only_if true cancel_stream ++ (join_worker ∷ []) ++ cleaning true running
stop_once_example = stop_once true ((true, false) ∷ (false, false) ∷ []) running refl refl refl
