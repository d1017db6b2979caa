-- ===== src/Runner/Conserve/Runs.antt =====
-- The worker and stop(), and every run of the three threads together.
use Prim.Native.String.{String}
use neoruntime_sdks.Base.{ℕ, ◌+◌, ◌≡◌, Option, none, some, arith, Bool-cases, inl, inr}
use neoruntime_sdks.Runner.{
  PipelineRunner, QueueItem, frame, sentinel, FrameQueue, Worker, getting, running, draining,
  worker_done, Stopper, not_stopping, stop_offering, stop_shedding, stopped, release, record_error,
  note_success, error_stops,
}
use neoruntime_sdks.Runner.Threads.{
  Outcome, processes, pipeline_throws, worker_step, stopper_step, after_get, after_drain,
  stopper_offered, after_error, Step, reads, works, stops, Reach, here, after,
}
use neoruntime_sdks.Runner.Conserve.{
  count, placed, whole, Offered, Taken, try_put_sentinel-Offered, try_get-Taken, shed-stored,
  reader_step-keeps,
}

-- What a step of the worker from `w` keeps.
abbrev WorkerKeeps : ℕ → Worker → PipelineRunner → PipelineRunner → Type 0
WorkerKeeps f w s t = whole f s.reader w s + count f t.delivered ≡ placed f t + count f s.delivered

after_get-keeps :
    (f : ℕ) (o : Option (QueueItem × FrameQueue)) (s : PipelineRunner)
    → Taken f s.queue.items o
    → WorkerKeeps f getting s (after_get o s)
after_get-keeps f none s h = omega arith
after_get-keeps f (some (sentinel, q)) s h = omega arith
after_get-keeps f (some (frame g, q)) s h = omega arith

after_drain-keeps :
    (f : ℕ) (o : Option (QueueItem × FrameQueue)) (s : PipelineRunner)
    → Taken f s.queue.items o
    → WorkerKeeps f draining s (after_drain o s)
after_drain-keeps f none s h = omega arith
after_drain-keeps f (some (sentinel, q)) s h = omega arith
after_drain-keeps f (some (frame g, q)) s h = omega arith

after_error-keeps :
    (f g : ℕ) (text : String) (s : PipelineRunner)
    → WorkerKeeps f (running g) s (after_error (release g (record_error text s)))
unfolding after_error record_error
after_error-keeps f g text s = elim (Bool-cases (error_stops (release g (record_error text s)))) [
  | inl stop ↦ rw stop (omega arith)
  | inr go ↦ rw go (omega arith)
]

worker_step-keeps :
    (f : ℕ) (w : Worker) (out : Outcome) (s : PipelineRunner)
    → WorkerKeeps f w s (worker_step w out s)
unfolding worker_step note_success
worker_step-keeps f getting out s = after_get-keeps f _ s (try_get-Taken f s.queue)
worker_step-keeps f (running g) processes s = omega arith
worker_step-keeps f (running g) (pipeline_throws text) s = after_error-keeps f g text s
worker_step-keeps f draining out s = after_drain-keeps f _ s (try_get-Taken f s.queue)
worker_step-keeps f worker_done out s = omega arith

stopper_offered-keeps :
    (f : ℕ) (o : Option FrameQueue) (s : PipelineRunner)
    → Offered f s.queue sentinel o
    → WorkerKeeps f s.worker s (stopper_offered o s)
stopper_offered-keeps f none s h = omega arith
stopper_offered-keeps f (some q) s h = omega arith

stopper_step-keeps :
    (f : ℕ) (t : Stopper) (s : PipelineRunner) → WorkerKeeps f s.worker s (stopper_step t s)
unfolding stopper_step
stopper_step-keeps f not_stopping s = omega arith
stopper_step-keeps f stop_offering s =
    stopper_offered-keeps f _ s (try_put_sentinel-Offered f s.queue)
stopper_step-keeps f stop_shedding s =
    let (kept, same, r, w) = shed-stored f s.reader s.worker s in rw (same, r, w) (omega arith)
stopper_step-keeps f stopped s = omega arith

-- A frame that the source returned is in exactly one place, counted as often as it was returned: with
-- the reader, in the queue, with the pipeline, or released.
abbrev pub Conserves : PipelineRunner → Type 0
Conserves s = (f : ℕ) → placed f s ≡ count f s.delivered

Step-Conserves : (s t : PipelineRunner) → Step s t → Conserves s → Conserves t
Step-Conserves s _ (reads src _) c f = omega (arith, c f, reader_step-keeps f s.reader src s)
Step-Conserves s _ (works out _) c f = omega (arith, c f, worker_step-keeps f s.worker out s)
Step-Conserves s _ (stops _) c f = omega (arith, c f, stopper_step-keeps f s.stopper s)

-- In every run from a state where it holds, whatever the order of the steps of the reader, the worker
-- and the thread that stops them, and whatever the source and the pipeline do, every frame that the
-- source has returned is in exactly one place: with the reader, in the queue, with the pipeline, or
-- released, and so none is lost and none is released twice.
pub Reach-Conserves : (s t : PipelineRunner) → Conserves s → Reach s t → Conserves t
Reach-Conserves s _ c here = c
Reach-Conserves s _ c (after r step) = Step-Conserves _ _ step (Reach-Conserves s _ c r)
