-- ===== src/Runner/Tests.antt =====
-- A run of PipelineRunner with a queue of one, and the theorems about it at its states.
use neoruntime_sdks.Base.{[], ◌∷◌, none, true, false, arith}
use neoruntime_sdks.Runner.{PipelineRunner, frame, reading, Worker, getting, Stopper, not_stopping}
use neoruntime_sdks.Runner.Threads.{
  next, exhausted, processes, reader_step, worker_step, stopper_step, reads, works, stops, Reach,
  here, after,
}
use neoruntime_sdks.Runner.Conserve.Runs.{Conserves, Reach-Conserves}
use neoruntime_sdks.Runner.Bound.{Bounded, Reach-Bounded}
use neoruntime_sdks.Runner.Terminal.{Enqueued, enqueue_terminal-Enqueued}

abbrev start : PipelineRunner
start = record {
  queue = record { capacity = 1; items = [] };
  max_consecutive_errors = none;
  stop_flag = false;
  reader = reading;
  worker = getting;
  stopper = not_stopping;
  processed = 0;
  dropped = 0;
  errors = 0;
  consecutive_errors = 0;
  last_error = none;
  delivered = [];
  released = [];
}

-- The source returns frame 7, which is put; the worker takes it, and stop() sets the flag.
abbrev stopping : PipelineRunner
stopping = record start {
  stop_flag = true;
  worker = Worker.running 7;
  stopper = Stopper.stop_offering;
  delivered = 7 ∷ [];
}

abbrev run : Reach start stopping
unfolding reader_step worker_step stopper_step
run =
    after
      (after
        (after
          (after (after (after here (reads exhausted _)) (reads (next 7) _)) (reads exhausted _))
          (reads exhausted _))
        (works processes _))
      (stops _)

Reach-Conserves_example : Conserves stopping
Reach-Conserves_example = Reach-Conserves start stopping (λ f. omega arith) run

Reach-Bounded_example : Bounded stopping
Reach-Bounded_example = Reach-Bounded start stopping (omega arith) run

abbrev full_queue : PipelineRunner
full_queue = record start { queue = record { capacity = 1; items = frame 8 ∷ [] } }

enqueue_terminal-Enqueued_example : Enqueued full_queue
enqueue_terminal-Enqueued_example = enqueue_terminal-Enqueued full_queue (omega arith) (omega arith)
