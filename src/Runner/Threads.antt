-- ===== src/Runner/Threads.antt =====
-- reader_loop, worker_loop and stop() of runner.cpp as steps of three threads on the shared state.
-- A step is what a thread does between two points where the others may change what it reads.
use Prim.Native.String.{String}
use neoruntime_sdks.Base.{ℕ, ◌∷◌, Option, none, some, true, if◌then◌else◌}
use neoruntime_sdks.Runner.{
  PipelineRunner, FrameQueue, QueueItem, frame, sentinel, Reader, reading, calling, holding,
  putting, evicting, ended, closing, offering, shedding, reader_done, Worker, getting, running,
  draining, worker_done, Stopper, not_stopping, stop_offering, stop_shedding, stopped, put,
  try_put_sentinel, try_get, release, release_item, shed, record_error, note_success, error_stops,
}

-- What the source returns when it is called.
pub data Source : Type 0 where
  next : ℕ → Source
  exhausted : Source
  source_throws : String → Source

-- How the pipeline and the sink end on a frame.
pub data Outcome : Type 0 where
  processes : Outcome
  pipeline_throws : String → Outcome

abbrev pub at_reader : Reader → PipelineRunner → PipelineRunner
at_reader r s = record s { reader = r }

abbrev pub at_worker : Worker → PipelineRunner → PipelineRunner
at_worker w s = record s { worker = w }

abbrev pub at_stopper : Stopper → PipelineRunner → PipelineRunner
at_stopper t s = record s { stopper = t }

-- The source's answer; an error ends the reader.
unfoldable pub after_source : Source → PipelineRunner → PipelineRunner
unfolding record_error
after_source (next f) s = record s { reader = holding f; delivered = f ∷ s.delivered }
after_source exhausted s = at_reader ended s
after_source (source_throws text) s = at_reader offering (record_error text s)

-- After a put: the frame is in the queue, or the grace time is over.
abbrev pub after_put : ℕ → Option FrameQueue → PipelineRunner → PipelineRunner
after_put f (some q) s = at_reader reading (record s { queue = q })
after_put f none s = at_reader (evicting f) s

-- After an offer of the sentinel: it is in the queue, or there was no room.
abbrev pub reader_offered : Reader → Option FrameQueue → PipelineRunner → PipelineRunner
reader_offered no_room (some q) s = at_reader reader_done (record s { queue = q })
reader_offered no_room none s = at_reader no_room s

-- One step of the reader, from where it stands. put_sentinel waits on a full queue. A frame that is
-- held when the run stops is destroyed, which releases it.
unfoldable pub reader_step : Reader → Source → PipelineRunner → PipelineRunner
unfolding after_source put try_put_sentinel shed
reader_step reading src s = at_reader (if s.stop_flag then offering else calling) s
reader_step calling src s = after_source src s
reader_step (holding f) src s =
    if s.stop_flag then at_reader offering (release f s) else at_reader (putting f) s
reader_step (putting f) src s = after_put f (put s.queue f) s
reader_step (evicting f) src s = at_reader (holding f) (shed s)
reader_step ended src s = at_reader (if s.stop_flag then offering else closing) s
reader_step closing src s = reader_offered closing (try_put_sentinel s.queue) s
reader_step offering src s = reader_offered shedding (try_put_sentinel s.queue) s
reader_step shedding src s = at_reader offering (shed s)
reader_step reader_done src s = at_reader reader_done s

abbrev pub run_item : QueueItem → PipelineRunner → PipelineRunner
run_item sentinel s = at_worker draining s
run_item (frame f) s = at_worker (running f) s

-- After an error: the limit of errors in a row ends the run.
unfoldable pub after_error : PipelineRunner → PipelineRunner
unfolding error_stops
after_error s =
    if error_stops s then record s { stop_flag = true; worker = draining } else at_worker getting s

-- get() waits on an empty queue.
abbrev pub after_get : Option (QueueItem × FrameQueue) → PipelineRunner → PipelineRunner
after_get none s = at_worker getting s
after_get (some (item, q)) s = run_item item (record s { queue = q })

abbrev pub after_drain : Option (QueueItem × FrameQueue) → PipelineRunner → PipelineRunner
after_drain none s = at_worker worker_done s
after_drain (some (item, q)) s = at_worker draining (release_item item (record s { queue = q }))

-- One step of the worker, from where it stands.
unfoldable pub worker_step : Worker → Outcome → PipelineRunner → PipelineRunner
unfolding try_get note_success record_error after_error
worker_step getting out s = after_get (try_get s.queue) s
worker_step (running f) processes s = at_worker getting (release f (note_success s))
worker_step (running f) (pipeline_throws text) s = after_error (release f (record_error text s))
worker_step draining out s = after_drain (try_get s.queue) s
worker_step worker_done out s = at_worker worker_done s

abbrev pub stopper_offered : Option FrameQueue → PipelineRunner → PipelineRunner
stopper_offered (some q) s = at_stopper stopped (record s { queue = q })
stopper_offered none s = at_stopper stop_shedding s

-- One step of stop(), from where it stands: the flag, and then the sentinel. It may be called again.
unfoldable pub stopper_step : Stopper → PipelineRunner → PipelineRunner
unfolding try_put_sentinel shed
stopper_step not_stopping s = record s { stop_flag = true; stopper = stop_offering }
stopper_step stop_offering s = stopper_offered (try_put_sentinel s.queue) s
stopper_step stop_shedding s = at_stopper stop_offering (shed s)
stopper_step stopped s = at_stopper not_stopping s

-- What one step of the program is.
pub data Step : PipelineRunner → PipelineRunner → Type 0 where
  reads : (src : Source) (s : PipelineRunner) → Step s (reader_step s.reader src s)
  works : (out : Outcome) (s : PipelineRunner) → Step s (worker_step s.worker out s)
  stops : (s : PipelineRunner) → Step s (stopper_step s.stopper s)

-- The states that a run can come to.
pub data Reach (start : PipelineRunner) : PipelineRunner → Type 0 where
  here : Reach start start
  after : {s t : PipelineRunner} → Reach start s → Step s t → Reach start t
