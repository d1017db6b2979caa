-- ===== src/Runner/Bound.antt =====
-- The queue of PipelineRunner and its capacity.
use neoruntime_sdks.Base.{
  ℕ, ◌≤◌, ◌≡◌, List, [], ◌∷◌, Option, none, some, false, arith, length, length-append, Bool-cases,
  inl, inr,
}
use neoruntime_sdks.Runner.{
  PipelineRunner, QueueItem, frame, sentinel, FrameQueue, Reader, reading, calling, holding,
  putting, evicting, ended, closing, offering, shedding, reader_done, Worker, getting, running,
  draining, worker_done, Stopper, not_stopping, stop_offering, stop_shedding, stopped, full, put,
  push_back, try_put_sentinel, try_get, get_from, release, release_item, shed, shed_with,
  record_error, note_success, error_stops,
}
use neoruntime_sdks.Runner.Threads.{
  Source, next, exhausted, source_throws, Outcome, processes, pipeline_throws, reader_step,
  worker_step, stopper_step, after_source, after_put, reader_offered, after_get, after_drain,
  stopper_offered, after_error, Step, reads, works, stops, Reach, here, after,
}

abbrev pub Fits : FrameQueue → Type 0
Fits q = length q.items ≤ q.capacity

abbrev FitsIfSome : Option FrameQueue → Type 0
FitsIfSome none = Unit {0}
FitsIfSome (some q) = Fits q

push_back-Fits : (q : FrameQueue) (item : QueueItem) → full q ≡ false → Fits (push_back q item)
unfolding full
push_back-Fits q item room = let l = length-append q.items (item ∷ []) in ground arith

put-Fits : (q : FrameQueue) (g : ℕ) → FitsIfSome (put q g)
unfolding put
put-Fits q g = elim (Bool-cases (full q)) [
  | inl no_room ↦ rw no_room tt
  | inr room ↦ rw room (push_back-Fits q (frame g) room)
]

try_put_sentinel-Fits : (q : FrameQueue) → FitsIfSome (try_put_sentinel q)
unfolding try_put_sentinel
try_put_sentinel-Fits q = elim (Bool-cases (full q)) [
  | inl no_room ↦ rw no_room tt
  | inr room ↦ rw room (push_back-Fits q sentinel room)
]

abbrev FitsIfTaken : Option (QueueItem × FrameQueue) → Type 0
FitsIfTaken none = Unit {0}
FitsIfTaken (some (item, q)) = Fits q

get_from-Fits :
    (q : FrameQueue) (items : List QueueItem)
    → length items ≤ q.capacity
    → FitsIfTaken (get_from q items)
get_from-Fits q [] h = tt
get_from-Fits q (item ∷ items) h = omega arith

try_get-Fits : (q : FrameQueue) → Fits q → FitsIfTaken (try_get q)
unfolding try_get
try_get-Fits q h = get_from-Fits q q.items h

abbrev pub Bounded : PipelineRunner → Type 0
Bounded s = Fits s.queue

release_item-Bounded :
    (item : QueueItem) (s : PipelineRunner) → Bounded s → Bounded (release_item item s)
release_item-Bounded sentinel s h = h
release_item-Bounded (frame g) s h = h

shed_with-Bounded :
    (o : Option (QueueItem × FrameQueue)) (s : PipelineRunner)
    → FitsIfTaken o
    → Bounded s
    → Bounded (shed_with o s)
shed_with-Bounded none s h b = b
shed_with-Bounded (some (sentinel, q)) s h b = h
shed_with-Bounded (some (frame g, q)) s h b = h

shed-Bounded : (s : PipelineRunner) → Bounded s → Bounded (shed s)
unfolding shed
shed-Bounded s b = shed_with-Bounded (try_get s.queue) s (try_get-Fits s.queue b) b

after_put-Bounded :
    (g : ℕ) (o : Option FrameQueue) (s : PipelineRunner)
    → FitsIfSome o
    → Bounded s
    → Bounded (after_put g o s)
after_put-Bounded g none s h b = b
after_put-Bounded g (some q) s h b = h

reader_offered-Bounded :
    (r : Reader) (o : Option FrameQueue) (s : PipelineRunner)
    → FitsIfSome o
    → Bounded s
    → Bounded (reader_offered r o s)
reader_offered-Bounded r none s h b = b
reader_offered-Bounded r (some q) s h b = h

after_source-Bounded :
    (src : Source) (s : PipelineRunner) → Bounded s → Bounded (after_source src s)
unfolding after_source record_error
after_source-Bounded (next g) s b = b
after_source-Bounded exhausted s b = b
after_source-Bounded (source_throws text) s b = b

reader_step-Bounded :
    (r : Reader) (src : Source) (s : PipelineRunner) → Bounded s → Bounded (reader_step r src s)
unfolding reader_step
reader_step-Bounded reading src s b = b
reader_step-Bounded calling src s b = after_source-Bounded src s b
reader_step-Bounded (holding g) src s b = elim (Bool-cases s.stop_flag) [
  | inl stop ↦ rw stop b
  | inr go ↦ rw go b
]
reader_step-Bounded (putting g) src s b = after_put-Bounded g _ s (put-Fits s.queue g) b
reader_step-Bounded (evicting g) src s b = shed-Bounded s b
reader_step-Bounded ended src s b = b
reader_step-Bounded closing src s b =
    reader_offered-Bounded closing _ s (try_put_sentinel-Fits s.queue) b
reader_step-Bounded offering src s b =
    reader_offered-Bounded shedding _ s (try_put_sentinel-Fits s.queue) b
reader_step-Bounded shedding src s b = shed-Bounded s b
reader_step-Bounded reader_done src s b = b

after_get-Bounded :
    (o : Option (QueueItem × FrameQueue)) (s : PipelineRunner)
    → FitsIfTaken o
    → Bounded s
    → Bounded (after_get o s)
after_get-Bounded none s h b = b
after_get-Bounded (some (sentinel, q)) s h b = h
after_get-Bounded (some (frame g, q)) s h b = h

after_drain-Bounded :
    (o : Option (QueueItem × FrameQueue)) (s : PipelineRunner)
    → FitsIfTaken o
    → Bounded s
    → Bounded (after_drain o s)
after_drain-Bounded none s h b = b
after_drain-Bounded (some (sentinel, q)) s h b = h
after_drain-Bounded (some (frame g, q)) s h b = h

after_error-Bounded : (s : PipelineRunner) → Bounded s → Bounded (after_error s)
unfolding after_error
after_error-Bounded s b = elim (Bool-cases (error_stops s)) [
  | inl stop ↦ rw stop b
  | inr go ↦ rw go b
]

worker_step-Bounded :
    (w : Worker) (out : Outcome) (s : PipelineRunner) → Bounded s → Bounded (worker_step w out s)
unfolding worker_step note_success record_error
worker_step-Bounded getting out s b = after_get-Bounded _ s (try_get-Fits s.queue b) b
worker_step-Bounded (running g) processes s b = b
worker_step-Bounded (running g) (pipeline_throws text) s b =
    after_error-Bounded (release g (record_error text s)) b
worker_step-Bounded draining out s b = after_drain-Bounded _ s (try_get-Fits s.queue b) b
worker_step-Bounded worker_done out s b = b

stopper_offered-Bounded :
    (o : Option FrameQueue) (s : PipelineRunner)
    → FitsIfSome o
    → Bounded s
    → Bounded (stopper_offered o s)
stopper_offered-Bounded none s h b = b
stopper_offered-Bounded (some q) s h b = h

stopper_step-Bounded : (t : Stopper) (s : PipelineRunner) → Bounded s → Bounded (stopper_step t s)
unfolding stopper_step
stopper_step-Bounded not_stopping s b = b
stopper_step-Bounded stop_offering s b =
    stopper_offered-Bounded _ s (try_put_sentinel-Fits s.queue) b
stopper_step-Bounded stop_shedding s b = shed-Bounded s b
stopper_step-Bounded stopped s b = b

Step-Bounded : (s t : PipelineRunner) → Step s t → Bounded s → Bounded t
Step-Bounded s _ (reads src _) b = reader_step-Bounded s.reader src s b
Step-Bounded s _ (works out _) b = worker_step-Bounded s.worker out s b
Step-Bounded s _ (stops _) b = stopper_step-Bounded s.stopper s b

-- In every run from a state whose queue holds at most its capacity, it never holds more.
pub Reach-Bounded : (s t : PipelineRunner) → Bounded s → Reach s t → Bounded t
Reach-Bounded s _ b here = b
Reach-Bounded s _ b (after r step) = Step-Bounded _ _ step (Reach-Bounded s _ b r)
