-- ===== src/Runner/Conserve.antt =====
-- Where a frame of PipelineRunner can be, and the steps of the reader.
pub mod Runs
use neoruntime_sdks.Base.{
  ℕ, zero, suc, ◌+◌, ◌≤◌, ◌≡◌, refl, sym, ap, ◌∙◌, List, [], ◌∷◌, ◌++◌, Option, none, some, Bool,
  true, false, ◌==◌, leb, if◌then◌else◌, arith, length, Bool-cases, Option-cases, inl, inr,
}
use neoruntime_sdks.Runner.{
  PipelineRunner, QueueItem, frame, sentinel, FrameQueue, Reader, reading, calling, holding,
  putting, evicting, ended, closing, offering, shedding, reader_done, Worker, getting, running,
  draining, worker_done, Stopper, not_stopping, stop_offering, stop_shedding, stopped, full, put,
  try_put_sentinel, try_get, get_from, release, release_item, shed, shed_with, record_error,
  note_success, error_stops,
}
use neoruntime_sdks.Runner.Threads.{
  Source, next, exhausted, source_throws, Outcome, processes, pipeline_throws, reader_step,
  worker_step, stopper_step, after_source, after_put, reader_offered, after_get, after_drain,
  stopper_offered, run_item, after_error, Step, reads, works, stops, Reach, here, after,
}

abbrev pub one : ℕ → ℕ → ℕ
one f g = if g == f then 1 else 0

abbrev pub count : ℕ → List ℕ → ℕ
count f [] = 0
count f (g ∷ gs) = one f g + count f gs

abbrev pub in_item : ℕ → QueueItem → ℕ
in_item f sentinel = 0
in_item f (frame g) = one f g

abbrev pub queued : ℕ → List QueueItem → ℕ
queued f [] = 0
queued f (item ∷ items) = in_item f item + queued f items

-- The frame that the reader has in its hands, and the one that the pipeline works on.
abbrev pub in_reader : ℕ → Reader → ℕ
in_reader f (holding g) = one f g
in_reader f (putting g) = one f g
in_reader f (evicting g) = one f g
in_reader f r = 0

abbrev pub in_worker : ℕ → Worker → ℕ
in_worker f (running g) = one f g
in_worker f w = 0

-- Frame `f` released or in the queue.
abbrev pub stored : ℕ → PipelineRunner → ℕ
stored f s = count f s.released + queued f s.queue.items

-- Frame `f`, wherever it is.
abbrev pub placed : ℕ → PipelineRunner → ℕ
placed f s = stored f s + in_reader f s.reader + in_worker f s.worker

queued-snoc :
    (f : ℕ) (items : List QueueItem) (item : QueueItem)
    → queued f (items ++ (item ∷ [])) ≡ queued f items + in_item f item
queued-snoc f [] item = omega arith
queued-snoc f (x ∷ items) item = omega (arith, queued-snoc f items item)

-- What an offer adds to the queue, if it is taken.
abbrev pub Offered : ℕ → FrameQueue → QueueItem → Option FrameQueue → Type 0
Offered f q item none = Unit {0}
Offered f q item (some q') = queued f q'.items ≡ queued f q.items + in_item f item

put-Offered : (f : ℕ) (q : FrameQueue) (g : ℕ) → Offered f q (frame g) (put q g)
unfolding put
put-Offered f q g = elim (Bool-cases (full q)) [
  | inl no_room ↦ rw no_room tt
  | inr room ↦ rw room (queued-snoc f q.items (frame g))
]

pub try_put_sentinel-Offered : (f : ℕ) (q : FrameQueue) → Offered f q sentinel (try_put_sentinel q)
unfolding try_put_sentinel
try_put_sentinel-Offered f q = elim (Bool-cases (full q)) [
  | inl no_room ↦ rw no_room tt
  | inr room ↦ rw room (queued-snoc f q.items sentinel)
]

-- What a read takes from the queue.
abbrev pub Taken : ℕ → List QueueItem → Option (QueueItem × FrameQueue) → Type 0
Taken f items none = Unit {0}
Taken f items (some (item, q)) = queued f items ≡ in_item f item + queued f q.items

get_from-Taken :
    (f : ℕ) (q : FrameQueue) (items : List QueueItem) → Taken f items (get_from q items)
get_from-Taken f q [] = tt
get_from-Taken f q (item ∷ items) = refl

pub try_get-Taken : (f : ℕ) (q : FrameQueue) → Taken f q.items (try_get q)
unfolding try_get
try_get-Taken f q = get_from-Taken f q q.items

-- The same with the places of the reader and the worker given apart.
abbrev pub whole : ℕ → Reader → Worker → PipelineRunner → ℕ
whole f r w s = stored f s + in_reader f r + in_worker f w

pub release_item-stored :
    (f : ℕ) (item : QueueItem) (s : PipelineRunner)
    → stored f (release_item item s) ≡ stored f s + in_item f item
release_item-stored f sentinel s = omega arith
release_item-stored f (frame g) s = omega arith

pub shed-stored :
    (f : ℕ) (r : Reader) (w : Worker) (s : PipelineRunner)
    → (stored f (shed s) ≡ stored f s)
      × ((shed s).delivered ≡ s.delivered)
      × ((shed s).reader ≡ s.reader)
      × ((shed s).worker ≡ s.worker)
unfolding shed
shed-stored f r w s = go (try_get s.queue) (try_get-Taken f s.queue)
  where
    go :
        (o : Option (QueueItem × FrameQueue))
        → Taken f s.queue.items o
        → (stored f (shed_with o s) ≡ stored f s)
          × ((shed_with o s).delivered ≡ s.delivered)
          × ((shed_with o s).reader ≡ s.reader)
          × ((shed_with o s).worker ≡ s.worker)
    go none t = (refl, refl, refl, refl)
    go (some (sentinel, q)) t = (omega arith, refl, refl, refl)
    go (some (frame g, q)) t = (omega arith, refl, refl, refl)

-- What a step of the reader from `r` keeps.
abbrev pub ReaderKeeps : ℕ → Reader → PipelineRunner → PipelineRunner → Type 0
ReaderKeeps f r s t = whole f r s.worker s + count f t.delivered ≡ placed f t + count f s.delivered

after_put-keeps :
    (f g : ℕ) (o : Option FrameQueue) (s : PipelineRunner)
    → Offered f s.queue (frame g) o
    → ReaderKeeps f (putting g) s (after_put g o s)
after_put-keeps f g none s h = omega arith
after_put-keeps f g (some q) s h = omega arith

reader_offered-keeps :
    (f : ℕ) (r : Reader) (o : Option FrameQueue) (s : PipelineRunner)
    → in_reader f r ≡ 0
    → Offered f s.queue sentinel o
    → ReaderKeeps f r s (reader_offered r o s)
reader_offered-keeps f r none s e h = omega arith
reader_offered-keeps f r (some q) s e h = omega arith

after_source-keeps :
    (f : ℕ) (src : Source) (s : PipelineRunner) → ReaderKeeps f calling s (after_source src s)
unfolding after_source record_error
after_source-keeps f (next g) s = omega arith
after_source-keeps f exhausted s = omega arith
after_source-keeps f (source_throws text) s = omega arith

pub reader_step-keeps :
    (f : ℕ) (r : Reader) (src : Source) (s : PipelineRunner)
    → ReaderKeeps f r s (reader_step r src s)
unfolding reader_step
reader_step-keeps f reading src s = elim (Bool-cases s.stop_flag) [
  | inl stop ↦ rw stop (omega arith)
  | inr go ↦ rw go (omega arith)
]
reader_step-keeps f calling src s = after_source-keeps f src s
reader_step-keeps f (holding g) src s = elim (Bool-cases s.stop_flag) [
  | inl stop ↦ rw stop (omega arith)
  | inr go ↦ rw go (omega arith)
]
reader_step-keeps f (putting g) src s = after_put-keeps f g _ s (put-Offered f s.queue g)
reader_step-keeps f (evicting g) src s =
    let (kept, same, _, w) = shed-stored f (evicting g) s.worker s in rw (same, w) (omega arith)
reader_step-keeps f ended src s = elim (Bool-cases s.stop_flag) [
  | inl stop ↦ rw stop (omega arith)
  | inr go ↦ rw go (omega arith)
]
reader_step-keeps f closing src s =
    reader_offered-keeps f closing _ s refl (try_put_sentinel-Offered f s.queue)
reader_step-keeps f offering src s =
    reader_offered-keeps f shedding _ s refl (try_put_sentinel-Offered f s.queue)
reader_step-keeps f shedding src s =
    let (kept, same, _, w) = shed-stored f shedding s.worker s in rw (same, w) (omega arith)
reader_step-keeps f reader_done src s = omega arith
