-- ===== src/Runner.antt =====
-- PipelineRunner of runner.cpp and runner.hpp: its FrameQueue, its counters and enqueue_terminal. A
-- frame is a number; releasing it hands its descriptor back.
pub mod Threads
pub mod Conserve
pub mod Bound
pub mod Terminal
mod Tests
use Prim.Native.String.{String}
use text.Mathlib.Text.{◌==◌ as str_eq}
use neoruntime_sdks.Base.{
  ℕ, zero, suc, ◌+◌, ◌-◌, List, [], ◌∷◌, ◌++◌, Option, none, some, Bool, true, false, not, ◌&&◌,
  leb, ltb, if◌then◌else◌, Result, ok, err, ◌>>=◌, ◌>>◌, throw_if, length, drop,
}
use neoruntime_sdks.Base.Int.{ℤ, pos, ltb_ℤ, leb_ℤ}
use neoruntime_sdks.Base.Double.{Double}

pub data QueueItem : Type 0 where
  frame : ℕ → QueueItem
  sentinel : QueueItem

pub record FrameQueue : Type 0 where
  pub capacity : ℕ
  pub items : List QueueItem

unfoldable pub full : FrameQueue → Bool
full q = leb q.capacity (length q.items)

abbrev pub push_back : FrameQueue → QueueItem → FrameQueue
push_back q item = record q { items = q.items ++ (item ∷ []) }

-- put() at the moment its wait is over: false if the queue is still full.
unfoldable pub put : FrameQueue → ℕ → Option FrameQueue
unfolding full
put q f = if full q then none else some (push_back q (frame f))

-- try_put_sentinel, and put_sentinel, for which `none` is that it still waits.
unfoldable pub try_put_sentinel : FrameQueue → Option FrameQueue
unfolding full
try_put_sentinel q = if full q then none else some (push_back q sentinel)

-- try_get, and get, for which `none` is that it still waits.
abbrev pub get_from : FrameQueue → List QueueItem → Option (QueueItem × FrameQueue)
get_from q [] = none
get_from q (item ∷ items) = some (item, record q { items = items })

unfoldable pub try_get : FrameQueue → Option (QueueItem × FrameQueue)
try_get q = get_from q q.items

-- Where a thread stands. `holding`, `putting` and `evicting` are the inner loop of reader_loop: the test
-- of the stop flag, the put and the eviction.
pub data Reader : Type 0 where
  reading calling : Reader
  holding putting evicting : ℕ → Reader
  ended closing : Reader
  offering shedding : Reader
  reader_done : Reader

pub data Worker : Type 0 where
  getting : Worker
  running : ℕ → Worker
  draining : Worker
  worker_done : Worker

-- A thread in stop() or the destructor, which offers the sentinel as the reader does.
pub data Stopper : Type 0 where
  not_stopping stop_offering stop_shedding stopped : Stopper

-- The state of a run. `delivered` is what the source has returned and `released` what has been handed
-- back, both newest first. The latencies, which stats() alone reads, are below.
pub record PipelineRunner : Type 0 where
  pub queue : FrameQueue
  pub max_consecutive_errors : Option ℤ
  pub stop_flag : Bool
  pub reader : Reader
  pub worker : Worker
  pub stopper : Stopper
  pub processed : ℕ
  pub dropped : ℕ
  pub errors : ℕ
  pub consecutive_errors : ℕ
  pub last_error : Option String
  pub delivered : List ℕ
  pub released : List ℕ

pub data RunnerError : Type 0 where
  unsupported_policy : String → RunnerError
  bad_queue_size : RunnerError
  already_started : RunnerError

-- The constructor's checks, and the state that start() leaves.
unfoldable pub new_runner : ℕ → String → Option ℤ → Result RunnerError PipelineRunner
new_runner queue_size drop_policy limit = do
  throw_if (not (str_eq drop_policy "latest")) (unsupported_policy drop_policy)
  throw_if (ltb queue_size 1) bad_queue_size
  ok (record {
    queue = record { capacity = queue_size; items = [] };
    max_consecutive_errors = limit;
    stop_flag = false;
    reader = reading;
    worker = getting;
    stopper = not_stopping;
    processed = 0;
    dropped = 0;
    errors = 0;
    consecutive_errors = 0;
    last_error = none;
    delivered = [];
    released = [];
  })

abbrev pub release : ℕ → PipelineRunner → PipelineRunner
release f s = record s { released = f ∷ s.released }

-- Releasing an item does nothing for a sentinel.
abbrev pub release_item : QueueItem → PipelineRunner → PipelineRunner
release_item sentinel s = s
release_item (frame f) s = release f s

abbrev pub shed_with : Option (QueueItem × FrameQueue) → PipelineRunner → PipelineRunner
shed_with none s = s
shed_with (some (item, q)) s = release_item item (record s { queue = q; dropped = s.dropped + 1 })

-- An item shed from a full queue counts as dropped, a sentinel too.
unfoldable pub shed : PipelineRunner → PipelineRunner
unfolding try_get
shed s = shed_with (try_get s.queue) s

unfoldable pub record_error : String → PipelineRunner → PipelineRunner
record_error text s = record s {
  errors = s.errors + 1;
  consecutive_errors = s.consecutive_errors + 1;
  last_error = some text;
}

unfoldable pub note_success : PipelineRunner → PipelineRunner
note_success s = record s { processed = s.processed + 1; consecutive_errors = 0 }

-- No limit, and a limit that is not positive, never stop the run.
unfoldable pub error_stops : PipelineRunner → Bool
error_stops s = elim s.max_consecutive_errors [
  | none ↦ false
  | some limit ↦ ltb_ℤ (pos 0) limit && leb_ℤ limit (pos s.consecutive_errors)
]

-- enqueue_terminal with no other thread at work: `none` is a loop that needs more rounds.
unfoldable pub enqueue_terminal : ℕ → PipelineRunner → Option PipelineRunner
unfolding try_put_sentinel shed
enqueue_terminal zero s = none
enqueue_terminal (suc fuel) s =
    let rest = enqueue_terminal fuel (shed s) in
    elim (try_put_sentinel s.queue) [ some q ↦ some (record s { queue = q }) | none ↦ rest ]

-- The capture of the results that no sink takes: the newest 16.
unfoldable pub keep_result : {R : Type 0} → List R → R → List R
keep_result results out =
    let all = results ++ (out ∷ []) in
    if ltb 16 (length all) then drop (length all - 16) all else all

module _ (double : Double) where
  open double use {D}

  -- The latency part of note_success: the total and the moving average.
  unfoldable pub note_latency : D → D × D → D × D
  note_latency latency_ms (total, ema) = (
    double.add total latency_ms,
    if double.eq ema (double.of_ℤ (pos 0))
        then latency_ms
        else double.add ema (double.mul (double.decimal 2 1) (double.sub latency_ms ema)),
  )
