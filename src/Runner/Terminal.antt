-- ===== src/Runner/Terminal.antt =====
-- enqueue_terminal of runner.cpp: the sentinel and what it sheds.
use neoruntime_sdks.Base.{
  ℕ, suc, ◌+◌, ◌-◌, ◌≤◌, ◌<◌, ◌≡◌, refl, ap, ◌∙◌, List, [], ◌∷◌, ◌++◌, some, false, leb, arith,
  length, drop, le→leb,
}
use native.Mathlib.Decide.{dec_le}
use neoruntime_sdks.Runner.{
  PipelineRunner, QueueItem, frame, sentinel, FrameQueue, full, try_put_sentinel, try_get,
  release_item, shed, shed_with, get_from, enqueue_terminal,
}
use neoruntime_sdks.Runner.Bound.{Bounded}

-- How many of the oldest items go: those that leave no room for the sentinel.
abbrev pub overflow : FrameQueue → ℕ
overflow q = length q.items + 1 - q.capacity

pub record Enqueued (s : PipelineRunner) : Type 0 where
  pub final : PipelineRunner
  pub ends : enqueue_terminal 2 s ≡ some final
  pub items : final.queue.items ≡ drop (overflow s.queue) s.queue.items ++ (sentinel ∷ [])
  pub dropped : final.dropped ≡ s.dropped + overflow s.queue

-- One round, by whether the queue has room.
enqueue-offered :
    (fuel : ℕ) (s : PipelineRunner)
    → length s.queue.items < s.queue.capacity
    → enqueue_terminal (suc fuel) s
      ≡ some (record s {
        queue = record { capacity = s.queue.capacity; items = s.queue.items ++ (sentinel ∷ []) };
      })
unfolding enqueue_terminal try_put_sentinel full
enqueue-offered fuel s h =
    let room : leb s.queue.capacity (length s.queue.items) ≡ false = ground arith in
    rw (enqueue_terminal, room)

enqueue-shed :
    (fuel : ℕ) (s : PipelineRunner)
    → s.queue.capacity ≤ length s.queue.items
    → enqueue_terminal (suc fuel) s ≡ enqueue_terminal fuel (shed s)
unfolding enqueue_terminal try_put_sentinel full
enqueue-shed fuel s h = rw (enqueue_terminal, le→leb s.queue.capacity (length s.queue.items) h)

enqueue-room : (s : PipelineRunner) → length s.queue.items < s.queue.capacity → Enqueued s
enqueue-room s h =
    let none_go : overflow s.queue ≡ 0 = omega arith in
    record {
      final = record s {
        queue = record { capacity = s.queue.capacity; items = s.queue.items ++ (sentinel ∷ []) };
      };
      ends = enqueue-offered 1 s h;
      items = rw none_go;
      dropped = omega arith;
    }

-- The runner after one item has gone.
abbrev shorter : PipelineRunner → QueueItem → List QueueItem → PipelineRunner
shorter s item items = release_item item (record s {
  queue = record { capacity = s.queue.capacity; items = items };
  dropped = s.dropped + 1;
})

shed-shorter :
    (s : PipelineRunner) (item : QueueItem) (items : List QueueItem)
    → s.queue.items ≡ item ∷ items
    → shed s ≡ shorter s item items
unfolding shed try_get
shed-shorter s item items e = ap (λ all. shed_with (get_from s.queue all) s) e

enqueue-shorter :
    (s : PipelineRunner) (item : QueueItem) (items : List QueueItem)
    → s.queue.capacity ≡ suc (length items)
    → enqueue_terminal 1 (shorter s item items)
      ≡ some (record (shorter s item items) {
        queue = record { capacity = s.queue.capacity; items = items ++ (sentinel ∷ []) };
      })
enqueue-shorter s sentinel items h = enqueue-offered 0 (shorter s sentinel items) (omega arith)
enqueue-shorter s (frame f) items h = enqueue-offered 0 (shorter s (frame f) items) (omega arith)

shorter-dropped :
    (s : PipelineRunner) (item : QueueItem) (items : List QueueItem)
    → (shorter s item items).dropped ≡ s.dropped + 1
shorter-dropped s sentinel items = refl
shorter-dropped s (frame f) items = refl

enqueue-full :
    (s : PipelineRunner) (item : QueueItem) (items : List QueueItem)
    → s.queue.items ≡ item ∷ items
    → s.queue.capacity ≡ suc (length items)
    → Enqueued s
enqueue-full s item items e h =
    let n : length s.queue.items ≡ suc (length items) = ap length e in
    let one_goes : overflow s.queue ≡ 1 = omega arith in
    record {
      final = record (shorter s item items) {
        queue = record { capacity = s.queue.capacity; items = items ++ (sentinel ∷ []) };
      };
      ends =
          enqueue-shed 1 s (omega arith)
          ∙ ap (enqueue_terminal 1) (shed-shorter s item items e)
          ∙ enqueue-shorter s item items h;
      items = let rest : drop 1 s.queue.items ≡ items = ap (drop 1) e in rw (one_goes, rest);
      dropped = shorter-dropped s item items ∙ rw one_goes;
    }

-- On a queue of capacity at least 1 that holds at most its capacity, and with no other thread at work,
-- enqueue_terminal ends in two rounds at most: the sentinel is the last item, after the newest items
-- that leave room for it, and every item that went counts as dropped.
pub enqueue_terminal-Enqueued : (s : PipelineRunner) → 0 < s.queue.capacity → Bounded s → Enqueued s
enqueue_terminal-Enqueued s pos_capacity b = go s.queue.items refl
  where
    go : (items : List QueueItem) → s.queue.items ≡ items → Enqueued s
    go [] e = let empty : length s.queue.items ≡ 0 = rw e in enqueue-room s (omega arith)
    go (item ∷ items) e =
        let n : length s.queue.items ≡ suc (length items) = rw e in
        elim (dec_le s.queue.capacity (length s.queue.items)) [
          | yes no_room ↦ enqueue-full s item items e (omega arith)
          | no room ↦ enqueue-room s (omega arith)
        ]
