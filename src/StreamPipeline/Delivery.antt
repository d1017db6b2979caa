-- ===== src/StreamPipeline/Delivery.antt =====
-- Which results an application gets from a StreamPipeline, and what its counters count.
use Prim.Native.String.{String}
use neoruntime_sdks.Base.{
  ℕ, zero, suc, ◌+◌, ◌-◌, ◌<◌, ◌≡◌, refl, sym, ap, ◌∙◌, List, [], ◌∷◌, ◌++◌, map, append-nil,
  append_assoc, Option, none, some, Bool, true, false, arith, length, length-append, drop,
  drop-snoc, length-drop, Bool-cases, inl, inr,
}
use neoruntime_sdks.Base.Double.{Double}
use neoruntime_sdks.StreamPipeline.{
  Slot, result, stop_marker, ResultQueue, waits, ends, gets, offer_slot, get, new_queue,
  InferenceResult, StreamPipeline,
}
use neoruntime_sdks.StreamPipeline.Newest.{Holds, offer-Holds}
use neoruntime_sdks.StreamPipeline.Worker.{
  Hooked, no_hook, drops, keeps, raises, Turn, annotate, annotated, offered, publish_result,
  enqueue, after_hook, handle, handle_all, finish, run,
}

module _ {D R : Type 0} where
  -- The results that the hook lets through, with their sequence numbers.
  abbrev pub flow : Turn D R → Hooked (InferenceResult D R) → List (ℕ × InferenceResult D R)
  flow t no_hook = (t.seq, t.received) ∷ []
  flow t (keeps r) = (t.seq, r) ∷ []
  flow t drops = []
  flow t (raises text) = []

  abbrev pub flows : List (Turn D R) → List (ℕ × InferenceResult D R)
  flows [] = []
  flows (t ∷ ts) = flow t t.hooked ++ flows ts

  abbrev pub slot_of : ℕ × InferenceResult D R → Slot (InferenceResult D R)
  slot_of (seq, r) = result seq r

  -- The pipeline's queue exists, has room for `suc c` slots and holds the newest of `xs`.
  pub record Queues (c : ℕ) (xs : List (Slot (InferenceResult D R))) (s : StreamPipeline D R)
      : Type 0 where
    pub queue : ResultQueue (InferenceResult D R)
    pub is_results : s.results ≡ some queue
    pub capacity : queue.capacity ≡ suc c
    pub open_ended : queue.ended ≡ false
    pub holds : Holds xs queue

  -- What is the same after a result is drawn.
  annotated-results :
      (e : Option String) (s : StreamPipeline D R) → (annotated e s).results ≡ s.results
  annotated-results none s = refl
  annotated-results (some text) s = refl

  offered-Queues :
      (c : ℕ) (xs : List (Slot (InferenceResult D R))) (slot : Slot (InferenceResult D R))
      (s : StreamPipeline D R)
      → Queues c xs s
      → (t : StreamPipeline D R) → t.results ≡ offered slot s.results
      → Queues c (xs ++ (slot ∷ [])) t
  unfolding offered offer_slot
  offered-Queues c xs slot s q t e =
      let room = q.capacity in
      record {
        queue = offer_slot slot q.queue;
        is_results = e ∙ ap (offered slot) q.is_results;
        capacity = q.capacity;
        open_ended = q.open_ended;
        holds = offer-Holds xs q.queue slot (omega arith) q.holds;
      }

  -- What a consumer gets that pulls until no result comes, and whether the stream has ended for it.
  abbrev pub drain_queue :
      ℕ → ResultQueue (InferenceResult D R) → List (ℕ × InferenceResult D R) × Bool
  unfolding get
  drain_queue zero q = ([], false)
  drain_queue (suc n) q =
      let (g, q1) = get q in
      let (rs, end) = drain_queue n q1 in
      elim g [ waits ↦ ([], false) | ends ↦ ([], true) | gets seq r ↦ ((seq, r) ∷ rs, end) ]

module _ (double : Double) {R : Type 0} where
  open double use {D}

  publish_result-Queues :
      (c : ℕ) (xs : List (Slot (InferenceResult D R))) (seq : ℕ) (r : InferenceResult D R)
      (e : Option String) (s : StreamPipeline D R)
      → Queues c xs s
      → Queues c (xs ++ (result seq r ∷ [])) (publish_result double seq r e s)
  unfolding publish_result annotate offered enqueue
  publish_result-Queues c xs seq r e s q = elim (Bool-cases s.draw) [
    | inl on ↦
        offered-Queues c xs (result seq r) s q _
          (rw on (ap (offered (result seq r)) (annotated-results e _)))
    | inr off ↦ offered-Queues c xs (result seq r) s q _ (rw off)
  ]

  after_hook-Queues :
      (c : ℕ) (xs : List (Slot (InferenceResult D R))) (t : Turn D R)
      (h : Hooked (InferenceResult D R)) (s : StreamPipeline D R)
      → Queues c xs s
      → Queues c (xs ++ map slot_of (flow t h)) (after_hook double t h s)
  unfolding after_hook
  after_hook-Queues c xs t no_hook s q =
      publish_result-Queues c xs t.seq t.received t.overlay_error s q
  after_hook-Queues c xs t (keeps r) s q = publish_result-Queues c xs t.seq r t.overlay_error s q
  after_hook-Queues c xs t drops s q = rw (append-nil xs) q
  after_hook-Queues c xs t (raises text) s q = rw (append-nil xs) (same q)
    where
      same : Queues c xs s → Queues c xs (record s { last_error = text })
      same q = record {
        queue = q.queue;
        is_results = q.is_results;
        capacity = q.capacity;
        open_ended = q.open_ended;
        holds = q.holds;
      }

  handle-Queues :
      (c : ℕ) (xs : List (Slot (InferenceResult D R))) (t : Turn D R) (s : StreamPipeline D R)
      → Queues c xs s
      → Queues c (xs ++ map slot_of (flow t t.hooked)) (handle double t s)
  unfolding handle
  handle-Queues c xs t s q =
      after_hook-Queues c xs t t.hooked (record s { results_seen = s.results_seen + 1 })
        (record {
          queue = q.queue;
          is_results = q.is_results;
          capacity = q.capacity;
          open_ended = q.open_ended;
          holds = q.holds;
        })

  map-append :
      (xs ys : List (ℕ × InferenceResult D R))
      → map slot_of (xs ++ ys) ≡ map slot_of xs ++ map slot_of ys
  map-append [] ys = refl
  map-append (x ∷ xs) ys = ap (◌∷◌ (slot_of x)) (map-append xs ys)

  handle_all-Queues :
      (c : ℕ) (xs : List (Slot (InferenceResult D R))) (ts : List (Turn D R))
      (s : StreamPipeline D R)
      → Queues c xs s
      → Queues c (xs ++ map slot_of (flows ts)) (handle_all double ts s)
  unfolding handle_all
  handle_all-Queues c xs [] s q = rw (append-nil xs) q
  handle_all-Queues c xs (t ∷ ts) s q =
      let e : xs ++ map slot_of (flow t t.hooked ++ flows ts)
          ≡ (xs ++ map slot_of (flow t t.hooked)) ++ map slot_of (flows ts) =
        ap (xs ++◌) (map-append (flow t t.hooked) (flows ts))
        ∙ sym (append_assoc xs (map slot_of (flow t t.hooked)) (map slot_of (flows ts))) in
      rw e (
        handle_all-Queues c (xs ++ map slot_of (flow t t.hooked)) ts (handle double t s)
          (handle-Queues c xs t s q))

  -- A consumer that reads a queue which holds results and then the marker gets them all, and the end.
  drain-marked :
      (n : ℕ) (rs : List (ℕ × InferenceResult D R)) (q : ResultQueue (InferenceResult D R))
      → q.slots ≡ map slot_of rs ++ (stop_marker ∷ [])
      → length rs < n
      → drain_queue n q ≡ (rs, true)
  unfolding drain_queue get
  drain-marked zero rs q e h = absurd (omega arith)
  drain-marked (suc n) [] q e h = rw e
  drain-marked (suc n) ((seq, r) ∷ rs) q e h = rw (
    e,
    drain-marked n rs (record q { slots = map slot_of rs ++ (stop_marker ∷ []) }) refl
        (omega arith),
  )

  drop-map :
      (n : ℕ) (rs : List (ℕ × InferenceResult D R))
      → drop n (map slot_of rs) ≡ map slot_of (drop n rs)
  drop-map zero rs = refl
  drop-map (suc n) [] = refl
  drop-map (suc n) (r ∷ rs) = drop-map n rs

  length-map : (rs : List (ℕ × InferenceResult D R)) → length (map slot_of rs) ≡ length rs
  length-map [] = refl
  length-map (r ∷ rs) = ap suc (length-map rs)

  -- What the worker leaves for the application after it has handled `ts`.
  pub record Delivered (c : ℕ) (ts : List (Turn D R)) (s : StreamPipeline D R) : Type 0 where
    pub queue : ResultQueue (InferenceResult D R)
    pub is_results : s.results ≡ some queue
    pub drained :
        drain_queue (length (flows ts) + 1) queue ≡ (drop (length (flows ts) - c) (flows ts), true)
    pub drops : queue.drops ≡ length (flows ts) - c

  -- After run() on a started pipeline whose queue has room for c + 1 items, whatever the hook and the
  -- overlay do and however the stream ends, a consumer that reads until no result comes gets the last
  -- `c` of the results that the hook lets through, in order, and then the end; the others are counted
  -- as drops.
  pub run-Delivered :
      (c : ℕ) (ts : List (Turn D R)) (error : Option String) (s : StreamPipeline D R)
      → s.results ≡ some (new_queue (InferenceResult D R) (suc c))
      → Delivered c ts (run double ts error s)
  unfolding run finish
  run-Delivered c ts error s e =
      let none_yet : 0 - suc c ≡ 0 = omega arith in
      let started : Queues c [] (record s { has_iterator = true }) = record {
        queue = new_queue (InferenceResult D R) (suc c);
        is_results = e;
        capacity = refl;
        open_ended = refl;
        holds = record { slots = rw none_yet; drops = rw none_yet };
      } in
      let handled = handle_all-Queues c [] ts _ started in
      let s1 = handle_all double ts (record s { has_iterator = true }) in
      let marked = offered-Queues c _ stop_marker s1 handled (finish error s1) refl in
      let slots = map slot_of (flows ts) in
      let n = length-append slots (stop_marker ∷ []) in
      let m = length-map (flows ts) in
      let cap = marked.capacity in
      let over : length (slots ++ (stop_marker ∷ [])) - marked.queue.capacity
          ≡ length (flows ts) - c =
        omega arith in
      let few : length (drop (length (flows ts) - c) (flows ts)) < length (flows ts) + 1 =
        omega (arith, length-drop (length (flows ts) - c) (flows ts)) in
      record {
        queue = marked.queue;
        is_results = marked.is_results;
        drained =
            drain-marked (length (flows ts) + 1) (drop (length (flows ts) - c) (flows ts))
              marked.queue
              (marked.holds.slots
                ∙ ap (λ k. drop k (slots ++ (stop_marker ∷ []))) over
                ∙ drop-snoc (length (flows ts) - c) slots stop_marker (omega arith)
                ∙ ap (◌++ (stop_marker ∷ [])) (drop-map (length (flows ts) - c) (flows ts)))
              few;
        drops = marked.holds.drops ∙ over;
      }
