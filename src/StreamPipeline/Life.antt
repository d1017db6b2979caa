-- ===== src/StreamPipeline/Life.antt =====
-- start, stop and next_result of stream_pipeline.cpp.
use Prim.Native.String.{String}
use neoruntime_sdks.Base.{
  List, [], ◌∷◌, ◌++◌, Option, none, some, Bool, true, false, not, ◌&&◌, ◌||◌, if◌then◌else◌,
  Result, ok, err,
}
use neoruntime_sdks.Base.Action.{Action, ◌>>=◌, ◌>>◌, throws_if, when, modify, gets}
use neoruntime_sdks.StreamPipeline.{
  ResultQueue, new_queue, get, Get, InferenceResult, Call, apply_config, static_zones,
  cancel_stream, join_worker, clear_boxes, clear_zones, close_inference, close_overlay,
  PipelineError, already_started, not_started, client_error, StreamPipeline,
}

module _ {D R : Type 0} where
  abbrev pub log : Call D R → StreamPipeline D R → StreamPipeline D R
  log call s = record s { calls = s.calls ++ (call ∷ []) }

  abbrev pub only_if : Bool → Call D R → List (Call D R)
  only_if b call = if b then call ∷ [] else []

  abbrev pub log_if : Bool → Call D R → StreamPipeline D R → StreamPipeline D R
  log_if b call s = record s { calls = s.calls ++ only_if b call }

  -- An overlay call of start(): its exception goes to the caller.
  abbrev pub overlay_does :
      Call D R → Option String → Action (StreamPipeline D R) PipelineError (Unit {0})
  overlay_does call none s = (ok tt, log call s)
  overlay_does call (some text) s = (err (client_error text), log call s)

  -- The clients that start() makes itself.
  abbrev pub own_clients : StreamPipeline D R → StreamPipeline D R
  own_clients s = record s {
    owned_inference = not s.injected_inference;
    owned_overlay = s.draw && not s.has_overlay;
    has_overlay = s.has_overlay || s.draw;
  }

  -- start, with the outcomes of the two overlay calls, which are made if there is something to draw.
  unfoldable pub start :
      Option String → Option String → Action (StreamPipeline D R) PipelineError (Unit {0})
  start config_error zones_error = do
    s ← gets (λ s. s)
    throws_if s.started already_started
    modify (λ s. record s { started = true; running = true })
    modify own_clients
    when (s.draw && s.has_overlay_config) (overlay_does apply_config config_error)
    when (s.draw && s.has_polygons) (overlay_does static_zones zones_error)
    modify (λ s. record s {
      results = some (new_queue (InferenceResult D R) s.result_queue_size);
      joinable = true;
    })

  -- Clearing what was drawn: an exception of the first call skips the second, and is swallowed.
  unfoldable pub clear_drawn : Bool → StreamPipeline D R → StreamPipeline D R
  clear_drawn boxes_fail s =
      let boxes = log_if s.draw clear_boxes s in
      log_if (not (s.draw && boxes_fail) && s.draw && s.has_polygons) clear_zones boxes

  -- What stop() does once.
  unfoldable pub teardown : Bool → StreamPipeline D R → StreamPipeline D R
  unfolding clear_drawn
  teardown boxes_fail s =
      let cleared = if s.has_overlay then clear_drawn boxes_fail s else s in
      log_if s.owned_overlay close_overlay (log_if s.owned_inference close_inference cleared)

  -- The join, unless the worker itself calls or nothing is left to join.
  unfoldable pub join : Bool → StreamPipeline D R → StreamPipeline D R
  join on_worker s =
      if s.joinable && not on_worker then record (log join_worker s) { joinable = false } else s

  -- stop, called by the worker or by another thread; `boxes_fail` is the outcome of clearing the boxes.
  unfoldable pub stop : Bool → Bool → StreamPipeline D R → StreamPipeline D R
  unfolding join teardown
  stop on_worker boxes_fail s =
      if not s.started
      then s
      else if s.stopped
      then join on_worker s
      else teardown boxes_fail
          (join on_worker (log_if s.has_iterator cancel_stream (record s { stopped = true })))

  abbrev pub got :
      Get (InferenceResult D R) × ResultQueue (InferenceResult D R)
      → StreamPipeline D R
      → Result PipelineError (Get (InferenceResult D R)) × StreamPipeline D R
  got (g, q) s = (ok g, record s { results = some q })

  unfoldable pub next_result : Action (StreamPipeline D R) PipelineError (Get (InferenceResult D R))
  unfolding get
  next_result s = elim s.results [ none ↦ (err not_started, s) | some q ↦ got (get q) s ]
