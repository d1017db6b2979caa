-- ===== src/StreamPipeline/Once.antt =====
-- stop() of StreamPipeline: the clean-up and its order.
use neoruntime_sdks.Base.{
  ◌≡◌, refl, ap, ◌∙◌, List, [], ◌∷◌, ◌++◌, append_assoc, Bool, true, false, not, ◌&&◌,
  if◌then◌else◌, Bool-cases, inl, inr,
}
use neoruntime_sdks.StreamPipeline.{
  Call, cancel_stream, join_worker, clear_boxes, clear_zones, close_inference, close_overlay,
  StreamPipeline,
}
use neoruntime_sdks.StreamPipeline.Life.{only_if, join, clear_drawn, teardown, stop}

module _ {D R : Type 0} where
  -- The calls that clear what was drawn.
  abbrev pub clearing : Bool → StreamPipeline D R → List (Call D R)
  clearing boxes_fail s =
      if s.has_overlay
      then only_if s.draw clear_boxes
        ++ only_if (not (s.draw && boxes_fail) && s.draw && s.has_polygons) clear_zones
      else []

  -- The calls of a teardown.
  abbrev pub cleaning : Bool → StreamPipeline D R → List (Call D R)
  cleaning boxes_fail s =
      clearing boxes_fail s
      ++ (only_if s.owned_inference close_inference ++ only_if s.owned_overlay close_overlay)

  teardown-calls :
      (f : Bool) (s : StreamPipeline D R)
      → ((teardown f s).calls ≡ s.calls ++ cleaning f s)
        × ((teardown f s).started ≡ s.started)
        × ((teardown f s).stopped ≡ s.stopped)
        × ((teardown f s).joinable ≡ s.joinable)
  unfolding teardown clear_drawn
  teardown-calls f s = elim (Bool-cases s.has_overlay) [
    | inl has ↦ rw has (simp append_assoc, refl, refl, refl)
    | inr lacks ↦ rw lacks (simp append_assoc, refl, refl, refl)
  ]

  -- Later calls of stop(), each by the worker or by another thread.
  abbrev pub stop_again : List (Bool × Bool) → StreamPipeline D R → StreamPipeline D R
  unfolding stop
  stop_again [] s = s
  stop_again ((on_worker, boxes_fail) ∷ cs) s = stop_again cs (stop on_worker boxes_fail s)

  -- stop() with nothing left to do.
  stop-idle :
      (w f : Bool) (s : StreamPipeline D R)
      → s.started ≡ true
      → s.stopped ≡ true
      → s.joinable ≡ false
      → stop w f s ≡ s
  unfolding stop join
  stop-idle w f s a b c = rw (a, b, c)

  stop_again-calls :
      (cs : List (Bool × Bool)) (s : StreamPipeline D R)
      → s.started ≡ true
      → s.stopped ≡ true
      → s.joinable ≡ false
      → (stop_again cs s).calls ≡ s.calls
  unfolding stop_again
  stop_again-calls [] s a b c = refl
  stop_again-calls ((w, f) ∷ cs) s a b c =
      ap (λ t. (stop_again cs t).calls) (stop-idle w f s a b c) ∙ stop_again-calls cs s a b c

  -- What the first stop() of another thread has done before the teardown.
  abbrev joined : StreamPipeline D R → StreamPipeline D R
  joined s = record s {
    stopped = true;
    joinable = false;
    calls = s.calls ++ only_if s.has_iterator cancel_stream ++ (join_worker ∷ []);
  }

  stop-joined :
      (f : Bool) (s : StreamPipeline D R)
      → s.started ≡ true
      → s.stopped ≡ false
      → s.joinable ≡ true
      → stop false f s ≡ teardown f (joined s)
  unfolding stop join
  stop-joined f s a b c = rw (a, b, c)

  -- The first stop() of a started pipeline, by a thread that is not the worker, cancels the stream if
  -- there is one, joins the worker, and only then clears what was drawn and closes the clients that
  -- the pipeline owns; any number of calls after it, by any thread, does nothing more.
  pub stop_once :
      (f : Bool) (cs : List (Bool × Bool)) (s : StreamPipeline D R)
      → s.started ≡ true
      → s.stopped ≡ false
      → s.joinable ≡ true
      → (stop_again cs (stop false f s)).calls
        ≡ s.calls ++ only_if s.has_iterator cancel_stream ++ (join_worker ∷ []) ++ cleaning f s
  stop_once f cs s a b c =
      let (calls, started, stopped, joinable) = teardown-calls f (joined s) in
      ap (λ t. (stop_again cs t).calls) (stop-joined f s a b c)
      ∙ stop_again-calls cs (teardown f (joined s)) (started ∙ a) stopped joinable
      ∙ calls
