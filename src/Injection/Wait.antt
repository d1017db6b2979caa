-- ===== src/Injection/Wait.antt =====
-- acquire_slot_ids of injection.cpp: how often it polls.
use neoruntime_sdks.Base.{
  ℕ, zero, suc, ◌+◌, ◌*◌, ◌≤◌, ◌≡◌, refl, List, Option, none, some, true, leb, Result, ok, err,
  arith, Bool-cases, inl, inr, le→leb,
}
use neoruntime_sdks.Base.Action.{then_do, when, ◌>>◌}
use neoruntime_sdks.Injection.{PublishError, polling}
use neoruntime_sdks.Injection.Services.{FramePublisher, Services, InjectionStatus, set_from}
use neoruntime_sdks.Injection.Publisher.{
  Publish, acquire_before, acquire_slot_ids, refresh_in_flight, take_or_poll, update, sleep_for,
}

abbrev pub NotPolling : {A : Type 0} → Result PublishError A → Type 0
NotPolling (ok a) = Unit {0}
NotPolling (err polling) = ⊥
NotPolling (err e) = Unit {0}

module _ {W : Type 0} (services : Services W) where
  -- The monotonic clock: it does not go back, a sleep takes at least its time, and no service throws the
  -- model's mark for an unfinished wait.
  pub record Ticks (time : W → ℕ) : Type 0 where
    pub now : (w : W) → (services.now_ns w).0 ≡ time w
    pub after_now : (w : W) → time w ≤ time (services.now_ns w).1
    pub after_status : (w : W) → time w ≤ time (services.injection_status w).1
    pub after_sleep : (ms : ℕ) (w : W) → time w + ms * 1000000 ≤ time (services.sleep_ms ms w)
    pub status_not_polling : (w : W) → NotPolling (services.injection_status w).0

  module _ (time : W → ℕ) (ticks : Ticks time) where
    -- An action that ends if it starts less than `k` sleeps before the deadline.
    abbrev Ends : ℕ → ℕ → Publish services ℕ → Type 0
    Ends deadline k m =
        (p : FramePublisher) (w : W) → deadline ≤ time w + k * 10000000 → NotPolling (m (p, w)).0

    after_refresh-Ends :
        (deadline k : ℕ) (next : Publish services ℕ) (p : FramePublisher)
        (r : Result PublishError InjectionStatus) (w : W)
        → Ends deadline k next
        → NotPolling r
        → deadline ≤ time w + suc k * 10000000
        → NotPolling
            (then_do
              (λ _. sleep_for services 10 >> next)
              (then_do
                (λ st.
                  when st.reports_in_flight_buffers
                    (update (λ q. record q { in_flight = set_from st.in_flight_buffer_ids })))
                (r, (p, w)))).0
    after_refresh-Ends deadline k next p (err e) w ends np h = np
    after_refresh-Ends deadline k next p (ok st) w ends np h =
        let s = ticks.after_sleep 10 w in
        elim (Bool-cases st.reports_in_flight_buffers) [
          | inl reports ↦ rw reports (ends _ _ (omega arith))
          | inr silent ↦ rw silent (ends _ _ (omega arith))
        ]

    -- A round before the deadline leaves one sleep less, and one after it throws.
    take_or_poll-Ends :
        (found : Option ℕ) (deadline k : ℕ) (ids : List ℕ) (next : Publish services ℕ)
        → ((k' : ℕ) → k ≡ suc k' → Ends deadline k' next)
        → Ends deadline k (take_or_poll services found deadline ids next)
    unfolding take_or_poll refresh_in_flight
    take_or_poll-Ends (some slot) deadline k ids next ends p w h = tt
    take_or_poll-Ends none deadline zero ids next ends p w h =
        let e = ticks.now w in
        let late : leb deadline (services.now_ns w).0 ≡ true = le→leb deadline _ (omega arith) in
        rw late tt
    take_or_poll-Ends none deadline (suc k) ids next ends p w h =
        let (t, w1) = services.now_ns w in
        let now = ticks.after_now w in
        let status = ticks.after_status w1 in
        elim (Bool-cases (leb deadline t)) [
          | inl late ↦ rw late tt
          | inr early ↦ rw early (
              after_refresh-Ends deadline k next p (services.injection_status w1).0
                (services.injection_status w1).1 (ends k refl) (ticks.status_not_polling w1)
                (omega arith))
        ]

    acquire_before-Ends :
        (k deadline : ℕ) (ids : List ℕ)
        → Ends deadline k (acquire_before services (suc k) deadline ids)
    unfolding acquire_before
    acquire_before-Ends zero deadline ids p w h =
        take_or_poll-Ends _ deadline zero ids _ (λ k' e. absurd (omega arith)) p w h
    acquire_before-Ends (suc k) deadline ids p w h =
        take_or_poll-Ends _ deadline (suc k) ids _
          (λ k' e. let e' : k' ≡ k = omega arith in rw e' (acquire_before-Ends k deadline ids)) p w
          h

    -- With a clock that does not go back and sleeps that take their time, one poll more than the
    -- sleeps of 10 ms that fit in the lease timeout is enough: acquire_slot_ids returns a slot or throws.
    pub acquire_slot_ids_ends :
        (k : ℕ) (ids : List ℕ) (p : FramePublisher) (w : W)
        → p.lease_timeout_ns ≤ k * 10000000
        → NotPolling (acquire_slot_ids services (suc k) ids (p, w)).0
    unfolding acquire_slot_ids
    acquire_slot_ids_ends k ids p w h =
        let e = ticks.now w in
        let a = ticks.after_now w in
        acquire_before-Ends k ((services.now_ns w).0 + p.lease_timeout_ns) ids p
          (services.now_ns w).1 (omega arith)
