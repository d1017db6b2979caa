-- ===== src/Injection/Lease.antt =====
-- acquire_slot_ids of injection.cpp, and the daemon's reports that it goes by.
use neoruntime_sdks.Base.{
  ℕ, zero, suc, ◌+◌, ◌<◌, ◌≡◌, refl, sym, ap, ◌∙◌, [], ◌∷◌, ◌||◌, ◌==◌, ltb, if◌then◌else◌, List,
  Option, none, some, Bool, true, false, leb, Result, ok, err, length, get_or, arith, Bool-cases,
  inl, inr,
}
use native.Mathlib.Nat.{mod-lt}
use neoruntime_sdks.Base.Action.{then_do, when, ◌>>◌}
use neoruntime_sdks.Injection.{PublishError}
use neoruntime_sdks.Injection.Services.{
  FramePublisher, Services, contains, insert, set_from, InjectionStatus,
}
use neoruntime_sdks.Injection.Publisher.{
  Publish, acquire_before, acquire_slot_ids, refresh_in_flight, take_or_poll, update, sleep_for,
}
use neoruntime_sdks.Injection.Rotation.{FreeSlot, pick_free_slot-FreeSlot}

contains-insert : (x id : ℕ) (xs : List ℕ) → contains (insert id xs) x ≡ (id == x || contains xs x)
contains-insert x id [] = refl
contains-insert x id (y ∷ ys) = elim (Bool-cases (ltb id y)) [
  | inl less ↦ rw less refl
  | inr more ↦ elim (Bool-cases (y == id)) [
    | inl same ↦
        let e : y ≡ id = ground arith in rw (more, same, e) (absorb (id == x) (contains ys x))
    | inr other ↦
        rw (more, other, contains-insert x id ys) (swap (y == x) (id == x) (contains ys x))
  ]
]
  where
    absorb : (a b : Bool) → (a || b) ≡ (a || (a || b))
    absorb true b = refl
    absorb false b = refl

    swap : (a b c : Bool) → (a || (b || c)) ≡ (b || (a || c))
    swap true true c = refl
    swap true false c = refl
    swap false true c = refl
    swap false false c = refl

contains-set_from : (x : ℕ) (ids : List ℕ) → contains (set_from ids) x ≡ contains ids x
unfolding set_from
contains-set_from x [] = refl
contains-set_from x (id ∷ ids) =
    contains-insert x id (set_from ids) ∙ ap (id == x ||◌) (contains-set_from x ids)

-- What one answer of the daemon says of the buffers in flight: nothing, if it does not report them.
abbrev pub learn : Result PublishError InjectionStatus → List ℕ → List ℕ
learn (err e) known = known
learn (ok st) known = if st.reports_in_flight_buffers then st.in_flight_buffer_ids else known

module _ {W : Type 0} (services : Services W) where
  -- `n` polls of the daemon, each with a look at the clock before it and a sleep after it: the rest of
  -- the system after them, and the ids that the newest report among their answers has, or `known` if
  -- none is a report.
  abbrev pub polled : ℕ → W → List ℕ → W × List ℕ
  polled zero w known = (w, known)
  polled (suc n) w known =
      let (r, w1) = services.injection_status (services.now_ns w).1 in
      polled n (services.sleep_ms 10 w1) (learn r known)

  -- A slot that was acquired: it is in the pool, its id is not one that the daemon has reported in the
  -- newest of the polls that were made, and the cursor stands behind it.
  pub record Acquired (ids known : List ℕ) (w : W) (slot : ℕ) (p : FramePublisher) (w' : W)
      : Type 0 where
    pub in_pool : slot < length ids
    pub polls : ℕ
    pub after_polls : w' ≡ (polled polls w known).0
    pub free : contains (polled polls w known).1 (get_or ids slot 0) ≡ false
    pub cursor : p.slot_cursor < length ids

  abbrev pub AcquiredIfOk :
      List ℕ → List ℕ → W → Result PublishError ℕ × (FramePublisher × W) → Type 0
  AcquiredIfOk ids known w (ok slot, (p, w')) = Acquired ids known w slot p w'
  AcquiredIfOk ids known w (err e, s) = Unit {0}

  -- The publisher's set has the same ids.
  abbrev Knows : FramePublisher → List ℕ → Type 0
  Knows p known = (id : ℕ) → contains p.in_flight id ≡ contains known id

  -- What holds of every run of an action from a cursor in the pool.
  abbrev IsSafe : List ℕ → Publish services ℕ → Type 0
  IsSafe ids m =
      (p : FramePublisher) (w : W) (known : List ℕ)
      → p.slot_cursor < length ids
      → Knows p known
      → AcquiredIfOk ids known w (m (p, w))

  -- One poll before those of a run.
  AcquiredIfOk-polled :
      (ids known : List ℕ) (w : W) (out : Result PublishError ℕ × (FramePublisher × W))
      → AcquiredIfOk ids (polled 1 w known).1 (polled 1 w known).0 out
      → AcquiredIfOk ids known w out
  AcquiredIfOk-polled ids known w (ok slot, (p, w')) a = record {
    in_pool = a.in_pool;
    polls = suc a.polls;
    after_polls = a.after_polls;
    free = a.free;
    cursor = a.cursor;
  }
  AcquiredIfOk-polled ids known w (err e, s) a = tt

  after_refresh-Acquired :
      (ids known : List ℕ) (next : Publish services ℕ) (p : FramePublisher)
      (r : Result PublishError InjectionStatus) (w : W)
      → IsSafe ids next
      → p.slot_cursor < length ids
      → Knows p known
      → AcquiredIfOk ids (learn r known) (services.sleep_ms 10 w) (
          then_do
            (λ _. sleep_for services 10 >> next)
            (then_do
              (λ st.
                when st.reports_in_flight_buffers
                  (update (λ q. record q { in_flight = set_from st.in_flight_buffer_ids })))
              (r, (p, w))))
  after_refresh-Acquired ids known next p (err e) w safe h k = tt
  after_refresh-Acquired ids known next p (ok st) w safe h k =
      elim (Bool-cases st.reports_in_flight_buffers) [
        | inl reports ↦ rw reports (
            safe _ _ st.in_flight_buffer_ids h (λ id. contains-set_from id st.in_flight_buffer_ids))
        | inr silent ↦ rw silent (safe _ _ known h k)
      ]

  take_or_poll-Acquired :
      (found : Option ℕ) (deadline : ℕ) (ids known : List ℕ) (next : Publish services ℕ)
      (p : FramePublisher) (w : W)
      → FreeSlot ids (contains p.in_flight) found
      → IsSafe ids next
      → p.slot_cursor < length ids
      → Knows p known
      → AcquiredIfOk ids known w (take_or_poll services found deadline ids next (p, w))
  unfolding take_or_poll refresh_in_flight
  take_or_poll-Acquired (some slot) deadline ids known next p w (lt, free) safe h k = record {
    in_pool = lt;
    polls = 0;
    after_polls = refl;
    free = sym (k (get_or ids slot 0)) ∙ free;
    cursor = mod-lt (slot + 1) (omega arith);
  }
  take_or_poll-Acquired none deadline ids known next p w f safe h k =
      let (t, w1) = services.now_ns w in
      elim (Bool-cases (leb deadline t)) [
        | inl late ↦ rw late tt
        | inr early ↦
            let (r, w2) = services.injection_status w1 in
            rw early (
              AcquiredIfOk-polled ids known w _
                (after_refresh-Acquired ids known next p r w2 safe h k))
      ]

  acquire_before-Acquired :
      (polls deadline : ℕ) (ids : List ℕ) → IsSafe ids (acquire_before services polls deadline ids)
  unfolding acquire_before
  acquire_before-Acquired zero deadline ids p w known h k = tt
  acquire_before-Acquired (suc polls) deadline ids p w known h k =
      take_or_poll-Acquired _ deadline ids known _ p w
        (pick_free_slot-FreeSlot p.slot_cursor ids (contains p.in_flight) h)
        (acquire_before-Acquired polls deadline ids) h k

  -- From any position of the cursor in the pool, and whatever the daemon and the clock do: a slot that
  -- acquire_slot_ids returns is a slot of the pool, and its id is not among those that the daemon has
  -- reported as in flight in the newest report that the polls of the call got or, if they got none,
  -- among those that the publisher knew of before; and the cursor stays in the pool.
  pub acquire_slot_ids-Acquired :
      (polls : ℕ) (ids : List ℕ) (p : FramePublisher) (w : W)
      → p.slot_cursor < length ids
      → AcquiredIfOk ids p.in_flight
          (services.now_ns w).1
          (acquire_slot_ids services polls ids (p, w))
  unfolding acquire_slot_ids
  acquire_slot_ids-Acquired polls ids p w h =
      let (t, w1) = services.now_ns w in
      acquire_before-Acquired polls (t + p.lease_timeout_ns) ids p w1 p.in_flight h (λ id. refl)
