-- ===== src/Injection/Publisher.antt =====
-- The constructor of FramePublisher (injection.cpp), its slots and its write leases.
use Prim.Native.String.{String}
use text.Mathlib.Text.{◌==◌ as str_eq}
use neoruntime_sdks.Base.{
  ℕ, zero, suc, ◌+◌, ◌%◌, List, [], Option, none, some, Bool, false, leb, if◌then◌else◌, Result, ok,
  err, length,
}
use neoruntime_sdks.Base.Int.{ℤ, pos_part}
use neoruntime_sdks.Base.Action.{Action, ◌>>=◌, ◌>>◌, return, throw, lift, throws_if, when}
use neoruntime_sdks.Injection.{
  PublishError, unknown_stream, exhausted, polling, StreamStatus, validate_pool_depth,
  validate_mode, known_streams, find_stream, PoolGeometry, resolve_geometry, pick_free_slot,
}
use neoruntime_sdks.Injection.Services.{
  InjectionResult, InjectionStatus, Pool, Config, FramePublisher, Services, contains, set_from,
}

module _ {W : Type 0} where
  -- A call of a service from the publisher.
  abbrev pub call :
      {A : Type 0} → (W → Result PublishError A × W) → Action (FramePublisher × W) PublishError A
  call m (p, w) = let (r, w1) = m w in (r, (p, w1))

  abbrev pub update :
      (FramePublisher → FramePublisher) → Action (FramePublisher × W) PublishError (Unit {0})
  update f (p, w) = (ok tt, (f p, w))

  abbrev pub this : Action (FramePublisher × W) PublishError FramePublisher
  this (p, w) = (ok p, (p, w))

module _ {W : Type 0} (services : Services W) where
  open services use {
    get_stream_status, injection_status, alloc_buffers, import_shared_buffers, now_ns, sleep_ms,
  }

  -- The capability probe of the constructor: any failure is an old daemon.
  abbrev pub probe_lease : Result PublishError InjectionStatus → Bool
  probe_lease (ok st) = st.reports_in_flight_buffers
  probe_lease (err e) = false

  abbrev pub publisher :
      String
      → Config
      → PoolGeometry
      → ℤ
      → Pool
      → Result PublishError InjectionStatus
      → FramePublisher
  publisher stream_id config g depth pool probe = record {
    stream_id = stream_id;
    session_id = config.session_id;
    mode = config.mode;
    fmt = config.fmt;
    width = g.pool_w;
    height = g.pool_h;
    dest_x = g.dest_x;
    dest_y = g.dest_y;
    pool_depth = pos_part depth;
    lease_timeout_ns = config.lease_timeout_ns;
    pool = some pool;
    pool_ids = pool.buffer_ids;
    rgb_pool = none;
    nv12_stage = none;
    lease = probe_lease probe;
    slot_cursor = 0;
    in_flight = [];
    closed = false;
    published_any = false;
    eos_sent = false;
  }

  abbrev pub found_stream :
      List StreamStatus → Option StreamStatus → Result PublishError StreamStatus
  found_stream streams none = err (unknown_stream (known_streams streams))
  found_stream streams (some st) = ok st

  abbrev pub new_pool : Config → PoolGeometry → ℤ → Action W PublishError Pool
  new_pool config g depth =
      if str_eq config.fmt "argb"
      then import_shared_buffers g.pool_w g.pool_h config.fmt depth
      else alloc_buffers g.pool_w g.pool_h config.fmt depth

  -- A call whose failure is a value.
  abbrev pub attempt :
      {A : Type 0} → Action W PublishError A → Action W PublishError (Result PublishError A)
  attempt m w = let (r, w1) = m w in (ok r, w1)

  -- The constructor, with the depth as an int.
  unfoldable pub new_publisher : String → ℤ → Config → Action W PublishError FramePublisher
  unfolding validate_pool_depth validate_mode known_streams find_stream resolve_geometry
  new_publisher stream_id depth config = do
    lift (validate_pool_depth depth)
    lift (validate_mode config.mode)
    streams ← get_stream_status
    st ← lift (found_stream streams (find_stream streams stream_id))
    g ← lift (resolve_geometry st config.mode config.fmt config.inset config.dest)
    pool ← new_pool config g depth
    probe ← attempt injection_status
    return (publisher stream_id config g depth pool probe)

  abbrev pub Publish : Type 0 → Type 0
  Publish A = Action (FramePublisher × W) PublishError A

  unfoldable pub refresh_in_flight : Publish (Unit {0})
  unfolding set_from
  refresh_in_flight = do
    st ← call injection_status
    when st.reports_in_flight_buffers
        (update (λ p. record p { in_flight = set_from st.in_flight_buffer_ids }))

  unfoldable pub absorb_lease : InjectionResult → Publish (Unit {0})
  unfolding set_from
  absorb_lease res = do
    p ← this
    when p.lease (update (λ q. record q { in_flight = set_from res.in_flight_buffer_ids }))

  unfoldable pub legacy_slot : Publish ℕ
  legacy_slot = do
    p ← this
    update (λ q. record q { slot_cursor = (p.slot_cursor + 1) % p.pool_depth })
    return p.slot_cursor

  abbrev pub clock : Publish ℕ
  clock (p, w) = let (t, w1) = now_ns w in (ok t, (p, w1))

  abbrev pub sleep_for : ℕ → Publish (Unit {0})
  sleep_for ms (p, w) = (ok tt, (p, sleep_ms ms w))

  -- One round of the loop of acquire_slot_ids, with the slot that the rotation found.
  unfoldable pub take_or_poll : Option ℕ → ℕ → List ℕ → Publish ℕ → Publish ℕ
  unfolding refresh_in_flight
  take_or_poll (some slot) deadline ids next = do
    update (λ q. record q { slot_cursor = (slot + 1) % length ids })
    return slot
  take_or_poll none deadline ids next = do
    t ← clock
    p ← this
    throws_if (leb deadline t) (exhausted p.in_flight)
    refresh_in_flight
    sleep_for 10
    next

  -- The loop, with a bound on its polls.
  unfoldable pub acquire_before : ℕ → ℕ → List ℕ → Publish ℕ
  unfolding pick_free_slot take_or_poll
  acquire_before zero deadline ids = throw polling
  acquire_before (suc polls) deadline ids = do
    let next = acquire_before polls deadline ids
    p ← this
    take_or_poll (pick_free_slot p.slot_cursor ids (contains p.in_flight)) deadline ids next

  unfoldable pub acquire_slot_ids : ℕ → List ℕ → Publish ℕ
  unfolding acquire_before
  acquire_slot_ids polls ids = do
    t ← clock
    p ← this
    acquire_before polls (t + p.lease_timeout_ns) ids

  unfoldable pub next_slot : ℕ → Publish ℕ
  unfolding acquire_slot_ids legacy_slot
  next_slot polls = do p ← this; if p.lease then acquire_slot_ids polls p.pool_ids else legacy_slot
