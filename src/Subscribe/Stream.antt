-- ===== src/Subscribe/Stream.antt =====
-- InferenceStream of src/inference.cpp (next, cancel, close) and the pump of
-- InferenceClient::subscribe. A response is what the service sent with the parsed result; the clock
-- that next() reads for it stands beside it.
pub mod Drain
pub mod Pump
pub mod Trips
use Prim.Native.String.{String}
use neoruntime_sdks.Base.{
  ℕ, zero, suc, ◌+◌, ◌≡◌, List, [], ◌∷◌, ◌++◌, map, Bool, true, false, ◌&&◌, if◌then◌else◌, Option,
  none, some,
}
use neoruntime_sdks.Base.Int.{ℤ, pos, ◌-ℤ◌, ltb_ℤ}
use neoruntime_sdks.Base.Double.{Double}
use neoruntime_sdks.Subscribe.Queue.{BoundedDropOldestQueue, offer, empty}
use neoruntime_sdks.Subscribe.Limiter.{ConsecutiveFailureLimiter, fresh, note_failure, note_success}

pub record Response (R : Type 0) : Type 0 where
  pub wall_ns : ℤ
  pub timestamp_ns : ℤ
  pub skew_us : ℤ
  pub success : Bool
  pub message : String
  pub frame_sequence : ℕ
  pub result : R

-- StreamItem: kResponse, kError and kEnd.
pub data Item (R : Type 0) : Type 0 where
  response : Response R → Item R
  error : String → Item R
  end : Item R

-- The texts of the runtime_error that next() throws, with the values that are printed in them.
pub data StreamError : Type 0 where
  stream_error : String → StreamError
  consecutive_failures : (count frame_sequence : ℕ) (message : String) → StreamError

-- What a call of next() does: `waits` blocks in take() until an item is offered.
pub data Next (R : Type 0) : Type 0 where
  waits : Next R
  ended : Next R
  throws : StreamError → Next R
  returns : ℕ → R → Next R

module _ (double : Double) where
  open double use {D}

  unfoldable pub ema_update : D → D → D
  ema_update value sample =
      if double.eq value (double.of_ℤ (pos 0))
      then sample
      else double.add value (double.mul (double.decimal 1 1) (double.sub sample value))

  unfoldable pub sane_latency_ms : D → Bool
  sane_latency_ms ms = double.lt (double.of_ℤ (pos 0)) ms && double.lt ms (double.of_ℤ (pos 60000))

  pub record Telemetry : Type 0 where
    pub last_latency_ms : D
    pub latency_ema : D
    pub last_skew_us : ℤ
    pub skew_ema : D

  pub record Stream (R : Type 0) : Type 0 where
    pub queue : BoundedDropOldestQueue (Item R)
    pub limiter : ConsecutiveFailureLimiter
    pub telemetry : Telemetry
    -- ended_ and cancel_once.
    pub ended_flag : Bool
    pub cancelled : Bool

  -- `nullopt` and 0 disable either bound.
  unfoldable pub subscribe : (R : Type 0) → Option ℕ → Option ℕ → Stream R
  unfolding empty fresh
  subscribe R max_consecutive_failures queue_size = record {
    queue = empty (Item R) (elim queue_size [ none ↦ 0 | some n ↦ n ]);
    limiter = fresh (elim max_consecutive_failures [ none ↦ 0 | some n ↦ n ]);
    telemetry = record {
      last_latency_ms = double.of_ℤ (pos 0);
      latency_ema = double.of_ℤ (pos 0);
      last_skew_us = pos 0;
      skew_ema = double.of_ℤ (pos 0);
    };
    ended_flag = false;
    cancelled = false;
  }

module _ (double : Double) where
  note_latency : double.D → Telemetry double → Telemetry double
  note_latency ms t =
      if sane_latency_ms double ms
      then record t { last_latency_ms = ms; latency_ema = ema_update double t.latency_ema ms }
      else t

  note_skew : ℤ → Telemetry double → Telemetry double
  note_skew skew_us t =
      if ltb_ℤ (pos 0) skew_us
      then record t {
        last_skew_us = skew_us;
        skew_ema = ema_update double t.skew_ema (double.of_ℤ skew_us);
      }
      else t

module _ (double : Double) {R : Type 0} where
  -- The telemetry that next() takes of a response, before it looks at the status.
  pub note_telemetry : Response R → Telemetry double → Telemetry double
  unfolding note_latency note_skew
  note_telemetry r t = note_skew double r.skew_us (
      note_latency double
        (double.div (double.of_ℤ (r.wall_ns -ℤ r.timestamp_ns)) (double.decimal 1000000 0)) t)

  pub failure_error : ConsecutiveFailureLimiter → Response R → StreamError
  failure_error l r = consecutive_failures l.count r.frame_sequence r.message

  -- The loop of next() over the items that are queued; `s` is the stream without them.
  pub next_items : List (Item R) → Stream double R → Next R × Stream double R
  unfolding note_telemetry failure_error
  next_items [] s = (waits, record s { queue = record s.queue { items = [] } })
  next_items (end ∷ items) s =
      (ended, record s { queue = record s.queue { items = items }; ended_flag = true })
  next_items (error e ∷ items) s = (
    throws (stream_error e),
    record s { queue = record s.queue { items = items }; ended_flag = true },
  )
  next_items (response r ∷ items) s =
      let (tripped, l) = note_failure s.limiter in
      let t = note_telemetry r s.telemetry in
      let skipped = next_items items (record s { limiter = l; telemetry = t }) in
      if r.success
      then (
        returns r.frame_sequence r.result,
        record s {
          queue = record s.queue { items = items };
          limiter = note_success s.limiter;
          telemetry = t;
        },
      )
      else if tripped
      then (
        throws (failure_error l r),
        record s {
          queue = record s.queue { items = items };
          limiter = l;
          telemetry = t;
          ended_flag = true;
        },
      )
      else skipped

  pub next : Stream double R → Next R × Stream double R
  next s = if s.ended_flag then (ended, s) else next_items s.queue.items s

  -- The first cancel offers an end, to wake a consumer; later ones do nothing.
  pub cancel : Stream double R → Stream double R
  cancel s = if s.cancelled then s else record s { queue = offer end s.queue; cancelled = true }

  pub close : Stream double R → Stream double R
  unfolding cancel
  close s = cancel (record s { ended_flag = true })

  -- The pump after the service has sent `rs`: the terminal item goes last. The status of the call is
  -- `none` for a clean end and for a cancelled call.
  pub pump : List (Response R) → Option String → Stream double R → Stream double R
  pump [] none s = record s { queue = offer end s.queue }
  pump [] (some e) s = record s { queue = offer (error e) s.queue }
  pump (r ∷ rs) status s = pump rs status (record s { queue = offer (response r) s.queue })
