-- ===== src/Injection/Tests.antt =====
-- A small camera daemon for runs of FramePublisher and for the theorems about it. The state of the
-- daemon is the time in nanoseconds; it holds the buffers 11 and 12 until 30 ms have passed.
use neoruntime_sdks.Base.{
  ℕ, ◌+◌, ◌*◌, ◌≡◌, refl, [], ◌∷◌, none, some, true, false, ltb, if◌then◌else◌, ok, arith,
}
use neoruntime_sdks.Base.Int.{pos}
use neoruntime_sdks.Injection.{Mat, StreamStatus, pick_free_slot, pick_free_slot_from}
use neoruntime_sdks.Injection.Services.{FramePublisher, Services, Pool, set_from}
use neoruntime_sdks.Injection.Publisher.{
  acquire_slot_ids, acquire_before, take_or_poll, refresh_in_flight,
}
use neoruntime_sdks.Injection.Lease.{AcquiredIfOk, acquire_slot_ids-Acquired}
use neoruntime_sdks.Injection.Publish.{close}
use neoruntime_sdks.Injection.Closed.{AllRefuse, close-AllRefuse}
use neoruntime_sdks.Injection.Wait.{NotPolling, Ticks, acquire_slot_ids_ends}

abbrev main_stream : StreamStatus
main_stream = record { stream_id = "main"; has_encoder = true; width = 1920; height = 1080 }

abbrev ring : Pool
ring = record { shared = false; buffer_ids = 11 ∷ 12 ∷ []; stride0 = 1920 }

abbrev daemon : Services ℕ
daemon = record {
  get_stream_status = λ w. (ok (main_stream ∷ []), w);
  injection_status = λ w. (
    ok (record {
      in_flight_buffer_ids = if ltb w 30000000 then 11 ∷ 12 ∷ [] else 12 ∷ [];
      reports_in_flight_buffers = true;
    }),
    w,
  );
  push_frame = λ spec w. (ok (record { success = true; in_flight_buffer_ids = [] }), w);
  push_frame_stream = λ specs w. (ok (record { success = true; in_flight_buffer_ids = [] }), w);
  alloc_buffers = λ width height fmt depth w. (ok ring, w);
  import_shared_buffers = λ width height fmt depth w. (ok ring, w);
  write = λ pool index mat w. (ok tt, w);
  convert_hw = λ rgb pool stage w. (ok (none, true), w);
  release = λ pool w. w;
  now_ns = λ w. (w, w);
  sleep_ms = λ ms w. w + ms * 1000000;
}

abbrev publisher : FramePublisher
publisher = record {
  stream_id = "main";
  session_id = "";
  mode = "replace";
  fmt = "nv12";
  width = pos 1920;
  height = pos 1080;
  dest_x = pos 0;
  dest_y = pos 0;
  pool_depth = 2;
  lease_timeout_ns = 5000000000;
  pool = some ring;
  pool_ids = 11 ∷ 12 ∷ [];
  rgb_pool = none;
  nv12_stage = none;
  lease = true;
  slot_cursor = 1;
  in_flight = 11 ∷ 12 ∷ [];
  closed = false;
  published_any = true;
  eos_sent = false;
}

-- The first slot is free after three sleeps of 10 ms and one more look.
acquire_slot_ids_run : (acquire_slot_ids daemon 500 (11 ∷ 12 ∷ []) (publisher, 0)).0 ≡ ok 0
unfolding acquire_slot_ids acquire_before take_or_poll refresh_in_flight set_from pick_free_slot
    pick_free_slot_from
acquire_slot_ids_run = refl

acquire_slot_ids-Acquired_example :
    AcquiredIfOk daemon
      (11 ∷ 12 ∷ [])
      (11 ∷ 12 ∷ [])
      0
      (acquire_slot_ids daemon 500 (11 ∷ 12 ∷ []) (publisher, 0))
acquire_slot_ids-Acquired_example =
    acquire_slot_ids-Acquired daemon 500 (11 ∷ 12 ∷ []) publisher 0 (omega arith)

daemon-Ticks : Ticks daemon (λ w. w)
daemon-Ticks = record {
  now = λ w. refl;
  after_now = λ w. omega arith;
  after_status = λ w. omega arith;
  after_sleep = λ ms w. omega arith;
  status_not_polling = λ w. tt;
}

acquire_slot_ids_ends_example :
    NotPolling (acquire_slot_ids daemon 501 (11 ∷ 12 ∷ []) (publisher, 0)).0
acquire_slot_ids_ends_example =
    acquire_slot_ids_ends daemon (λ w. w) daemon-Ticks 500 (11 ∷ 12 ∷ []) publisher 0 (omega arith)

-- A tiny NV12 picture, of two rows of luma and one of chroma.
abbrev picture : Mat
picture = record {
  depth = 0;
  rows = pos 3;
  cols = pos 2;
  channels = pos 1;
  bytes = 16 ∷ 16 ∷ 16 ∷ 16 ∷ 128 ∷ 128 ∷ [];
}

close-AllRefuse_example :
    AllRefuse daemon 5 picture
      (picture ∷ [])
      7
      (7 ∷ [])
      true
      (pos 1)
      (close daemon (publisher, 0)).0
      (close daemon (publisher, 0)).1
close-AllRefuse_example =
    close-AllRefuse daemon 5 picture (picture ∷ []) 7 (7 ∷ []) true (pos 1) publisher 0
