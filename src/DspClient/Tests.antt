-- ===== src/DspClient/Tests.antt =====
-- A client whose socket breaks in the middle of a response, a job, and the theorems about them.
use neoruntime_sdks.Base.{none, List, ◌++◌, ◌≡◌, refl, [], ◌∷◌, some, true, false, ok}
use neoruntime_sdks.Base.Int.{pos, negsuc}
use neoruntime_sdks.Media.{Call, opened, closed_fd, sent}
use neoruntime_sdks.Media.Once.{logged}
use neoruntime_sdks.Wire.Dsp.Requests.{release_layout}
use neoruntime_sdks.Wire.Dsp.{Triple, hal_pixel_format}
use neoruntime_sdks.DspClient.{Part, part, broke, DspBufferPool, DspClient, ensure_sock, next_send}
use neoruntime_sdks.DspClient.Alloc.{exchange_alloc}
use neoruntime_sdks.DspClient.Import.{import_planes}
use neoruntime_sdks.DspClient.Rpc.{JobReply, status_ok, unimplemented, submit_job}
use neoruntime_sdks.DspClient.Fallback.{FallsBack, submit_job-FallsBack}
use neoruntime_sdks.DspClient.Shared.{Slot, Memory, import_shared_buffers}
use neoruntime_sdks.DspClient.Rollback.{Leaves}
use neoruntime_sdks.DspClient.Rollback.Slots.{Rolled, used, import_shared_buffers-Rolled}
use neoruntime_sdks.DspClient.Jobs.{owned_pool, imported, PendingDspJob, make_pending}
use neoruntime_sdks.DspClient.Accounts.{Owes}
use neoruntime_sdks.DspClient.Accounts.Calls.{
  releases_pool, destroys_pool, closes_client, call_pools, call_pools-Owes,
}
use neoruntime_sdks.DspClient.Accounts.Exchange.{Settles, exchange_alloc-Settles}
use neoruntime_sdks.DspClient.Drain.{timeout_in_force, import_planes_keeps_timeout}
use neoruntime_sdks.DspClient.Once.{
  polls, waits_result, releases_job, is_gone, call_all, job_releases_once,
}

abbrev no_sizes : Triple
no_sizes = record { first = 0; second = 0; third = 0 }

-- Eight bytes of a response with descriptor 21, and then an error.
abbrev breaking : DspClient
breaking = record {
  sock = some 7;
  incoming = part 8 (0 ∷ 0 ∷ 0 ∷ 48 ∷ 2 ∷ 0 ∷ 0 ∷ []) (21 ∷ []) ∷ broke ∷ [];
  connects = [];
  sends = [];
  pools = [];
  live_pools = [];
  log = opened 7 ∷ [];
}

exchange_alloc-Settles_example :
    Settles 21 (ensure_sock breaking).1 (exchange_alloc 64 64 8 1 breaking)
exchange_alloc-Settles_example = exchange_alloc-Settles 21 64 64 8 1 breaking refl

gray8_hal : hal_pixel_format "gray8" ≡ ok 8
unfolding hal_pixel_format
gray8_hal = refl

breaking_sock : (ensure_sock breaking).0 ≡ ok 7
unfolding ensure_sock
breaking_sock = refl

breaking_goes_through : (next_send (ensure_sock breaking).1.sends).0 ≡ true
unfolding ensure_sock
breaking_goes_through = refl

import_planes_keeps_timeout_example :
    timeout_in_force (import_planes 64 64 "gray8" 1 no_sizes no_sizes 5000 breaking).1.log
    ≡ some (7, 5000)
import_planes_keeps_timeout_example =
    import_planes_keeps_timeout 64 64 "gray8" 1 no_sizes no_sizes 4999 breaking 7 8 gray8_hal
      breaking_sock breaking_goes_through

abbrev pool : DspBufferPool
pool = record {
  width = pos 64;
  height = pos 64;
  fmt = "gray8";
  ids = 5 ∷ 6 ∷ [];
  plane_fds = 22 ∷ 23 ∷ [];
  strides = no_sizes;
  plane_sizes = no_sizes;
  released = false;
}

abbrev with_pool : DspClient
with_pool = record breaking { pools = pool ∷ []; live_pools = 0 ∷ [] }

abbrev holding : DspClient
holding = record with_pool { log = opened 23 ∷ opened 22 ∷ opened 7 ∷ [] }

call_pools-Owes_example :
    Owes 22 0 (call_pools (releases_pool 0 ∷ closes_client ∷ destroys_pool 0 ∷ []) holding)
call_pools-Owes_example =
    call_pools-Owes 22 0 (releases_pool 0 ∷ closes_client ∷ destroys_pool 0 ∷ []) holding refl

abbrev finished : JobReply
finished = record {
  status = status_ok;
  success = true;
  error_code = pos 0;
  message = "";
  job_id = 4;
  elapsed_ms = 3;
}

abbrev still_running : JobReply
still_running = record finished { success = false; error_code = negsuc 3 }

abbrev too_old : JobReply
too_old = record finished { status = unimplemented }

abbrev job : PendingDspJob
job =
    make_pending ((0, 0) ∷ []) (some 4) (owned_pool 0 ∷ imported 9 false ∷ []) false
      (still_running ∷ finished ∷ [])

job_is_open : is_gone job.state ≡ false
unfolding make_pending
job_is_open = refl

-- The daemon is told of the buffers 5 and 6, the planes 22 and 23 are closed, and then of the import 9.
abbrev given_back : List Call
given_back =
    sent 7 (release_layout 5)
    ∷ sent 7 (release_layout 6)
    ∷ closed_fd 22
    ∷ closed_fd 23
    ∷ sent 7 (release_layout 9)
    ∷ []

job_releases_once_example :
    ((call_all (polls ∷ waits_result ∷ releases_job ∷ releases_job ∷ []) (job, with_pool)).1.log
      ≡ logged given_back with_pool.log)
    × ((call_all (polls ∷ waits_result ∷ releases_job ∷ releases_job ∷ []) (job, with_pool)).1.pools
        ≡ record pool { released = true } ∷ [])
unfolding make_pending
job_releases_once_example =
    job_releases_once (polls ∷ waits_result ∷ releases_job ∷ releases_job ∷ []) job with_pool
      job_is_open

submit_job-FallsBack_example :
    FallsBack
      (submit_job false too_old finished (pos 1) 5 (6 ∷ []) [] "bilinear" "stretch" "normal")
      (submit_job true too_old finished (pos 1) 5 (6 ∷ []) [] "bilinear" "stretch" "normal")
submit_job-FallsBack_example =
    submit_job-FallsBack too_old finished (pos 1) 5 (6 ∷ []) [] "bilinear" "stretch" "normal" refl

-- The reply to an import, with the number 9, in two parts, and then another.
abbrev import_reply : List Part
import_reply =
    part 11 (0 ∷ 0 ∷ 0 ∷ 24 ∷ 0 ∷ 0 ∷ 0 ∷ []) []
    ∷ part 0 (0 ∷ 0 ∷ 0 ∷ 0 ∷ 0 ∷ 0 ∷ 0 ∷ 9 ∷ 0 ∷ 0 ∷ 0 ∷ 0 ∷ 0 ∷ 0 ∷ 0 ∷ []) []
    ∷ []

-- A second slot that cannot be mapped.
abbrev slots : List Slot
slots =
    record { memfd = some 30; truncates = true; mapping = some 500 }
    ∷ record { memfd = some 31; truncates = true; mapping = none }
    ∷ []

abbrev at_rest : Memory
at_rest = record {
  client = record breaking { incoming = import_reply ++ import_reply };
  map_log = [];
}

at_rest-Leaves : Leaves 30 500 0 0 at_rest
at_rest-Leaves = ((refl, ((refl, (refl, (refl, (refl, tt)))), tt)), refl)

import_shared_buffers-Rolled_example :
    Rolled 30 500 (import_shared_buffers (pos 64) (pos 64) "argb" 2 5000 slots at_rest)
    × Leaves 30 500 0 0
        (used 30 500 (import_shared_buffers (pos 64) (pos 64) "argb" 2 5000 slots at_rest))
import_shared_buffers-Rolled_example =
    import_shared_buffers-Rolled 30 500 (pos 64) (pos 64) "argb" 2 5000 slots at_rest at_rest-Leaves
