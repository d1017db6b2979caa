-- ===== src/DspClient/Jobs.antt =====
-- cpp/src/dsp.cpp: PendingDspJob, with what it owns. The gRPC calls are what WaitDspJob answers, one
-- after the other; after the last answer the call fails. wait and wait_all, which read the planes of
-- a pool, are left out.
use neoruntime_sdks.Base.{ℕ, List, [], ◌∷◌, Option, none, some, Bool, true, false, Result, ok, err}
use neoruntime_sdks.DspClient.{
  DspFailure, already_released, still_pending, rpc_failed, DspClient, send_release,
}
use neoruntime_sdks.DspClient.Pools.{release_pool}
use neoruntime_sdks.DspClient.Rpc.{JobReply, Answer, completes, pends, throws, wait_job}

pub data JobState : Type 0 where
  pending is_done job_released : JobState

-- `imported` has its flag `done`.
pub data Ownee : Type 0 where
  owned_pool : ℕ → Ownee
  imported : ℕ → Bool → Ownee

pub record PendingDspJob : Type 0 where
  pub reads : List (ℕ × ℕ)
  pub owns : List Ownee
  pub multi : Bool
  pub job_id : Option ℕ
  pub state : JobState
  pub error : Option DspFailure
  pub answers : List JobReply

-- make_pending: without a job id, the job has already run.
unfoldable pub make_pending :
    List (ℕ × ℕ) → Option ℕ → List Ownee → Bool → List JobReply → PendingDspJob
make_pending reads job_id owns multi answers = record {
  reads = reads;
  owns = owns;
  multi = multi;
  job_id = job_id;
  state = elim job_id [ some id ↦ pending | none ↦ is_done ];
  error = none;
  answers = answers;
}

abbrev pub next_answer : List JobReply → Answer × List JobReply
next_answer [] = (throws rpc_failed, [])
next_answer (reply ∷ rest) = (wait_job reply, rest)

abbrev pub wait_one : PendingDspJob → Answer × PendingDspJob
wait_one job = let (a, rest) = next_answer job.answers in (a, record job { answers = rest })

abbrev pub done_on : Answer × PendingDspJob → Bool × PendingDspJob
done_on (completes, job) = (true, record job { state = is_done })
done_on (pends, job) = (false, job)
done_on (throws e, job) = (true, record job { state = is_done; error = some e })

abbrev pub done_in : JobState → PendingDspJob → Bool × PendingDspJob
done_in pending job = done_on (wait_one job)
done_in is_done job = (true, job)
done_in job_released job = (false, job)

unfoldable pub done : PendingDspJob → Bool × PendingDspJob
done job = done_in job.state job

abbrev pub raise_error :
    Option DspFailure → PendingDspJob → Result DspFailure (Unit {0}) × PendingDspJob
raise_error none job = (ok tt, job)
raise_error (some e) job = (err e, job)

-- A throw of the call leaves the job pending.
abbrev pub waited : Answer × PendingDspJob → Result DspFailure (Unit {0}) × PendingDspJob
waited (completes, job) = raise_error job.error (record job { state = is_done })
waited (pends, job) = (err still_pending, job)
waited (throws e, job) = (err e, job)

abbrev pub wait_in : JobState → PendingDspJob → Result DspFailure (Unit {0}) × PendingDspJob
wait_in pending job = waited (wait_one job)
wait_in is_done job = raise_error job.error job
wait_in job_released job = (err already_released, job)

unfoldable pub wait_result : PendingDspJob → Result DspFailure (Unit {0}) × PendingDspJob
wait_result job = wait_in job.state job

abbrev pub release_ownee : Ownee → DspClient → DspClient
release_ownee (owned_pool j) c = release_pool j c
release_ownee (imported id true) c = c
release_ownee (imported id false) c = send_release id c

unfoldable pub release_owned : List Ownee → DspClient → DspClient
unfolding release_pool send_release
release_owned [] c = c
release_owned (o ∷ os) c = release_owned os (release_ownee o c)

abbrev pub finish_release : PendingDspJob × DspClient → PendingDspJob × DspClient
finish_release (job, c) =
    (record job { state = job_released; owns = []; reads = [] }, release_owned job.owns c)

-- A pending job is waited for once, whatever comes of it.
abbrev pub release_in : JobState → PendingDspJob → DspClient → PendingDspJob × DspClient
release_in pending job c = finish_release ((wait_one job).1, c)
release_in is_done job c = finish_release (job, c)
release_in job_released job c = (job, c)

-- PendingDspJob::release, which the destructor calls.
unfoldable pub release_job : PendingDspJob → DspClient → PendingDspJob × DspClient
unfolding release_owned
release_job job c = release_in job.state job c
