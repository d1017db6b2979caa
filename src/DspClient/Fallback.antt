-- ===== src/DspClient/Fallback.antt =====
-- submit_job on a daemon without SubmitDspJobAsync, and the jobs made of its results.
use Prim.Native.String.{String}
use neoruntime_sdks.Base.{
  ℕ, ◌≡◌, refl, inl, inr, List, [], ◌∷◌, Option, Bool, true, false, Bool-cases, Result, ok, err,
}
use neoruntime_sdks.Base.Int.{ℤ}
use neoruntime_sdks.DspClient.{DspFailure}
use neoruntime_sdks.DspClient.Rpc.{
  RpcStatus, status_ok, unimplemented, other_status, JobReply, Rect, JobRequest, job_request,
  JobRpc, submit_dsp_job, submit_dsp_job_async, SubmitResult, is_svc_unavailable, job_verdict,
  after_sync, submit_with, submit_job,
}
use neoruntime_sdks.DspClient.Jobs.{JobState, is_done, Ownee, make_pending}

-- Whether a job was accepted, and with which number: the time that it took is left out.
abbrev pub numbered : Result DspFailure SubmitResult → Result DspFailure (Option ℕ)
numbered (err e) = err e
numbered (ok r) = ok r.job_id

-- Before each call that runs a job at once, the call that was to start it.
abbrev pub started_before : List JobRpc → List JobRpc
started_before [] = []
started_before (submit_dsp_job req ∷ calls) =
    submit_dsp_job_async req ∷ submit_dsp_job req ∷ started_before calls
started_before (submit_dsp_job_async req ∷ calls) = submit_dsp_job_async req ∷ started_before calls

-- The state of the handle that is made of a result.
abbrev pub Starts : JobState → Result DspFailure SubmitResult → Type 0
Starts s (err e) = Unit
Starts s (ok r) =
    (reads : List (ℕ × ℕ)) (owns : List Ownee) (multi : Bool) (answers : List JobReply)
    → (make_pending reads r.job_id owns multi answers).state ≡ s

job_verdict-numbered :
    (reply : JobReply) → numbered (job_verdict true reply) ≡ numbered (job_verdict false reply)
job_verdict-numbered reply = elim (Bool-cases reply.success) [
  | inl k ↦ rw k refl
  | inr k ↦ elim (Bool-cases (is_svc_unavailable reply.error_code)) [
    | inl k' ↦ rw (k, k') refl
    | inr k' ↦ rw (k, k') refl
  ]
]

job_verdict-Starts : (reply : JobReply) → Starts is_done (job_verdict true reply)
unfolding make_pending
job_verdict-Starts reply = elim (Bool-cases reply.success) [
  | inl k ↦ rw k (λ reads owns multi answers. refl)
  | inr k ↦ elim (Bool-cases (is_svc_unavailable reply.error_code)) [
    | inl k' ↦ rw (k, k') tt
    | inr k' ↦ rw (k, k') tt
  ]
]

after_sync-numbered :
    (s : RpcStatus) (reply : JobReply)
    → numbered (after_sync true s reply) ≡ numbered (after_sync false s reply)
after_sync-numbered status_ok reply = job_verdict-numbered reply
after_sync-numbered unimplemented reply = refl
after_sync-numbered other_status reply = refl

after_sync-Starts : (s : RpcStatus) (reply : JobReply) → Starts is_done (after_sync true s reply)
after_sync-Starts status_ok reply = job_verdict-Starts reply
after_sync-Starts unimplemented reply = tt
after_sync-Starts other_status reply = tt

-- What a daemon without the call does to a job that is not waited for.
abbrev pub FallsBack :
    Result DspFailure SubmitResult × List JobRpc
    → Result DspFailure SubmitResult × List JobRpc
    → Type 0
FallsBack (r, calls) (r', calls') =
    (numbered r ≡ numbered r') × (calls ≡ started_before calls') × Starts is_done r

submit_with-FallsBack :
    (async sync : JobReply) (req : Result DspFailure JobRequest)
    → async.status ≡ unimplemented
    → FallsBack (submit_with false async sync req) (submit_with true async sync req)
submit_with-FallsBack async sync (err e) k = (refl, refl, tt)
submit_with-FallsBack async sync (ok req) k =
    rw k (after_sync-numbered sync.status sync, refl, after_sync-Starts sync.status sync)

-- On a daemon that does not have SubmitDspJobAsync, whatever the job is and whatever SubmitDspJob
-- replies: a job that is not waited for is accepted, or fails with the same error, as one that is; the
-- daemon gets the same request, first by the call that it does not have; and the handle made of the
-- result is done from the start, for the job has run.
pub submit_job-FallsBack :
    (async sync : JobReply) (op : ℤ) (src_id : ℕ) (dst_ids : List ℕ) (rects : List (Rect ℤ))
    (interpolation scaling priority : String)
    → async.status ≡ unimplemented
    → FallsBack
        (submit_job false async sync op src_id dst_ids rects interpolation scaling priority)
        (submit_job true async sync op src_id dst_ids rects interpolation scaling priority)
unfolding submit_job
submit_job-FallsBack async sync op src_id dst_ids rects interpolation scaling priority k =
    submit_with-FallsBack async sync
      (job_request op src_id dst_ids rects interpolation scaling priority) k
