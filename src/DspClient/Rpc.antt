-- ===== src/DspClient/Rpc.antt =====
-- cpp/src/dsp.cpp: submit_job, wait_job and encode_rpc, with interp_wire, scaling_wire and
-- priority_wire of detail/dsp_wire.hpp. The daemon is what it replies; deadlines are left out.
use Prim.Native.String.{String}
use text.Mathlib.Text.{◌==◌ as str_eq}
use neoruntime_sdks.Base.{
  ℕ, ◌==◌, List, [], ◌∷◌, Option, none, some, Bool, true, false, not, ◌||◌, if◌then◌else◌, Result,
  ok, err, ◌>>=◌,
}
use neoruntime_sdks.Base.Int.{ℤ, pos, negsuc, to_u32}
use neoruntime_sdks.DspClient.{
  DspFailure, not_in_daemon, not_running, rpc_failed, job_failed, encode_failed, empty_jpeg,
  unsupported_interpolation, unsupported_scaling, unsupported_priority,
}

pub data RpcStatus : Type 0 where
  status_ok unimplemented other_status : RpcStatus

-- A status with a DspJobResponse.
pub record JobReply : Type 0 where
  pub status : RpcStatus
  pub success : Bool
  pub error_code : ℤ
  pub message : String
  pub job_id : ℕ
  pub elapsed_ms : ℕ

-- The code -5, kSvcUnavailable, and -4, kErrTimeout.
abbrev pub is_svc_unavailable : ℤ → Bool
is_svc_unavailable (pos n) = false
is_svc_unavailable (negsuc n) = n == 4

abbrev pub is_timeout : ℤ → Bool
is_timeout (pos n) = false
is_timeout (negsuc n) = n == 3

pub data Interpolation : Type 0 where
  nearest bilinear area bicubic : Interpolation

pub data ScalingMode : Type 0 where
  stretch letterbox_middle letterbox_up_left scale_and_crop : ScalingMode

pub data Priority : Type 0 where
  background normal : Priority

unfoldable pub interp_wire : String → Result DspFailure Interpolation
interp_wire s =
    if str_eq s "nearest"
    then ok nearest
    else if str_eq s "bilinear"
    then ok bilinear
    else if str_eq s "area"
    then ok area
    else if str_eq s "bicubic"
    then ok bicubic
    else err (unsupported_interpolation s)

unfoldable pub scaling_wire : String → Result DspFailure ScalingMode
scaling_wire s =
    if str_eq s "stretch"
    then ok stretch
    else if str_eq s "letterbox" || str_eq s "letterbox_middle"
    then ok letterbox_middle
    else if str_eq s "letterbox_up_left"
    then ok letterbox_up_left
    else if str_eq s "scale_crop"
    then ok scale_and_crop
    else err (unsupported_scaling s)

unfoldable pub priority_wire : String → Result DspFailure Priority
priority_wire s =
    if str_eq s "background"
    then ok background
    else if str_eq s "normal"
    then ok normal
    else err (unsupported_priority s)

-- A rectangle of a job: x, y, width, height, dst_width and dst_height.
pub record Rect (A : Type 0) : Type 0 where
  pub x : A
  pub y : A
  pub width : A
  pub height : A
  pub dst_width : A
  pub dst_height : A

abbrev pub rect_wire : Rect ℤ → Rect ℕ
rect_wire r = record {
  x = to_u32 r.x;
  y = to_u32 r.y;
  width = to_u32 r.width;
  height = to_u32 r.height;
  dst_width = to_u32 r.dst_width;
  dst_height = to_u32 r.dst_height;
}

abbrev pub rects_wire : List (Rect ℤ) → List (Rect ℕ)
rects_wire [] = []
rects_wire (r ∷ rs) = rect_wire r ∷ rects_wire rs

-- DspJobRequest.
pub record JobRequest : Type 0 where
  pub op : ℤ
  pub src_buffer_id : ℕ
  pub dst_buffer_ids : List ℕ
  pub rects : List (Rect ℕ)
  pub interpolation : Interpolation
  pub scaling_mode : ScalingMode
  pub priority : Priority

unfoldable pub job_request :
    ℤ → ℕ → List ℕ → List (Rect ℤ) → String → String → String → Result DspFailure JobRequest
unfolding interp_wire scaling_wire priority_wire
job_request op src_id dst_ids rects interpolation scaling priority = do
  i ← interp_wire interpolation
  s ← scaling_wire scaling
  p ← priority_wire priority
  ok (record {
    op = op;
    src_buffer_id = src_id;
    dst_buffer_ids = dst_ids;
    rects = rects_wire rects;
    interpolation = i;
    scaling_mode = s;
    priority = p;
  })

pub data JobRpc : Type 0 where
  submit_dsp_job submit_dsp_job_async : JobRequest → JobRpc

pub record SubmitResult : Type 0 where
  pub elapsed_ms : ℕ
  pub job_id : Option ℕ

abbrev pub job_verdict : Bool → JobReply → Result DspFailure SubmitResult
job_verdict shadowed reply =
    if not reply.success
    then (if is_svc_unavailable reply.error_code
        then err not_running
        else err (job_failed reply.message reply.error_code))
    else if shadowed
    then ok (record { elapsed_ms = 0; job_id = none })
    else ok (record { elapsed_ms = reply.elapsed_ms; job_id = none })

-- What follows the reply of SubmitDspJob.
abbrev pub after_sync : Bool → RpcStatus → JobReply → Result DspFailure SubmitResult
after_sync shadowed status_ok reply = job_verdict shadowed reply
after_sync shadowed unimplemented reply = err not_in_daemon
after_sync shadowed other_status reply = err rpc_failed

-- The reply to SubmitDspJobAsync; an old daemon runs the job at once instead.
abbrev pub after_async :
    RpcStatus → JobReply → JobReply → JobRequest → Result DspFailure SubmitResult × List JobRpc
after_async status_ok reply sync req =
    (ok (record { elapsed_ms = 0; job_id = some reply.job_id }), submit_dsp_job_async req ∷ [])
after_async unimplemented reply sync req =
    (after_sync true sync.status sync, submit_dsp_job_async req ∷ submit_dsp_job req ∷ [])
after_async other_status reply sync req = (err rpc_failed, submit_dsp_job_async req ∷ [])

abbrev pub submit_with :
    Bool
    → JobReply
    → JobReply
    → Result DspFailure JobRequest
    → Result DspFailure SubmitResult × List JobRpc
submit_with wait async sync (err e) = (err e, [])
submit_with wait async sync (ok req) =
    if wait
    then (after_sync false sync.status sync, submit_dsp_job req ∷ [])
    else after_async async.status async sync req

-- With the calls that it makes, the oldest first; `async` and `sync` are the daemon's replies to them.
unfoldable pub submit_job :
    Bool
    → JobReply
    → JobReply
    → ℤ
    → ℕ
    → List ℕ
    → List (Rect ℤ)
    → String
    → String
    → String
    → Result DspFailure SubmitResult × List JobRpc
unfolding job_request
submit_job wait async sync op src_id dst_ids rects interpolation scaling priority =
    submit_with wait async sync (job_request op src_id dst_ids rects interpolation scaling priority)

-- The job is done, it is pending still, or a throw.
pub data Answer : Type 0 where
  completes pends : Answer
  throws : DspFailure → Answer

abbrev pub wait_verdict : JobReply → Answer
wait_verdict reply =
    if not reply.success
    then (if is_timeout reply.error_code
        then pends
        else throws (job_failed reply.message reply.error_code))
    else completes

abbrev pub wait_on : RpcStatus → JobReply → Answer
wait_on status_ok reply = wait_verdict reply
wait_on unimplemented reply = throws not_in_daemon
wait_on other_status reply = throws rpc_failed

unfoldable pub wait_job : JobReply → Answer
wait_job reply = wait_on reply.status reply

-- A status with an EncodeImageResponse.
pub record EncodeReply : Type 0 where
  pub status : RpcStatus
  pub success : Bool
  pub error_code : ℤ
  pub message : String
  pub jpeg : List ℕ

abbrev pub not_empty : List ℕ → Result DspFailure (List ℕ)
not_empty [] = err empty_jpeg
not_empty (b ∷ bs) = ok (b ∷ bs)

abbrev pub encode_verdict : RpcStatus → EncodeReply → Result DspFailure (List ℕ)
encode_verdict status_ok reply =
    if not reply.success
    then (if is_svc_unavailable reply.error_code
        then err not_running
        else err (encode_failed reply.message reply.error_code))
    else not_empty reply.jpeg
encode_verdict unimplemented reply = err not_in_daemon
encode_verdict other_status reply = err rpc_failed

unfoldable pub encode_rpc : EncodeReply → Result DspFailure (List ℕ)
encode_rpc reply = encode_verdict reply.status reply
