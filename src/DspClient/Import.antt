-- ===== src/DspClient/Import.antt =====
-- cpp/src/dsp.cpp: recv_one_msg and import_planes, with set_recv_timeout of detail/raw_socket.hpp.
use Prim.Native.String.{String}
use neoruntime_sdks.Base.{
  ℕ, zero, suc, ◌-◌, ◌^◌, List, ◌∷◌, ◌++◌, Option, none, some, Bool, true, false, ◌||◌, ltb, ◌==◌,
  if◌then◌else◌, Result, ok, err,
}
use neoruntime_sdks.Wire.Words.{get_u32}
use neoruntime_sdks.Media.{Call, timeout_set, open_all, close_all}
use neoruntime_sdks.Wire.Dsp.{
  DspError, Triple, ImportResp, msg_dsp_import_resp, hal_pixel_format, import_request,
  parse_import_resp,
}
use neoruntime_sdks.DspClient.{
  DspFailure, no_response, send_failed, wire_error, refused_code, corrupt_header, unexpected_type,
  too_many_controls, DspClient, Collected, collect, ensure_sock, send_bytes,
}
use neoruntime_sdks.DspClient.Alloc.{is_zero_ℤ}

-- A message with its header, or how the reads failed; no_response is the flag would_block.
abbrev pub with_header : Collected → Collected
with_header h =
    let size = get_u32 h.bytes 4 in
    let body = collect no_response (size - 8) h.rest in
    let whole = record body { bytes = h.bytes ++ body.bytes; fds = h.fds ++ body.fds } in
    if ltb size 8 || ltb (2 ^ 20) size
    then record h { failure = some (corrupt_header size) }
    else whole

unfoldable pub recv_one_msg : DspClient → Collected
unfolding collect
recv_one_msg c =
    let h = collect no_response 8 c.incoming in elim h.failure [ none ↦ with_header h | some e ↦ h ]

-- A timeout of 0 or less is not set.
unfoldable pub set_recv_timeout : ℕ → ℕ → DspClient → DspClient
set_recv_timeout fd zero c = c
set_recv_timeout fd (suc ms) c = record c { log = timeout_set fd (suc ms) ∷ c.log }

abbrev pub Imported : Type 0
Imported = Result DspFailure ℕ × DspClient

-- The flag would_block.
abbrev pub is_late : DspFailure → Bool
is_late no_response = true
is_late _ = false

-- The descriptors of a message that has come whole, or timed out, are closed.
abbrev pub close_message : Option DspFailure → List ℕ → List Call → List Call
close_message none fds log = close_all fds log
close_message (some e) fds log = if is_late e then close_all fds log else log

abbrev pub after_message : Collected → DspClient → DspClient
after_message m c = record c {
  incoming = m.rest;
  log = close_message m.failure m.fds (open_all m.fds c.log);
}

abbrev pub import_answer : Result DspError ImportResp → Result DspFailure ℕ
import_answer (err e) = err (wire_error e)
import_answer (ok resp) =
    if is_zero_ℤ resp.code then ok resp.import_id else err (refused_code resp.code)

-- What a round of the loop comes to: another one for a control message, a return, or a throw.
abbrev pub message_answer : Collected → Option (Result DspFailure ℕ)
message_answer m = elim m.failure [
  | some e ↦ some (err e)
  | none ↦
      let mtype = get_u32 m.bytes 0 in
      if mtype == msg_dsp_import_resp
      then some (import_answer (parse_import_resp m.bytes))
      else if (mtype == 5) || (mtype == 6)
      then none
      else some (err (unexpected_type mtype))
]

abbrev pub answered : Option (Result DspFailure ℕ) → DspClient → Imported → Imported
answered (some r) c next = (r, c)
answered none c next = next

-- The loop with the rounds left.
unfoldable pub drain : ℕ → DspClient → Imported
unfolding recv_one_msg
drain zero c = (err too_many_controls, c)
drain (suc n) c =
    let m = recv_one_msg c in
    let c' = after_message m c in let next = drain n c' in answered (message_answer m) c' next

-- The timeout is set back to 0 after a throw, and after 64 control messages.
abbrev pub reset_timeout : ℕ → Imported → Imported
reset_timeout fd (ok id, c) = (ok id, c)
reset_timeout fd (err e, c) = (err e, set_recv_timeout fd 0 c)

abbrev pub await_import : ℕ → ℕ → Bool × DspClient → Imported
await_import fd timeout_ms (false, c) = (err send_failed, c)
await_import fd timeout_ms (true, c) =
    reset_timeout fd (drain 64 (set_recv_timeout fd timeout_ms c))

abbrev pub import_on : List ℕ → ℕ → Result DspFailure ℕ × DspClient → Imported
import_on payload timeout_ms (err e, c) = (err e, c)
import_on payload timeout_ms (ok fd, c) = await_import fd timeout_ms (send_bytes fd payload c)

abbrev pub import_with : ℕ → ℕ → ℕ → Triple → Triple → ℕ → Result DspError ℕ → DspClient → Imported
import_with width height num_planes strides sizes timeout_ms (err e) c = (err (wire_error e), c)
import_with width height num_planes strides sizes timeout_ms (ok fmt_wire) c =
    import_on (import_request width height fmt_wire num_planes strides sizes) timeout_ms
      (ensure_sock c)

-- The descriptors that go with the message stay the caller's. The timeout is in milliseconds.
unfoldable pub import_planes : ℕ → ℕ → String → ℕ → Triple → Triple → ℕ → DspClient → Imported
unfolding drain set_recv_timeout ensure_sock
import_planes width height fmt num_planes strides sizes timeout_ms c =
    import_with width height num_planes strides sizes timeout_ms (hal_pixel_format fmt) c
