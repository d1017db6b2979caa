-- ===== src/DspClient/Drain.antt =====
-- import_planes and the timeout of the socket that it shares with the allocations.
use Prim.Native.String.{String}
use neoruntime_sdks.Base.{
  ℕ, zero, suc, ◌≡◌, refl, ap, ◌∙◌, List, [], ◌∷◌, Option, none, some, Bool, true, false, Result,
  ok, err,
}
use neoruntime_sdks.Media.{Call, closed_fd, opened, timeout_set, open_all, close_all}
use neoruntime_sdks.Wire.Dsp.{Triple, hal_pixel_format, import_request}
use neoruntime_sdks.DspClient.{
  DspFailure, no_response, DspClient, Collected, ensure_sock, next_send, send_bytes,
}
use neoruntime_sdks.DspClient.Import.{
  Imported, close_message, recv_one_msg, after_message, message_answer, answered, drain,
  set_recv_timeout, reset_timeout, await_import, import_on, import_planes,
}

-- The timeout that is in force: the newest that was set, with its socket.
abbrev pub timeout_in_force : List Call → Option (ℕ × ℕ)
timeout_in_force [] = none
timeout_in_force (timeout_set fd ms ∷ log) = some (fd, ms)
timeout_in_force (_ ∷ log) = timeout_in_force log

open_all-timeout :
    (fs : List ℕ) (log : List Call) → timeout_in_force (open_all fs log) ≡ timeout_in_force log
open_all-timeout [] log = refl
open_all-timeout (f ∷ fs) log = open_all-timeout fs (opened f ∷ log)

close_all-timeout :
    (fs : List ℕ) (log : List Call) → timeout_in_force (close_all fs log) ≡ timeout_in_force log
close_all-timeout [] log = refl
close_all-timeout (f ∷ fs) log = close_all-timeout fs (closed_fd f ∷ log)

close_message-timeout :
    (o : Option DspFailure) (fs : List ℕ) (log : List Call)
    → timeout_in_force (close_message o fs log) ≡ timeout_in_force log
close_message-timeout none fs log = close_all-timeout fs log
close_message-timeout (some no_response) fs log = close_all-timeout fs log
close_message-timeout (some _) fs log = refl

after_message-timeout :
    (m : Collected) (c : DspClient)
    → timeout_in_force (after_message m c).log ≡ timeout_in_force c.log
after_message-timeout m c =
    close_message-timeout m.failure m.fds (open_all m.fds c.log) ∙ open_all-timeout m.fds c.log

answered-timeout :
    (o : Option (Result DspFailure ℕ)) (c : DspClient) (next : Imported) (t : Option (ℕ × ℕ))
    → timeout_in_force c.log ≡ t
    → timeout_in_force next.1.log ≡ t
    → timeout_in_force (answered o c next).1.log ≡ t
answered-timeout (some r) c next t h k = h
answered-timeout none c next t h k = k

drain-timeout :
    (n : ℕ) (c : DspClient) → timeout_in_force (drain n c).1.log ≡ timeout_in_force c.log
unfolding drain
drain-timeout zero c = refl
drain-timeout (suc n) c =
    let m = recv_one_msg c in
    let c' = after_message m c in
    let h = after_message-timeout m c in
    answered-timeout (message_answer m) c' (drain n c') (timeout_in_force c.log) h
      (drain-timeout n c' ∙ h)

reset_timeout-timeout :
    (fd : ℕ) (r : Imported) → timeout_in_force (reset_timeout fd r).1.log ≡ timeout_in_force r.1.log
unfolding set_recv_timeout
reset_timeout-timeout fd (ok id, c) = refl
reset_timeout-timeout fd (err e, c) = refl

-- An import that gets as far as sending its message leaves the socket with the timeout of the import
-- in force, as the newest that was set, however it ends: no call sets it back to 0.
pub import_planes_keeps_timeout :
    (width height : ℕ) (fmt : String) (num_planes : ℕ) (strides sizes : Triple) (ms : ℕ)
    (c : DspClient) (fd fmt_wire : ℕ)
    → hal_pixel_format fmt ≡ ok fmt_wire
    → (ensure_sock c).0 ≡ ok fd
    → (next_send (ensure_sock c).1.sends).0 ≡ true
    → timeout_in_force (import_planes width height fmt num_planes strides sizes (suc ms) c).1.log
      ≡ some (fd, suc ms)
unfolding import_planes
import_planes_keeps_timeout width height fmt num_planes strides sizes ms c fd fmt_wire h k s =
    rw h (on_sock (ensure_sock c) k s)
  where
    request : List ℕ
    request = import_request width height fmt_wire num_planes strides sizes

    awaited :
        (g : ℕ) (b : Bool) (d : DspClient)
        → b ≡ true
        → timeout_in_force (await_import g (suc ms) (b, d)).1.log ≡ some (g, suc ms)
    awaited g false d e = absurd cc
    awaited g true d e =
        reset_timeout-timeout g (drain 64 (set_recv_timeout g (suc ms) d))
        ∙ drain-timeout 64 (set_recv_timeout g (suc ms) d)

    on_sock :
        (r : Result DspFailure ℕ × DspClient)
        → r.0 ≡ ok fd
        → (next_send r.1.sends).0 ≡ true
        → timeout_in_force (import_on request (suc ms) r).1.log ≡ some (fd, suc ms)
    on_sock (err e, d) p q = absurd cc
    on_sock (ok g, d) p q =
        let e : g ≡ fd = cc in
        awaited g (send_bytes g request d).0 (send_bytes g request d).1 q
        ∙ ap (λ (t : ℕ). some (t, suc ms)) e
