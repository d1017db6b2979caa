-- ===== src/DspClient/Accounts/Plain.antt =====
-- import_planes on sockets whose messages carry no descriptors, as the replies to imports do not.
use Prim.Native.String.{String}
use neoruntime_sdks.Base.{
  ℕ, zero, suc, ◌-◌, ◌≡◌, refl, inl, inr, List, [], ◌∷◌, Option, none, some, Bool, true, false, ltb,
  leb, ◌||◌, ◌^◌, length, drop, Bool-cases, Result, ok, err,
}
use neoruntime_sdks.Wire.Words.{get_u32}
use neoruntime_sdks.Media.{Call}
use neoruntime_sdks.Wire.Dsp.{DspError, Triple, hal_pixel_format, import_request}
use neoruntime_sdks.DspClient.{
  DspFailure, no_response, DspClient, Part, part, ended, timed_out, broke, left_of, Collected,
  collect, connect_next, ensure_on, ensure_sock, send_bytes,
}
use neoruntime_sdks.DspClient.Import.{
  Imported, with_header, recv_one_msg, set_recv_timeout, is_late, close_message, after_message,
  message_answer, answered, drain, reset_timeout, await_import, import_on, import_with,
  import_planes,
}
use neoruntime_sdks.DspClient.Accounts.{Owes, ensure_sock-Owes}

abbrev pub PlainPart : Part → Type 0
PlainPart (part b bs fs) = fs ≡ []
PlainPart ended = Unit
PlainPart timed_out = Unit
PlainPart broke = Unit

abbrev pub PlainParts : List Part → Type 0
PlainParts [] = Unit
PlainParts (e ∷ es) = PlainPart e × PlainParts es

abbrev pub PlainConnects : List (Option (ℕ × List Part)) → Type 0
PlainConnects [] = Unit
PlainConnects (none ∷ ps) = PlainConnects ps
PlainConnects (some (fd, es) ∷ ps) = PlainParts es × PlainConnects ps

-- No message that is still to come carries a descriptor.
abbrev pub IsPlain : DspClient → Type 0
IsPlain c = PlainParts c.incoming × PlainConnects c.connects

abbrev PlainRead : Collected → Type 0
PlainRead r = (r.fds ≡ []) × PlainParts r.rest

left_of-PlainParts : (bs : List ℕ) (es : List Part) → PlainParts es → PlainParts (left_of bs es)
left_of-PlainParts [] es h = h
left_of-PlainParts (b ∷ bs) es h = (refl, h)

collect-PlainRead :
    (late : DspFailure) (n : ℕ) (es : List Part) → PlainParts es → PlainRead (collect late n es)
unfolding collect
collect-PlainRead late zero es h = (refl, h)
collect-PlainRead late (suc n) [] h = (refl, tt)
collect-PlainRead late (suc n) (ended ∷ es) h = (refl, h.1)
collect-PlainRead late (suc n) (timed_out ∷ es) h = (refl, h.1)
collect-PlainRead late (suc n) (broke ∷ es) h = (refl, h.1)
collect-PlainRead late (suc n) (part b bs fs ∷ es) h =
    let rest : PlainRead (collect late (n - length bs) es) =
      collect-PlainRead late (n - length bs) es h.1 in
    elim (Bool-cases (leb (length bs) n)) [
      | inl k ↦ rw (k, h.0) rest
      | inr k ↦ rw k (h.0, left_of-PlainParts (drop n bs) es h.1)
    ]

with_header-PlainRead : (h : Collected) → PlainRead h → PlainRead (with_header h)
with_header-PlainRead h (e, p) =
    let size = get_u32 h.bytes 4 in
    let body : PlainRead (collect no_response (size - 8) h.rest) =
      collect-PlainRead no_response (size - 8) h.rest p in
    elim (Bool-cases (ltb size 8 || ltb (2 ^ 20) size)) [
      | inl k ↦ rw k (e, p)
      | inr k ↦ rw (k, e, body.0) (refl, body.1)
    ]

headed-PlainRead :
    (h : Collected) (o : Option DspFailure)
    → PlainRead h
    → PlainRead (elim o [ none ↦ with_header h | some e ↦ h ])
headed-PlainRead h none p = with_header-PlainRead h p
headed-PlainRead h (some e) p = p

recv_one_msg-PlainRead : (c : DspClient) → PlainParts c.incoming → PlainRead (recv_one_msg c)
unfolding recv_one_msg
recv_one_msg-PlainRead c h =
    let head = collect no_response 8 c.incoming in
    headed-PlainRead head head.failure (collect-PlainRead no_response 8 c.incoming h)

close_none : (o : Option DspFailure) (log : List Call) → close_message o [] log ≡ log
close_none none log = refl
close_none (some e) log = elim (Bool-cases (is_late e)) [ inl k ↦ rw k refl | inr k ↦ rw k refl ]

module _ (f n : ℕ) where
  -- The client has its accounts, and no descriptor is to come.
  abbrev pub Settled : DspClient → Type 0
  Settled c = Owes f n c × IsPlain c

  after_message-Settled :
      (m : Collected) (c : DspClient) → PlainRead m → Settled c → Settled (after_message m c)
  after_message-Settled m c (e, p) (o, i) = rw (e, close_none m.failure c.log) (o, (p, i.1))

  answered-Settled :
      (o : Option (Result DspFailure ℕ)) (c : DspClient) (next : Imported)
      → Settled c
      → Settled next.1
      → Settled (answered o c next).1
  answered-Settled (some r) c next s t = s
  answered-Settled none c next s t = t

  drain-Settled : (k : ℕ) (c : DspClient) → Settled c → Settled (drain k c).1
  unfolding drain
  drain-Settled zero c h = h
  drain-Settled (suc k) c h =
      let m = recv_one_msg c in
      let s : Settled (after_message m c) =
        after_message-Settled m c (recv_one_msg-PlainRead c h.1.0) h in
      answered-Settled (message_answer m) (after_message m c) (drain k (after_message m c)) s
        (drain-Settled k (after_message m c) s)

  set_recv_timeout-Settled :
      (fd ms : ℕ) (c : DspClient) → Settled c → Settled (set_recv_timeout fd ms c)
  unfolding set_recv_timeout
  set_recv_timeout-Settled fd zero c h = h
  set_recv_timeout-Settled fd (suc ms) c h = h

  reset_timeout-Settled : (fd : ℕ) (r : Imported) → Settled r.1 → Settled (reset_timeout fd r).1
  unfolding set_recv_timeout
  reset_timeout-Settled fd (ok id, c) h = h
  reset_timeout-Settled fd (err e, c) h = h

  await_import-Settled :
      (fd ms : ℕ) (b : Bool) (c : DspClient) → Settled c → Settled (await_import fd ms (b, c)).1
  await_import-Settled fd ms false c h = h
  await_import-Settled fd ms true c h =
      reset_timeout-Settled fd (drain 64 (set_recv_timeout fd ms c))
        (drain-Settled 64 (set_recv_timeout fd ms c) (set_recv_timeout-Settled fd ms c h))

  connect_next-IsPlain :
      (ps : List (Option (ℕ × List Part))) (c : DspClient)
      → PlainConnects ps
      → IsPlain c
      → IsPlain (connect_next ps c).1
  connect_next-IsPlain [] c p i = i
  connect_next-IsPlain (none ∷ ps) c p i = (i.0, p)
  connect_next-IsPlain (some (fd, es) ∷ ps) c p i = p

  ensure_on-IsPlain : (o : Option ℕ) (c : DspClient) → IsPlain c → IsPlain (ensure_on o c).1
  ensure_on-IsPlain (some fd) c i = i
  ensure_on-IsPlain none c i = connect_next-IsPlain c.connects c i.1 i

  import_on-Settled :
      (payload : List ℕ) (ms : ℕ) (r : Result DspFailure ℕ × DspClient)
      → Settled r.1
      → Settled (import_on payload ms r).1
  import_on-Settled payload ms (err e, c) h = h
  import_on-Settled payload ms (ok fd, c) h =
      await_import-Settled fd ms (send_bytes fd payload c).0 (send_bytes fd payload c).1 h

  ensure_sock-Settled : (c : DspClient) → Settled c → Settled (ensure_sock c).1
  unfolding ensure_sock
  ensure_sock-Settled c (o, i) = (ensure_sock-Owes f n c o, ensure_on-IsPlain c.sock c i)

  pub import_planes-Settled :
      (width height : ℕ) (fmt : String) (num_planes : ℕ) (strides sizes : Triple) (ms : ℕ)
      (c : DspClient)
      → Settled c
      → Settled (import_planes width height fmt num_planes strides sizes ms c).1
  unfolding import_planes
  import_planes-Settled width height fmt num_planes strides sizes ms c h =
      by_format (hal_pixel_format fmt)
    where
      by_format :
          (r : Result DspError ℕ)
          → Settled (import_with width height num_planes strides sizes ms r c).1
      by_format (err e) = h
      by_format (ok fmt_wire) =
          import_on-Settled (import_request width height fmt_wire num_planes strides sizes) ms
            (ensure_sock c) (ensure_sock-Settled c h)
