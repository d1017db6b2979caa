-- ===== src/DspClient/Accounts/Exchange.antt =====
-- exchange_alloc, branch by branch: who has the descriptors of the response.
use neoruntime_sdks.Base.{
  ℕ, zero, suc, ◌*◌, ◌≡◌, refl, inl, inr, List, [], ◌∷◌, Option, none, some, Bool, true, false, not,
  ◌||◌, leb, ◌==◌, ◌-◌, take, drop, if◌then◌else◌, length, arith, Bool-cases, Result, ok, err,
}
use neoruntime_sdks.Media.{close_all, open_all}
use neoruntime_sdks.Media.Ledger.{count, closed_in-open_all, opened_in-open_all}
use neoruntime_sdks.Wire.Dsp.{DspError, AllocResp, alloc_request, parse_alloc_resp, alloc_resp_size}
use neoruntime_sdks.DspClient.{
  DspFailure, DspClient, Part, part, ended, timed_out, broke, after_part, left_of, Collected,
  collect, connect_next, ensure_on, ensure_sock, socket_closed, socket_error, no_response,
  wire_error, send_bytes,
}
use neoruntime_sdks.DspClient.Alloc.{
  is_zero_ℤ, Exchanged, checked_resp, parsed_resp, after_collect, read_resp, exchange_on,
  exchange_alloc,
}
use neoruntime_sdks.DspClient.Accounts.{Owes, close_planes-Owes, ensure_sock-Owes}

-- Whether an allocation ends before its response has been read and parsed.
abbrev pub breaks_off : DspFailure → Bool
breaks_off socket_closed = true
breaks_off socket_error = true
breaks_off no_response = true
breaks_off (wire_error e) = true
breaks_off _ = false

-- The descriptors that come with the response that is read next.
abbrev pub reply_fds : DspClient → List ℕ
reply_fds c = (collect socket_error alloc_resp_size c.incoming).fds

module _ (f : ℕ) where
  -- What an exchange leaves to its caller, or lost.
  abbrev pub Settles : DspClient → Exchanged → Type 0
  Settles start (ok (resp, fds), c) = Owes f (count f fds) c × (fds ≡ reply_fds start)
  Settles start (err e, c) = Owes f (if breaks_off e then count f (reply_fds start) else 0) c

  checked_resp-Settles :
      (start c : DspClient) (n : ℕ) (resp : AllocResp)
      → Owes f (count f (reply_fds start)) c
      → Settles start (checked_resp n (reply_fds start) resp c)
  checked_resp-Settles start c n resp h =
      let fds = reply_fds start in
      let closed : Owes f 0 (record c { log = close_all fds c.log }) =
        close_planes-Owes f 0 fds c (omega arith) in
      elim (Bool-cases (is_zero_ℤ resp.code)) [
        | inr e ↦ rw e closed
        | inl e ↦
            elim (Bool-cases (not (resp.count == n) || not (length fds == n * resp.num_planes))) [
              | inl e' ↦ rw (e, e') closed
              | inr e' ↦ rw (e, e') (h, refl)
            ]
      ]

  parsed_resp-Settles :
      (start c : DspClient) (n : ℕ) (r : Result DspError AllocResp)
      → Owes f (count f (reply_fds start)) c
      → Settles start (parsed_resp n (reply_fds start) r c)
  parsed_resp-Settles start c n (err e) h = h
  parsed_resp-Settles start c n (ok resp) h = checked_resp-Settles start c n resp h

failing-breaks_off :
    (d e : DspFailure) → breaks_off d ≡ true → some d ≡ some e → breaks_off e ≡ true
failing-breaks_off d e k h = cc

collect-breaks_off :
    (late : DspFailure) (n : ℕ) (es : List Part) (e : DspFailure)
    → breaks_off late ≡ true
    → (collect late n es).failure ≡ some e
    → breaks_off e ≡ true
unfolding collect
collect-breaks_off late zero es e l h = absurd cc
collect-breaks_off late (suc n) [] e l h = failing-breaks_off socket_closed e refl h
collect-breaks_off late (suc n) (ended ∷ es) e l h = failing-breaks_off socket_closed e refl h
collect-breaks_off late (suc n) (timed_out ∷ es) e l h = failing-breaks_off late e l h
collect-breaks_off late (suc n) (broke ∷ es) e l h = failing-breaks_off socket_error e refl h
collect-breaks_off late (suc n) (part b bs fs ∷ es) e l h = elim (Bool-cases (leb (length bs) n)) [
  | inl k ↦ collect-breaks_off late (n - length bs) es e l (taken (leb (length bs) n) k h)
  | inr k ↦ absurd (not_taken (leb (length bs) n) k h)
]
  where
    whole : Collected
    whole = record {
      failure = none;
      bytes = b ∷ take n bs;
      fds = fs;
      rest = left_of (drop n bs) es;
    }

    taken :
        (t : Bool)
        → t ≡ true
        → (if t then after_part (b ∷ bs) fs (collect late (n - length bs) es) else whole).failure
          ≡ some e
        → (collect late (n - length bs) es).failure ≡ some e
    taken true k h = h
    taken false k h = absurd cc

    not_taken :
        (t : Bool)
        → t ≡ false
        → (if t then after_part (b ∷ bs) fs (collect late (n - length bs) es) else whole).failure
          ≡ some e
        → ⊥
    not_taken true k h = absurd cc
    not_taken false k h = absurd cc

-- A connect that fails breaks nothing off.
abbrev Unbroken : Result DspFailure ℕ × DspClient → Type 0
Unbroken (ok fd, c) = Unit
Unbroken (err e, c) = breaks_off e ≡ false

connect_next-Unbroken :
    (ps : List (Option (ℕ × List Part))) (c : DspClient) → Unbroken (connect_next ps c)
connect_next-Unbroken [] c = refl
connect_next-Unbroken (none ∷ ps) c = refl
connect_next-Unbroken (some (fd, es) ∷ ps) c = tt

ensure_on-Unbroken : (o : Option ℕ) (c : DspClient) → Unbroken (ensure_on o c)
ensure_on-Unbroken (some fd) c = tt
ensure_on-Unbroken none c = connect_next-Unbroken c.connects c

module _ (f : ℕ) where
  after_collect-Settles :
      (start c : DspClient) (n : ℕ) (o : Option DspFailure)
      → (collect socket_error alloc_resp_size start.incoming).failure ≡ o
      → Owes f (count f (reply_fds start)) c
      → Settles f start (after_collect n o (collect socket_error alloc_resp_size start.incoming) c)
  after_collect-Settles start c n (some e) k h =
      let b : breaks_off e ≡ true =
        collect-breaks_off socket_error alloc_resp_size start.incoming e refl k in
      simp b h
  after_collect-Settles start c n none k h =
      parsed_resp-Settles f start c n
        (parse_alloc_resp (collect socket_error alloc_resp_size start.incoming).bytes) h

  read_resp-Settles :
      (n : ℕ) (b : Bool) (c : DspClient) → Owes f 0 c → Settles f c (read_resp n (b, c))
  read_resp-Settles n false c h = h
  read_resp-Settles n true c h =
      let r = collect socket_error alloc_resp_size c.incoming in
      after_collect-Settles c (record c { incoming = r.rest; log = open_all r.fds c.log }) n
        r.failure refl
        (omega (arith, opened_in-open_all f r.fds c.log, closed_in-open_all f r.fds c.log))

  exchange_on-Settles :
      (request : List ℕ) (n : ℕ) (r : Result DspFailure ℕ × DspClient)
      → Unbroken r
      → Owes f 0 r.1
      → Settles f r.1 (exchange_on request n r)
  exchange_on-Settles request n (ok fd, c) u h =
      read_resp-Settles n (send_bytes fd request c).0 (send_bytes fd request c).1 h
  exchange_on-Settles request n (err e, c) u h = simp u h

  -- With a client whose descriptors are all accounted for, exchange_alloc hands the descriptors of a
  -- good response to its caller and closes those of a response that is refused or does not fit; those
  -- that came before the socket failed, or with a response that cannot be parsed, stay open, with
  -- nobody to close them.
  pub exchange_alloc-Settles :
      (width height fmt_wire n : ℕ) (c : DspClient)
      → Owes f 0 c
      → Settles f (ensure_sock c).1 (exchange_alloc width height fmt_wire n c)
  unfolding exchange_alloc
  exchange_alloc-Settles width height fmt_wire n c h =
      exchange_on-Settles (alloc_request width height fmt_wire n) n (ensure_sock c)
        (ensure_on-Unbroken c.sock c) (ensure_sock-Owes f 0 c h)
