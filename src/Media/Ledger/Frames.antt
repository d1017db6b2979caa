-- ===== src/Media/Ledger/Frames.antt =====
-- The count of descriptors as frames are received, in either mode.
use neoruntime_sdks.Base.{
  ℕ, zero, suc, ◌+◌, ◌≡◌, refl, inl, inr, List, [], ◌∷◌, Option, none, some, Bool, true, false, leb,
  get_elem?, arith, Bool-cases, Option-cases, Result, ok, err,
}
use neoruntime_sdks.Media.{
  Call, MediaError, Client, StreamSock, Recv, eof, again, failed_read, message, is_frame, close_all,
  open_all, frame_id_of, fd_max_attempts,
}
use neoruntime_sdks.Media.Pixels.{Platform, Mat}
use neoruntime_sdks.Media.Handles.{register_retained}
use neoruntime_sdks.Media.Receive.{
  Received, got, nothing, lost, Reading, recv_loop, read_sock, handle_of, retain, pixels, copied,
  take_frame, after_loop, after_reading, recv_from, recv_frame, set_timeout_on, set_recv_timeout,
}
use neoruntime_sdks.Media.Ledger.{
  BalancedAt, total-set, total-append, sock_holds, handle_holds, opened_in, closed_in, count, total,
  closed_in-close_all, opened_in-close_all, closed_in-open_all, opened_in-open_all,
  release_on_sock-BalancedAt,
}

module _ (f : ℕ) where
  -- The descriptors that a reading leaves open: those of a frame.
  abbrev left_open : Received → ℕ
  left_open (got bytes fds) = count f fds
  left_open nothing = 0
  left_open (lost e) = 0

  abbrev Counted : List Call → Reading → Type 0
  Counted log r =
      opened_in f r.calls + closed_in f log
      ≡ left_open r.outcome + closed_in f r.calls + opened_in f log

  recv_loop-Counted :
      (n eofs : ℕ) (es : List Recv) (log : List Call) → Counted log (recv_loop n eofs es log)
  unfolding recv_loop
  recv_loop-Counted zero eofs es log = omega arith
  recv_loop-Counted (suc n) eofs [] log = elim (Bool-cases (leb 3 (eofs + 1))) [
    | inl e ↦ rw e (omega arith)
    | inr e ↦ rw e (recv_loop-Counted n (eofs + 1) [] log)
  ]
  recv_loop-Counted (suc n) eofs (eof ∷ es) log = elim (Bool-cases (leb 3 (eofs + 1))) [
    | inl e ↦ rw e (omega arith)
    | inr e ↦ rw e (recv_loop-Counted n (eofs + 1) es log)
  ]
  recv_loop-Counted (suc n) eofs (again ∷ es) log = omega arith
  recv_loop-Counted (suc n) eofs (failed_read ∷ es) log = omega arith
  recv_loop-Counted (suc n) eofs (message [] fds ∷ es) log = elim (Bool-cases (leb 3 (eofs + 1))) [
    | inl e ↦ rw e (omega arith)
    | inr e ↦ rw e (recv_loop-Counted n (eofs + 1) es log)
  ]
  recv_loop-Counted (suc n) eofs (message (b ∷ bs) fds ∷ es) log =
      elim (Bool-cases (is_frame (b ∷ bs))) [
        | inl e ↦ rw e (omega (arith, closed_in-open_all f fds log, opened_in-open_all f fds log))
        | inr e ↦ rw e (
            omega (
              arith,
              recv_loop-Counted n eofs es (close_all fds (open_all fds log)),
              closed_in-close_all f fds (open_all fds log),
              opened_in-close_all f fds (open_all fds log),
              closed_in-open_all f fds log,
              opened_in-open_all f fds log,
            ))
      ]

  read_sock-Counted :
      (o : Option ℕ) (es : List Recv) (log : List Call) → Counted log (read_sock o es log)
  read_sock-Counted none es log = omega arith
  read_sock-Counted (some g) es log = recv_loop-Counted fd_max_attempts 0 es log

  -- The count while a frame's descriptors are in the hands of recv_frame.
  abbrev Owing : ℕ → Client → Type 0
  Owing n c =
      opened_in f c.log
      ≡ n + closed_in f c.log + total (handle_holds f) c.handles + total (sock_holds f) c.socks

  retain-BalancedAt :
      (i : ℕ) (bytes fds : List ℕ) (c : Client)
      → Owing (count f fds) c
      → BalancedAt f (retain i bytes fds c).1
  unfolding retain register_retained
  retain-BalancedAt i bytes fds c b =
      omega (arith, total-append (handle_holds f) c.handles (handle_of bytes fds (some i) ∷ []))

  close_planes-BalancedAt :
      (fds : List ℕ) (c : Client)
      → Owing (count f fds) c
      → BalancedAt f (record c { log = close_all fds c.log })
  close_planes-BalancedAt fds c b =
      omega (arith, closed_in-close_all f fds c.log, opened_in-close_all f fds c.log)

  copied-BalancedAt :
      (i : ℕ) (bytes fds : List ℕ) (r : Result MediaError Mat) (c : Client)
      → Owing (count f fds) c
      → BalancedAt f (copied i bytes fds r c).1
  copied-BalancedAt i bytes fds (err e) c b = close_planes-BalancedAt fds c b
  copied-BalancedAt i bytes fds (ok image) c b =
      release_on_sock-BalancedAt f i (frame_id_of bytes) (record c { log = close_all fds c.log })
        (close_planes-BalancedAt fds c b)

  take_frame-BalancedAt :
      (os : Platform) (keep : Bool) (i : ℕ) (bytes fds : List ℕ) (c : Client)
      → Owing (count f fds) c
      → BalancedAt f (take_frame os keep i bytes fds c).1
  take_frame-BalancedAt os keep i bytes [] c b =
      release_on_sock-BalancedAt f i (frame_id_of bytes) c (omega arith)
  take_frame-BalancedAt os true i bytes (g ∷ gs) c b = retain-BalancedAt i bytes (g ∷ gs) c b
  take_frame-BalancedAt os false i bytes (g ∷ gs) c b =
      copied-BalancedAt i bytes (g ∷ gs) (pixels os bytes (g ∷ gs)) c b

  after_loop-BalancedAt :
      (os : Platform) (keep : Bool) (i : ℕ) (r : Received) (c : Client)
      → Owing (left_open r) c
      → BalancedAt f (after_loop os keep i r c).1
  after_loop-BalancedAt os keep i (lost e) c b = omega arith
  after_loop-BalancedAt os keep i nothing c b = omega arith
  after_loop-BalancedAt os keep i (got bytes fds) c b =
      take_frame-BalancedAt os keep i bytes fds c b

  recv_from-BalancedAt :
      (os : Platform) (keep : Bool) (i : ℕ) (o : Option StreamSock) (c : Client)
      → get_elem? c.socks i ≡ o
      → BalancedAt f c
      → BalancedAt f (recv_from os keep i o c).1
  recv_from-BalancedAt os keep i none c e b = b
  recv_from-BalancedAt os keep i (some s) c e b =
      let r = read_sock s.fd s.incoming c.log in
      after_loop-BalancedAt os keep i r.outcome (after_reading i s r c) (
        omega (
          arith,
          read_sock-Counted s.fd s.incoming c.log,
          total-set (sock_holds f) c.socks i s (record s { incoming = r.rest }) e,
        ))

  pub recv_frame-BalancedAt :
      (os : Platform) (keep : Bool) (i : ℕ) (c : Client)
      → BalancedAt f c
      → BalancedAt f (recv_frame os keep i c).1
  unfolding recv_frame
  recv_frame-BalancedAt os keep i c b =
      recv_from-BalancedAt os keep i (get_elem? c.socks i) c refl b

  set_timeout_on-same :
      (o : Option StreamSock) (ms : ℕ) (log : List Call)
      → (opened_in f (set_timeout_on o ms log) ≡ opened_in f log)
        × (closed_in f (set_timeout_on o ms log) ≡ closed_in f log)
  set_timeout_on-same none ms log = (refl, refl)
  set_timeout_on-same (some s) ms log = elim (Option-cases s.fd) [
    | inl e ↦ rw e (refl, refl)
    | inr (g, e) ↦ rw e (refl, refl)
  ]

  pub set_recv_timeout-BalancedAt :
      (i ms : ℕ) (c : Client) → BalancedAt f c → BalancedAt f (set_recv_timeout i ms c)
  set_recv_timeout-BalancedAt i ms c b = omega (
    arith,
    (set_timeout_on-same (get_elem? c.socks i) ms c.log).0,
    (set_timeout_on-same (get_elem? c.socks i) ms c.log).1,
  )
