-- ===== src/Media/Total.antt =====
-- The loop of FdMediaStream::next and what each round of it uses up: an attempt, or something of
-- the scripts.
pub mod Reads
pub mod Sockets
use neoruntime_sdks.Base.{
  ℕ, zero, suc, ◌+◌, ◌-◌, ◌≤◌, ◌<◌, ◌≡◌, refl, inl, inr, List, [], ◌∷◌, ◌++◌, Option, none, some,
  Bool, true, false, leb, length, get_elem?, set, arith, Bool-cases, Option-cases, Result, ok, err,
}
use neoruntime_sdks.Media.{
  Call, MediaError, Client, StreamSock, Peer, Recv, eof, again, failed_read, message, is_frame,
  close_all, open_all, fd_max_attempts, fd_recv_timeout_ms,
}
use neoruntime_sdks.Media.Pixels.{Platform, Mat}
use neoruntime_sdks.Media.Handles.{
  is_live, register_retained, discard_retained, release_on_sock, run_on_release, close_open,
  close_handle, fewer_copies, drop_copy,
}
use neoruntime_sdks.Media.Sockets.{
  cache_sock, connect_with, connect_stream, subscribe_on, get_cached, get_sock, is_alive, shut,
  shut_sock, drop_cached, drop_sock, find_stream, erase_stream,
}
use neoruntime_sdks.Media.Receive.{
  Frame, FrameResult, Received, got, nothing, lost, Reading, recv_loop, read_sock, retain, pixels,
  copied, take_frame, after_loop, after_reading, recv_from, recv_frame, set_recv_timeout, release,
  drop_frame,
}
use neoruntime_sdks.Media.Stream.{
  FdMediaStream, State, Round, returns, goes_on, fail_attempt, is_skipped, count_frame, yield_frame,
  received, receive, connected, round_on, round, next_loop, unread, unconnected, pending,
  attempts_of, next,
}
use neoruntime_sdks.Media.Still.{release-Still}
use neoruntime_sdks.Media.Total.Sockets.{
  NoMore, Still-NoMore, drop_sock-NoMore, get_sock-NoMore, gain, recv_frame-gain,
}

-- A round that goes on uses up an attempt or something to read.
abbrev Shrinks : ℕ → Client → Round × State → Type 0
Shrinks left c (returns f, s) = Unit
Shrinks left c (goes_on l, (st, c')) = l + pending c' < left + pending c

module _ (left : ℕ) (st : FdMediaStream) where
  fail_attempt-Shrinks : (c c' : Client) → NoMore 0 c c' → Shrinks left c (fail_attempt left st c')
  unfolding pending
  fail_attempt-Shrinks c c' h = elim (Bool-cases (leb left 1)) [
    | inl e ↦ rw e tt
    | inr e ↦ rw e (ground arith)
  ]

  yield_frame-Shrinks :
      (f : Frame) (c c' : Client) → NoMore 1 c c' → Shrinks left c (yield_frame left f st c')
  yield_frame-Shrinks f c c' h = elim (Bool-cases (is_skipped st)) [
    | inl e ↦
        rw e (omega (arith, Still-NoMore c' (drop_frame f (release f c')) (release-Still f c')))
    | inr e ↦ rw e tt
  ]

received-Shrinks :
    (left : ℕ) (st : FdMediaStream) (c : Client) (r : FrameResult × Client)
    → NoMore (gain r.0) c r.1
    → Shrinks left c (received left st r)
received-Shrinks left st c (ok (some f), c') h = yield_frame-Shrinks left (count_frame st) f c c' h
received-Shrinks left st c (ok none, c') h = omega arith
received-Shrinks left st c (err e, c') h =
    fail_attempt-Shrinks left (record st { sock = none }) c (drop_sock st.stream_id c')
      (omega (arith, drop_sock-NoMore st.stream_id c'))

receive-Shrinks :
    (os : Platform) (left i : ℕ) (st : FdMediaStream) (c c' : Client)
    → NoMore 0 c c'
    → Shrinks left c (receive os left i st c')
unfolding pending
receive-Shrinks os left i st c c' h =
    let c1 = set_recv_timeout i fd_recv_timeout_ms c' in
    received-Shrinks left st c (recv_frame os st.keep_fd i c1)
      (omega (arith, recv_frame-gain os st.keep_fd i c1))

connected-Shrinks :
    (os : Platform) (left : ℕ) (st : FdMediaStream) (c : Client) (r : Result MediaError ℕ × Client)
    → NoMore 0 c r.1
    → Shrinks left c (connected os left st r)
connected-Shrinks os left st c (err e, c') h = fail_attempt-Shrinks left st c c' h
connected-Shrinks os left st c (ok i, c') h =
    receive-Shrinks os left i (record st { sock = some i }) c c' h

round_on-Shrinks :
    (os : Platform) (left : ℕ) (o : Option ℕ) (st : FdMediaStream) (c : Client)
    → Shrinks left c (round_on os left o (st, c))
round_on-Shrinks os left none st c =
    connected-Shrinks os left st c (get_sock st.stream_id c) (get_sock-NoMore st.stream_id c)
round_on-Shrinks os left (some i) st c = receive-Shrinks os left i st c c (omega arith)

round-Shrinks :
    (os : Platform) (left : ℕ) (st : FdMediaStream) (c : Client)
    → Shrinks left c (round os left (st, c))
unfolding round
round-Shrinks os left st c = round_on-Shrinks os left st.sock st c

Returned : Option (Option Frame × State) → Type 0
Returned o = (r : Option Frame × State) × (o ≡ some r)

after_round-Returned :
    (os : Platform) (n left : ℕ) (c : Client) (r : Round × State)
    → left + pending c < suc n
    → Shrinks left c r
    → ((l : ℕ) (st : FdMediaStream) (c' : Client)
        → l + pending c' < n
        → Returned (next_loop os n l (st, c')))
    → Returned (elim r.0 [ returns g ↦ some (g, r.1) | goes_on l ↦ next_loop os n l r.1 ])
unfolding Returned
after_round-Returned os n left c (returns g, s) h k rec = ((g, s), refl)
after_round-Returned os n left c (goes_on l, (st, c')) h k rec = rec l st c' (omega arith)

next_loop-Returned :
    (os : Platform) (n left : ℕ) (st : FdMediaStream) (c : Client)
    → left + pending c < n
    → Returned (next_loop os n left (st, c))
unfolding next_loop
next_loop-Returned os zero left st c h = absurd (omega arith)
next_loop-Returned os (suc n) left st c h =
    after_round-Returned os n left c (round os left (st, c)) h (round-Shrinks os left st c)
      (next_loop-Returned os n)

-- next() returns, whatever state the stream and the client are in and whatever the daemons send, as
-- long as what they send ends: a frame, or none.
pub next_returns :
    (os : Platform) (st : FdMediaStream) (c : Client)
    → (r : Option Frame × State) × (next os (st, c) ≡ some r)
unfolding next Returned
next_returns os st c = elim (Bool-cases st.exhausted) [
  | inl e ↦ ((none, (st, c)), simp e)
  | inr e ↦
      let (r, p) =
        next_loop-Returned os (pending c + attempts_of st + 1) (attempts_of st) st c
          (omega arith) in
      (r, simp (e, p))
]
