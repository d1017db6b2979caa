-- ===== src/Media/Stream.antt =====
-- FdMediaStream of media/fd_media_client.cpp: next, with its bounded reconnects and its decimation.
use neoruntime_sdks.Base.{
  ℕ, zero, suc, ◌+◌, ◌-◌, ◌%◌, ◌^◌, List, [], ◌∷◌, Option, none, some, Bool, true, false, ◌&&◌, not,
  leb, ltb, ◌==◌, if◌then◌else◌, length, Result, ok, err,
}
use neoruntime_sdks.Media.{
  slept, MediaError, Client, StreamSock, Peer, fd_reconnect_attempts, fd_reconnect_sleep_ms,
  fd_recv_timeout_ms,
}
use neoruntime_sdks.Media.Pixels.{Platform}
use neoruntime_sdks.Media.Handles.{close_handle, drop_copy}
use neoruntime_sdks.Media.Sockets.{get_sock, drop_sock}
use neoruntime_sdks.Media.Receive.{
  Frame, FrameResult, recv_frame, set_recv_timeout, release, drop_frame,
}

pub record FdMediaStream : Type 0 where
  pub stream_id : List ℕ
  pub interval : ℕ
  pub keep_fd : Bool
  pub reconnect : Bool
  pub exhausted : Bool
  pub seen : ℕ
  pub sock : Option ℕ

-- FdMediaClient::subscribe; `skip_frames` counts from 0, as the code takes 1 for what is less.
unfoldable pub subscribe : List ℕ → ℕ → Bool → Bool → FdMediaStream
subscribe id skip_frames keep_fd reconnect = record {
  stream_id = id;
  interval = if ltb 1 skip_frames then skip_frames else 1;
  keep_fd = keep_fd;
  reconnect = reconnect;
  exhausted = false;
  seen = 0;
  sock = none;
}

abbrev pub State : Type 0
State = FdMediaStream × Client

-- How a round of the loop ends: a return, or another round with the attempts left.
pub data Round : Type 0 where
  returns : Option Frame → Round
  goes_on : ℕ → Round

-- `if (--attempts_left <= 0)`, then the sleep.
abbrev pub fail_attempt : ℕ → FdMediaStream → Client → Round × State
fail_attempt left st c =
    if leb left 1
    then (returns none, (record st { exhausted = true }, c))
    else (goes_on (left - 1), (st, record c { log = slept fd_reconnect_sleep_ms ∷ c.log }))

-- `seen` is a uint64_t that has just been incremented.
abbrev pub is_skipped : FdMediaStream → Bool
is_skipped st = ltb 1 st.interval && not ((st.seen + (2 ^ 64 - 1)) % 2 ^ 64 % st.interval == 0)

abbrev pub count_frame : FdMediaStream → FdMediaStream
count_frame st = record st { seen = (st.seen + 1) % 2 ^ 64 }

abbrev pub yield_frame : ℕ → Frame → FdMediaStream → Client → Round × State
yield_frame left f st c =
    if is_skipped st
    then (goes_on left, (st, drop_frame f (release f c)))
    else (returns (some f), (st, c))

abbrev pub received : ℕ → FdMediaStream → FrameResult × Client → Round × State
received left st (ok (some f), c) = yield_frame left f (count_frame st) c
received left st (ok none, c) = (goes_on left, (st, c))
received left st (err e, c) =
    fail_attempt left (record st { sock = none }) (drop_sock st.stream_id c)

abbrev pub receive : Platform → ℕ → ℕ → FdMediaStream → Client → Round × State
receive os left i st c =
    received left st (recv_frame os st.keep_fd i (set_recv_timeout i fd_recv_timeout_ms c))

abbrev pub connected : Platform → ℕ → FdMediaStream → Result MediaError ℕ × Client → Round × State
connected os left st (err e, c) = fail_attempt left st c
connected os left st (ok i, c) = receive os left i (record st { sock = some i }) c

abbrev pub round_on : Platform → ℕ → Option ℕ → State → Round × State
round_on os left none (st, c) = connected os left st (get_sock st.stream_id c)
round_on os left (some i) (st, c) = receive os left i st c

unfoldable pub round : Platform → ℕ → State → Round × State
unfolding get_sock recv_frame drop_sock close_handle drop_copy
round os left (st, c) = round_on os left st.sock (st, c)

-- The loop of next on fuel; none is for want of fuel.
unfoldable pub next_loop : Platform → ℕ → ℕ → State → Option (Option Frame × State)
unfolding round
next_loop os zero left s = none
next_loop os (suc n) left s =
    let (r, s') = round os left s in
    elim r [ returns f ↦ some (f, s') | goes_on left' ↦ next_loop os n left' s' ]

-- What there is left to read: an item for each read to come and each connect.
abbrev pub unread : List StreamSock → ℕ
unread [] = 0
unread (s ∷ ss) = length s.incoming + unread ss

abbrev pub peer_size : Option Peer → ℕ
peer_size none = 1
peer_size (some p) = length p.script + 1

abbrev pub unconnected : List (Option Peer) → ℕ
unconnected [] = 0
unconnected (p ∷ ps) = peer_size p + unconnected ps

unfoldable pub pending : Client → ℕ
pending c = unread c.socks + unconnected c.connects

abbrev pub attempts_of : FdMediaStream → ℕ
attempts_of st = if st.reconnect then fd_reconnect_attempts else 1

unfoldable pub next : Platform → State → Option (Option Frame × State)
unfolding next_loop pending
next os (st, c) =
    let loop = next_loop os (pending c + attempts_of st + 1) (attempts_of st) (st, c) in
    if st.exhausted then some (none, (st, c)) else loop
