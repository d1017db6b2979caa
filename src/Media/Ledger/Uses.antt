-- ===== src/Media/Ledger/Uses.antt =====
-- What the user of a client calls, and induction over such calls.
use neoruntime_sdks.Base.{
  ℕ, zero, suc, ◌+◌, inl, inr, List, [], ◌∷◌, Option, none, some, Bool, leb, ltb, if◌then◌else◌,
  Bool-cases, Option-cases, Result, ok, err,
}
use neoruntime_sdks.Media.{
  slept, fd_reconnect_sleep_ms, MediaError, Client, Peer, fd_recv_timeout_ms,
}
use neoruntime_sdks.Media.Pixels.{Platform}
use neoruntime_sdks.Media.Handles.{retained_frames, close_handle, drop_copy, copy_handle}
use neoruntime_sdks.Media.Sockets.{get_sock, drop_sock, close}
use neoruntime_sdks.Media.Receive.{
  Frame, FrameResult, recv_frame, set_recv_timeout, get_frame, get_frame_on, or_drop, release,
  drop_frame,
}
use neoruntime_sdks.Media.Stream.{
  FdMediaStream, State, Round, returns, goes_on, fail_attempt, is_skipped, count_frame, yield_frame,
  received, receive, connected, round_on, round, next_loop, pending, attempts_of, next,
}

-- A client that nobody has used yet, with the connects to come.
unfoldable pub new_client : List (Option Peer) → Client
new_client peers = record {
  streams = [];
  socks = [];
  handles = [];
  retained = [];
  connects = peers;
  log = [];
}

-- A call of the client's user. The holder of a frame releases it, copies it, or lets it go.
pub data Use : Type 0 where
  gets_frame : List ℕ → ℕ → Bool → Use
  pulls : FdMediaStream → Use
  releases copies_frame drops : ℕ → Use
  counts closes : Use

abbrev client_of : Client → Option (Option Frame × State) → Client
client_of c none = c
client_of c (some (f, (st, c'))) = c'

unfoldable pub perform : Platform → Use → Client → Client
unfolding get_frame next close_handle copy_handle drop_copy retained_frames close
perform os (gets_frame id timeout_ms keep_fd) c = (get_frame os id timeout_ms keep_fd c).1
perform os (pulls st) c = client_of c (next os (st, c))
perform os (releases j) c = close_handle j c
perform os (copies_frame j) c = copy_handle j c
perform os (drops j) c = drop_copy j c
perform os counts c = (retained_frames c).1
perform os closes c = close c

unfoldable pub perform_all : Platform → List Use → Client → Client
unfolding perform
perform_all os [] c = c
perform_all os (u ∷ us) c = perform_all os us (perform os u c)

-- A predicate that every operation of the client keeps.
pub record Keeps (P : Client → Type 0) : Type 0 where
  pub sleeps : (c : Client) → P c → P (record c { log = slept fd_reconnect_sleep_ms ∷ c.log })
  pub gets_sock : (id : List ℕ) (c : Client) → P c → P (get_sock id c).1
  pub drops_sock : (id : List ℕ) (c : Client) → P c → P (drop_sock id c)
  pub sets_timeout : (i ms : ℕ) (c : Client) → P c → P (set_recv_timeout i ms c)
  pub receives :
      (os : Platform) (keep : Bool) (i : ℕ) (c : Client) → P c → P (recv_frame os keep i c).1
  pub closes_handle : (j : ℕ) (c : Client) → P c → P (close_handle j c)
  pub copies_handle : (j : ℕ) (c : Client) → P c → P (copy_handle j c)
  pub drops_copy : (j : ℕ) (c : Client) → P c → P (drop_copy j c)
  pub counts_retained : (c : Client) → P c → P (retained_frames c).1
  pub closes_client : (c : Client) → P c → P (close c)

module _ (P : Client → Type 0) (keeps : Keeps P) where
  release-Kept : (g : Frame) (c : Client) → P c → P (drop_frame g (release g c))
  release-Kept g c b = elim (Option-cases g.handle) [
    | inl e ↦ rw e b
    | inr (j, e) ↦ rw e (keeps.drops_copy j (close_handle j c) (keeps.closes_handle j c b))
  ]

  abbrev RoundKept : Round × State → Type 0
  RoundKept (r, (st, c)) = P c

  fail_attempt-RoundKept :
      (left : ℕ) (st : FdMediaStream) (c : Client) → P c → RoundKept (fail_attempt left st c)
  fail_attempt-RoundKept left st c b = elim (Bool-cases (leb left 1)) [
    | inl e ↦ rw e b
    | inr e ↦ rw e (keeps.sleeps c b)
  ]

  yield_frame-RoundKept :
      (left : ℕ) (g : Frame) (st : FdMediaStream) (c : Client)
      → P c
      → RoundKept (yield_frame left g st c)
  yield_frame-RoundKept left g st c b = elim (Bool-cases (is_skipped st)) [
    | inl e ↦ rw e (release-Kept g c b)
    | inr e ↦ rw e b
  ]

  received-RoundKept :
      (left : ℕ) (st : FdMediaStream) (r : FrameResult × Client)
      → P r.1
      → RoundKept (received left st r)
  received-RoundKept left st (ok (some g), c) b = yield_frame-RoundKept left g (count_frame st) c b
  received-RoundKept left st (ok none, c) b = b
  received-RoundKept left st (err e, c) b =
      fail_attempt-RoundKept left (record st { sock = none }) (drop_sock st.stream_id c)
        (keeps.drops_sock st.stream_id c b)

  receive-RoundKept :
      (os : Platform) (left i : ℕ) (st : FdMediaStream) (c : Client)
      → P c
      → RoundKept (receive os left i st c)
  receive-RoundKept os left i st c b =
      let c' = set_recv_timeout i fd_recv_timeout_ms c in
      received-RoundKept left st (recv_frame os st.keep_fd i c')
        (keeps.receives os st.keep_fd i c' (keeps.sets_timeout i fd_recv_timeout_ms c b))

  connected-RoundKept :
      (os : Platform) (left : ℕ) (st : FdMediaStream) (r : Result MediaError ℕ × Client)
      → P r.1
      → RoundKept (connected os left st r)
  connected-RoundKept os left st (err e, c) b = fail_attempt-RoundKept left st c b
  connected-RoundKept os left st (ok i, c) b =
      receive-RoundKept os left i (record st { sock = some i }) c b

  round_on-RoundKept :
      (os : Platform) (left : ℕ) (o : Option ℕ) (st : FdMediaStream) (c : Client)
      → P c
      → RoundKept (round_on os left o (st, c))
  round_on-RoundKept os left none st c b =
      connected-RoundKept os left st (get_sock st.stream_id c) (keeps.gets_sock st.stream_id c b)
  round_on-RoundKept os left (some i) st c b = receive-RoundKept os left i st c b

  round-RoundKept :
      (os : Platform) (left : ℕ) (st : FdMediaStream) (c : Client)
      → P c
      → RoundKept (round os left (st, c))
  unfolding round
  round-RoundKept os left st c b = round_on-RoundKept os left st.sock st c b

  abbrev EndsKept : Option (Option Frame × State) → Type 0
  EndsKept none = Unit
  EndsKept (some (g, (st, c))) = P c

  after_round-EndsKept :
      (os : Platform) (n : ℕ) (r : Round × State)
      → RoundKept r
      → ((l : ℕ) (st : FdMediaStream) (c : Client) → P c → EndsKept (next_loop os n l (st, c)))
      → EndsKept (elim r.0 [ returns g ↦ some (g, r.1) | goes_on l ↦ next_loop os n l r.1 ])
  after_round-EndsKept os n (returns g, (st, c)) b rec = b
  after_round-EndsKept os n (goes_on l, (st, c)) b rec = rec l st c b

  next_loop-EndsKept :
      (os : Platform) (n left : ℕ) (st : FdMediaStream) (c : Client)
      → P c
      → EndsKept (next_loop os n left (st, c))
  unfolding next_loop
  next_loop-EndsKept os zero left st c b = tt
  next_loop-EndsKept os (suc n) left st c b =
      after_round-EndsKept os n (round os left (st, c)) (round-RoundKept os left st c b)
        (next_loop-EndsKept os n)

  next-EndsKept :
      (os : Platform) (st : FdMediaStream) (c : Client) → P c → EndsKept (next os (st, c))
  unfolding next
  next-EndsKept os st c b = elim (Bool-cases st.exhausted) [
    | inl e ↦ simp e b
    | inr e ↦
        simp e (next_loop-EndsKept os (pending c + attempts_of st + 1) (attempts_of st) st c b)
  ]

  client_of-Kept :
      (c : Client) (o : Option (Option Frame × State)) → P c → EndsKept o → P (client_of c o)
  client_of-Kept c none b b' = b
  client_of-Kept c (some (g, (st, c'))) b b' = b'

  or_drop-Kept : (id : List ℕ) (r : FrameResult × Client) → P r.1 → P (or_drop id r).1
  or_drop-Kept id (ok o, c) b = b
  or_drop-Kept id (err e, c) b = keeps.drops_sock id c b

  get_frame_on-Kept :
      (os : Platform) (id : List ℕ) (timeout_ms : ℕ) (keep : Bool)
      (r : Result MediaError ℕ × Client)
      → P r.1
      → P (get_frame_on os id timeout_ms keep r).1
  get_frame_on-Kept os id timeout_ms keep (err e, c) b = b
  get_frame_on-Kept os id timeout_ms keep (ok i, c) b =
      let ms = if ltb 0 timeout_ms then timeout_ms else fd_recv_timeout_ms in
      or_drop-Kept id (recv_frame os keep i (set_recv_timeout i ms c))
        (keeps.receives os keep i (set_recv_timeout i ms c) (keeps.sets_timeout i ms c b))

  get_frame-Kept :
      (os : Platform) (id : List ℕ) (timeout_ms : ℕ) (keep : Bool) (c : Client)
      → P c
      → P (get_frame os id timeout_ms keep c).1
  unfolding get_frame
  get_frame-Kept os id timeout_ms keep c b =
      get_frame_on-Kept os id timeout_ms keep (get_sock id c) (keeps.gets_sock id c b)

  perform-Kept : (os : Platform) (u : Use) (c : Client) → P c → P (perform os u c)
  unfolding perform
  perform-Kept os (gets_frame id timeout_ms keep) c b = get_frame-Kept os id timeout_ms keep c b
  perform-Kept os (pulls st) c b = client_of-Kept c (next os (st, c)) b (next-EndsKept os st c b)
  perform-Kept os (releases j) c b = keeps.closes_handle j c b
  perform-Kept os (copies_frame j) c b = keeps.copies_handle j c b
  perform-Kept os (drops j) c b = keeps.drops_copy j c b
  perform-Kept os counts c b = keeps.counts_retained c b
  perform-Kept os closes c b = keeps.closes_client c b

  pub perform_all-Kept :
      (os : Platform) (us : List Use) (c : Client) → P c → P (perform_all os us c)
  unfolding perform_all
  perform_all-Kept os [] c b = b
  perform_all-Kept os (u ∷ us) c b = perform_all-Kept os us (perform os u c) (perform-Kept os u c b)
