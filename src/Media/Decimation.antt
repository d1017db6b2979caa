-- ===== src/Media/Decimation.antt =====
-- FdMediaStream::next on a socket that carries frames: which of them it returns.
pub mod Nth
use neoruntime_sdks.Base.{
  ℕ, zero, suc, ◌+◌, ◌-◌, ◌%◌, ◌^◌, ◌≤◌, ◌<◌, ◌≡◌, ◌≢◌, refl, sym, inl, inr, List, [], ◌∷◌, ◌++◌,
  map, Option, none, some, Bool, true, false, ◌&&◌, not, ltb, ◌==◌, length, get_elem?, set, arith,
  Bool-cases, Option-cases, Result, ok, err,
}
use neoruntime_sdks.Wire.Words.{get_u64}
use neoruntime_sdks.Media.{
  Call, Client, StreamSock, Recv, message, is_frame, open_all, close_all, fd_max_attempts,
  fd_recv_timeout_ms, frame_id_of,
}
use neoruntime_sdks.Media.Pixels.{Platform, Mat}
use neoruntime_sdks.Media.Handles.{register_retained, release_on_sock}
use neoruntime_sdks.Media.Receive.{
  Frame, FrameResult, frame_of, got, reading, recv_loop, read_sock, retain, pixels, copied,
  take_frame, recv_from, recv_frame, set_recv_timeout, after_reading, release, drop_frame,
}
use neoruntime_sdks.Media.Stream.{
  FdMediaStream, State, Round, returns, goes_on, is_skipped, count_frame, yield_frame, received,
  receive, round_on, round, next_loop, unread, unconnected, pending, attempts_of, next,
}
use neoruntime_sdks.Media.Still.{Still, release-Still}

-- A frame message, with its first descriptor and the others.
pub record Message : Type 0 where
  pub bytes : List ℕ
  pub first : ℕ
  pub others : List ℕ

abbrev pub planes : Message → List ℕ
planes m = m.first ∷ m.others

abbrev pub recv_of : Message → Recv
recv_of m = message m.bytes (planes m)

-- It is a whole frame message, and outside of the mode keep_fd its planes can be read.
abbrev pub Loads : Platform → Bool → Message → Type 0
Loads os true m = is_frame m.bytes ≡ true
Loads os false m =
    (is_frame m.bytes ≡ true) × ((image : Mat) × (pixels os m.bytes (planes m) ≡ ok image))

abbrev pub LoadAll : Platform → Bool → List Message → Type 0
LoadAll os keep [] = Unit
LoadAll os keep (m ∷ ms) = Loads os keep m × LoadAll os keep ms

-- The frame that a message carries.
abbrev pub IsFrameOf : Message → Frame → Type 0
IsFrameOf m fr = fr ≡ frame_of m.bytes fr.handle fr.image

-- Socket `i` is open, and will receive `es`.
abbrev pub Feeding : Client → ℕ → ℕ → List Recv → Type 0
Feeding c i f es = get_elem? c.socks i ≡ some (record { fd = some f; alive = true; incoming = es })

get_elem?-set :
    (ss : List StreamSock) (i : ℕ) (s t : StreamSock)
    → get_elem? ss i ≡ some s
    → get_elem? (set ss i t) i ≡ some t
get_elem?-set [] i s t h = cc
get_elem?-set (z ∷ ss) zero s t h = refl
get_elem?-set (z ∷ ss) (suc i) s t h = get_elem?-set ss i s t h

no_frame : is_frame [] ≡ true → ⊥
unfolding is_frame
no_frame e = absurd cc

-- The loop takes a frame message that comes first.
recv_loop_frame :
    (n : ℕ) (bytes fds : List ℕ) (es : List Recv) (log : List Call)
    → 1 ≤ n
    → is_frame bytes ≡ true
    → recv_loop n 0 (message bytes fds ∷ es) log ≡ reading (got bytes fds) es (open_all fds log)
unfolding recv_loop
recv_loop_frame zero bytes fds es log h e = absurd (omega arith)
recv_loop_frame (suc n) [] fds es log h e = absurd (no_frame e)
recv_loop_frame (suc n) (b ∷ bs) fds es log h e = rw e refl

module _ (os : Platform) (i f : ℕ) (es : List Recv) where
  -- What a call of recv_frame on the message comes to.
  abbrev Gets : Message → FrameResult × Client → Type 0
  Gets m (ok (some fr), c) = IsFrameOf m fr × Feeding c i f es
  Gets m (ok none, c) = ⊥
  Gets m (err e, c) = ⊥

  take_frame-Gets :
      (keep : Bool) (m : Message) (c : Client)
      → Loads os keep m
      → Feeding c i f es
      → Gets m (take_frame os keep i m.bytes (planes m) c)
  unfolding retain register_retained release_on_sock
  take_frame-Gets true m c l h = (refl, h)
  take_frame-Gets false m c (l, (image, e)) h = rw e (refl, h)

  whole_frame : (keep : Bool) (m : Message) → Loads os keep m → is_frame m.bytes ≡ true
  whole_frame true m l = l
  whole_frame false m (l, r) = l

  recv_frame-Gets :
      (keep : Bool) (m : Message) (c : Client)
      → Loads os keep m
      → Feeding c i f (recv_of m ∷ es)
      → Gets m (recv_frame os keep i c)
  unfolding recv_frame
  recv_frame-Gets keep m c l h =
      let s : StreamSock = record { fd = some f; alive = true; incoming = recv_of m ∷ es } in
      let c' : Client = record c {
        socks = set c.socks i (record s { incoming = es });
        log = open_all (planes m) c.log;
      } in
      let read =
        recv_loop_frame fd_max_attempts m.bytes (planes m) es c.log (omega arith)
          (whole_frame keep m l) in
      rw (h, read)
        (take_frame-Gets keep m c' l (get_elem?-set c.socks i s (record s { incoming = es }) h))

  -- A round of next that reads a frame: it is skipped, or it is returned.
  abbrev pub Handles : ℕ → FdMediaStream → Message → Round × State → Type 0
  Handles left st m (goes_on l, (st', c)) =
      (is_skipped st ≡ true) × ((l ≡ left) × ((st' ≡ st) × Feeding c i f es))
  Handles left st m (returns (some fr), (st', c)) =
      (is_skipped st ≡ false) × (IsFrameOf m fr × ((st' ≡ st) × Feeding c i f es))
  Handles left st m (returns none, (st', c)) = ⊥

  yield_frame-Handles :
      (left : ℕ) (st : FdMediaStream) (m : Message) (fr : Frame) (c : Client)
      → IsFrameOf m fr
      → Feeding c i f es
      → Handles left st m (yield_frame left fr st c)
  yield_frame-Handles left st m fr c e h = elim (Bool-cases (is_skipped st)) [
    | inl t ↦ simp t (refl, (refl, (refl, rw ((release-Still fr c).0, h) refl)))
    | inr t ↦ simp t (refl, (e, (refl, h)))
  ]

  received-Handles :
      (left : ℕ) (st : FdMediaStream) (m : Message) (r : FrameResult × Client)
      → Gets m r
      → Handles left (count_frame st) m (received left st r)
  received-Handles left st m (ok (some fr), c) (e, h) =
      yield_frame-Handles left (count_frame st) m fr c e h
  received-Handles left st m (ok none, c) g = absurd g
  received-Handles left st m (err e, c) g = absurd g

  round_on-Handles :
      (left : ℕ) (o : Option ℕ) (st : FdMediaStream) (m : Message) (c : Client)
      → o ≡ some i
      → Loads os st.keep_fd m
      → Feeding c i f (recv_of m ∷ es)
      → Handles left (count_frame st) m (round_on os left o (st, c))
  round_on-Handles left o st m c e l h =
      let c' = set_recv_timeout i fd_recv_timeout_ms c in
      rw e (
        received-Handles left st m (recv_frame os st.keep_fd i c')
          (recv_frame-Gets st.keep_fd m c' l h))

  pub round-Handles :
      (left : ℕ) (st : FdMediaStream) (m : Message) (c : Client)
      → st.sock ≡ some i
      → Loads os st.keep_fd m
      → Feeding c i f (recv_of m ∷ es)
      → Handles left (count_frame st) m (round os left (st, c))
  unfolding round
  round-Handles left st m c e l h = round_on-Handles left st.sock st m c e l h
