-- ===== src/Media/Total/Sockets.antt =====
-- What is left to read after each call on a socket.
use neoruntime_sdks.Base.{
  ℕ, ◌+◌, ◌≤◌, ◌≡◌, refl, inl, inr, List, [], ◌∷◌, Option, none, some, Bool, true, false, length,
  get_elem?, arith, Bool-cases, Result, ok, err,
}
use neoruntime_sdks.Media.{MediaError, Client, StreamSock, Peer}
use neoruntime_sdks.Media.Pixels.{Platform, Mat}
use neoruntime_sdks.Media.Handles.{register_retained, release_on_sock}
use neoruntime_sdks.Media.Sockets.{
  cache_sock, connect_with, connect_stream, subscribe_on, get_cached, get_sock, is_alive, shut,
  shut_sock, drop_cached, drop_sock, find_stream, erase_stream,
}
use neoruntime_sdks.Media.Receive.{
  FrameResult, Received, got, nothing, lost, read_sock, retain, pixels, copied, take_frame,
  after_loop, after_reading, recv_from, recv_frame,
}
use neoruntime_sdks.Media.Stream.{pending}
use neoruntime_sdks.Media.Still.{Still}
use neoruntime_sdks.Media.Total.Reads.{cost, read_sock-Progress, unread-set, unread-append}

-- What there is left to read for each socket, and for each connect to come.
abbrev pub NoMore : ℕ → Client → Client → Type 0
NoMore n c c' = pending c' + n ≤ pending c

pub Still-NoMore : (c c' : Client) → Still c c' → NoMore 0 c c'
unfolding pending
Still-NoMore c c' (p, q) = rw (p, q) (omega arith)

shut-NoMore :
    (m : Option (List ℕ)) (i : ℕ) (o : Option StreamSock) (c : Client)
    → get_elem? c.socks i ≡ o
    → NoMore 0 c (shut m i o c)
unfolding pending
shut-NoMore m i none c e = omega arith
shut-NoMore m i (some s) c e = elim (Bool-cases s.alive) [
  | inl live ↦
      rw live (omega (arith, unread-set c.socks i s (record s { alive = false; fd = none }) e))
  | inr dead ↦ rw dead (omega arith)
]

drop_cached-NoMore : (id : List ℕ) (o : Option ℕ) (c : Client) → NoMore 0 c (drop_cached id o c)
unfolding shut_sock pending
drop_cached-NoMore id none c = omega arith
drop_cached-NoMore id (some i) c =
    shut-NoMore none i (get_elem? c.socks i) (record c { streams = erase_stream id c.streams }) refl

pub drop_sock-NoMore : (id : List ℕ) (c : Client) → NoMore 0 c (drop_sock id c)
unfolding drop_sock
drop_sock-NoMore id c = drop_cached-NoMore id (find_stream id c.streams) c

cache_sock-NoMore :
    (id : List ℕ) (p : Peer) (r : Result MediaError (Unit {0})) (c : Client)
    → pending (cache_sock id p r c).1 ≤ pending c + length p.script
unfolding pending
cache_sock-NoMore id p (err e) c = omega arith
cache_sock-NoMore id p (ok _) c = omega (
  arith,
  unread-append c.socks (record { fd = some p.socket; alive = true; incoming = p.script } ∷ []),
)

connect_with-NoMore :
    (id : List ℕ) (ps : List (Option Peer)) (c : Client)
    → c.connects ≡ ps
    → NoMore 0 c (connect_with id ps c).1
unfolding pending
connect_with-NoMore id [] c e = omega arith
connect_with-NoMore id (none ∷ ps) c e = rw e (omega arith)
connect_with-NoMore id (some p ∷ ps) c e =
    rw e (omega (arith, cache_sock-NoMore id p (subscribe_on id p) (record c { connects = ps })))

connect_stream-NoMore : (id : List ℕ) (c : Client) → NoMore 0 c (connect_stream id c).1
unfolding connect_stream
connect_stream-NoMore id c = connect_with-NoMore id c.connects c refl

get_cached-NoMore : (id : List ℕ) (o : Option ℕ) (c : Client) → NoMore 0 c (get_cached id o c).1
unfolding pending
get_cached-NoMore id none c = connect_stream-NoMore id c
get_cached-NoMore id (some i) c = elim (Bool-cases (is_alive (get_elem? c.socks i))) [
  | inl live ↦ rw live (omega arith)
  | inr dead ↦ rw dead (connect_stream-NoMore id (record c { streams = erase_stream id c.streams }))
]

pub get_sock-NoMore : (id : List ℕ) (c : Client) → NoMore 0 c (get_sock id c).1
unfolding get_sock
get_sock-NoMore id c = get_cached-NoMore id (find_stream id c.streams) c

-- A read that does not throw takes something.
abbrev pub gain : FrameResult → ℕ
gain (ok o) = 1
gain (err e) = 0

copied-gain :
    (i : ℕ) (bytes fds : List ℕ) (r : Result MediaError Mat) (c : Client)
    → (pending (copied i bytes fds r c).1 ≡ pending c) × (gain (copied i bytes fds r c).0 ≤ 1)
unfolding pending release_on_sock
copied-gain i bytes fds (ok image) c = (refl, omega arith)
copied-gain i bytes fds (err e) c = (refl, omega arith)

take_frame-gain :
    (os : Platform) (keep : Bool) (i : ℕ) (bytes fds : List ℕ) (c : Client)
    → (pending (take_frame os keep i bytes fds c).1 ≡ pending c)
      × (gain (take_frame os keep i bytes fds c).0 ≤ 1)
unfolding pending retain register_retained release_on_sock
take_frame-gain os keep i bytes [] c = (refl, omega arith)
take_frame-gain os true i bytes (f ∷ fs) c = (refl, omega arith)
take_frame-gain os false i bytes (f ∷ fs) c =
    copied-gain i bytes (f ∷ fs) (pixels os bytes (f ∷ fs)) c

after_loop-gain :
    (os : Platform) (keep : Bool) (i : ℕ) (r : Received) (c : Client)
    → (pending (after_loop os keep i r c).1 ≡ pending c)
      × (gain (after_loop os keep i r c).0 ≤ cost r)
after_loop-gain os keep i (lost e) c = (refl, omega arith)
after_loop-gain os keep i nothing c = (refl, omega arith)
after_loop-gain os keep i (got bytes fds) c = take_frame-gain os keep i bytes fds c

recv_from-gain :
    (os : Platform) (keep : Bool) (i : ℕ) (o : Option StreamSock) (c : Client)
    → get_elem? c.socks i ≡ o
    → NoMore (gain (recv_from os keep i o c).0) c (recv_from os keep i o c).1
unfolding pending
recv_from-gain os keep i none c e = omega arith
recv_from-gain os keep i (some s) c e =
    let r = read_sock s.fd s.incoming c.log in
    let c' = after_reading i s r c in
    omega (
      arith,
      (after_loop-gain os keep i r.outcome c').0,
      (after_loop-gain os keep i r.outcome c').1,
      read_sock-Progress s.fd s.incoming c.log,
      unread-set c.socks i s (record s { incoming = r.rest }) e,
    )

pub recv_frame-gain :
    (os : Platform) (keep : Bool) (i : ℕ) (c : Client)
    → NoMore (gain (recv_frame os keep i c).0) c (recv_frame os keep i c).1
unfolding recv_frame
recv_frame-gain os keep i c = recv_from-gain os keep i (get_elem? c.socks i) c refl
