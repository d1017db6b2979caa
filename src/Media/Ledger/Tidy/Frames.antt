-- ===== src/Media/Ledger/Tidy/Frames.antt =====
-- The holders of descriptors as frames are received.
use neoruntime_sdks.Base.{
  ℕ, ◌≡◌, refl, List, [], ◌∷◌, Option, none, some, Bool, true, false, get_elem?, arith, Result, ok,
  err,
}
use neoruntime_sdks.Media.{Client, StreamSock, MediaError}
use neoruntime_sdks.Media.Pixels.{Platform, Mat}
use neoruntime_sdks.Media.Handles.{register_retained, release_on_sock}
use neoruntime_sdks.Media.Receive.{
  Received, got, nothing, lost, read_sock, handle_of, retain, pixels, copied, after_loop,
  after_reading, recv_from, recv_frame,
}
use neoruntime_sdks.Media.Ledger.Tidy.{HandleTidy, SockTidy, IsTidy, All-set, All-append, All-get}
use neoruntime_sdks.Media.Ledger.Tidy.Cached.{CachedIn-set}

retain-IsTidy :
    (i : ℕ) (bytes fds : List ℕ) (c : Client) → IsTidy c → IsTidy (retain i bytes fds c).1
unfolding retain register_retained
retain-IsTidy i bytes fds c (hs, t) = (
  All-append HandleTidy c.handles (handle_of bytes fds (some i) ∷ []) hs
      (λ z. absurd (omega arith), tt),
  t,
)

copied-IsTidy :
    (i : ℕ) (bytes fds : List ℕ) (r : Result MediaError Mat) (c : Client)
    → IsTidy c
    → IsTidy (copied i bytes fds r c).1
unfolding release_on_sock
copied-IsTidy i bytes fds (err e) c t = t
copied-IsTidy i bytes fds (ok image) c t = t

after_loop-IsTidy :
    (os : Platform) (keep : Bool) (i : ℕ) (r : Received) (c : Client)
    → IsTidy c
    → IsTidy (after_loop os keep i r c).1
unfolding release_on_sock
after_loop-IsTidy os keep i (lost e) c t = t
after_loop-IsTidy os keep i nothing c t = t
after_loop-IsTidy os keep i (got bytes []) c t = t
after_loop-IsTidy os true i (got bytes (f ∷ fs)) c t = retain-IsTidy i bytes (f ∷ fs) c t
after_loop-IsTidy os false i (got bytes (f ∷ fs)) c t =
    copied-IsTidy i bytes (f ∷ fs) (pixels os bytes (f ∷ fs)) c t

recv_from-IsTidy :
    (os : Platform) (keep : Bool) (i : ℕ) (o : Option StreamSock) (c : Client)
    → get_elem? c.socks i ≡ o
    → IsTidy c
    → IsTidy (recv_from os keep i o c).1
recv_from-IsTidy os keep i none c e t = t
recv_from-IsTidy os keep i (some s) c e (hs, (ss, cached)) =
    let r = read_sock s.fd s.incoming c.log in
    let s' = record s { incoming = r.rest } in
    after_loop-IsTidy os keep i r.outcome (after_reading i s r c) (
      hs,
      (
        All-set SockTidy c.socks i s' ss (All-get SockTidy c.socks i s ss e),
        CachedIn-set c.streams c.socks i s s' e refl cached,
      ),
    )

pub recv_frame-IsTidy :
    (os : Platform) (keep : Bool) (i : ℕ) (c : Client)
    → IsTidy c
    → IsTidy (recv_frame os keep i c).1
unfolding recv_frame
recv_frame-IsTidy os keep i c t = recv_from-IsTidy os keep i (get_elem? c.socks i) c refl t
