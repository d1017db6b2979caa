-- ===== src/Media/Ledger.antt =====
-- The descriptors that the client of media/fd_media_client.cpp has, counted: those of its sockets
-- and those of the planes that came with frames. Handles and sockets.
pub mod Socks
pub mod Frames
pub mod Uses
pub mod Tidy
pub mod Calls
use neoruntime_sdks.Base.{
  ℕ, zero, suc, ◌+◌, ◌-◌, ◌≡◌, refl, inl, inr, List, [], ◌∷◌, ◌++◌, Option, none, some, Bool, true,
  false, ◌==◌, if◌then◌else◌, get_elem?, set, arith, Bool-cases, Option-cases, Result, ok, err,
}
use neoruntime_sdks.Media.{
  Call, opened, closed_fd, slept, sent, timeout_set, MediaError, Client, FrameHandle, StreamSock,
  Peer, close_fd, send_on, close_all, open_all, release_msg,
}
use neoruntime_sdks.Media.Handles.{
  is_live, prune, erase_handle, discard_retained, register_retained, release_on, release_on_sock,
  run_on_release, mark_closed, close_open, close_handle, fewer_copies, drop_copy, more_copies,
  copy_handle,
}

abbrev pub count : ℕ → List ℕ → ℕ
count f [] = 0
count f (g ∷ gs) = (if g == f then 1 else 0) + count f gs

abbrev pub opened_in : ℕ → List Call → ℕ
opened_in f [] = 0
opened_in f (opened g ∷ log) = (if g == f then 1 else 0) + opened_in f log
opened_in f (_ ∷ log) = opened_in f log

abbrev pub closed_in : ℕ → List Call → ℕ
closed_in f [] = 0
closed_in f (closed_fd g ∷ log) = (if g == f then 1 else 0) + closed_in f log
closed_in f (_ ∷ log) = closed_in f log

abbrev pub handle_holds : ℕ → FrameHandle → ℕ
handle_holds f h = if h.closed then 0 else count f h.fds

abbrev pub fd_is : ℕ → Option ℕ → ℕ
fd_is f none = 0
fd_is f (some g) = if g == f then 1 else 0

abbrev pub sock_holds : ℕ → StreamSock → ℕ
sock_holds f s = fd_is f s.fd

abbrev pub total {ℓ} : {A : Type ℓ} → (A → ℕ) → List A → ℕ
total g [] = 0
total g (x ∷ xs) = g x + total g xs

-- Each time a descriptor came in, it has been closed once, or is held by one open handle or socket.
abbrev pub BalancedAt : ℕ → Client → Type 0
BalancedAt f c =
    opened_in f c.log
    ≡ closed_in f c.log + total (handle_holds f) c.handles + total (sock_holds f) c.socks

unfoldable pub IsBalanced : Client → Type 0
IsBalanced c = (f : ℕ) → BalancedAt f c

module _ {ℓ} {A : Type ℓ} (g : A → ℕ) where
  pub total-set :
      (xs : List A) (i : ℕ) (x y : A)
      → get_elem? xs i ≡ some x
      → total g (set xs i y) + g x ≡ total g xs + g y
  total-set [] i x y h = cc
  total-set (z ∷ xs) zero x y h = grind arith
  total-set (z ∷ xs) (suc i) x y h = omega (arith, total-set xs i x y h)

  pub total-append : (xs ys : List A) → total g (xs ++ ys) ≡ total g xs + total g ys
  total-append [] ys = omega arith
  total-append (x ∷ xs) ys = omega (arith, total-append xs ys)

module _ (f : ℕ) where
  pub closed_in-close_all :
      (fs : List ℕ) (log : List Call)
      → closed_in f (close_all fs log) ≡ count f fs + closed_in f log
  closed_in-close_all [] log = omega arith
  closed_in-close_all (g ∷ fs) log = omega (arith, closed_in-close_all fs (closed_fd g ∷ log))

  pub opened_in-close_all :
      (fs : List ℕ) (log : List Call) → opened_in f (close_all fs log) ≡ opened_in f log
  opened_in-close_all [] log = refl
  opened_in-close_all (g ∷ fs) log = opened_in-close_all fs (closed_fd g ∷ log)

  pub closed_in-open_all :
      (fs : List ℕ) (log : List Call) → closed_in f (open_all fs log) ≡ closed_in f log
  closed_in-open_all [] log = refl
  closed_in-open_all (g ∷ fs) log = closed_in-open_all fs (opened g ∷ log)

  pub opened_in-open_all :
      (fs : List ℕ) (log : List Call) → opened_in f (open_all fs log) ≡ count f fs + opened_in f log
  opened_in-open_all [] log = omega arith
  opened_in-open_all (g ∷ fs) log = omega (arith, opened_in-open_all fs (opened g ∷ log))

  pub release_on-same :
      (o : Option StreamSock) (id : ℕ) (log : List Call)
      → (opened_in f (release_on o id log) ≡ opened_in f log)
        × (closed_in f (release_on o id log) ≡ closed_in f log)
  release_on-same none id log = (refl, refl)
  release_on-same (some s) id log = elim (Option-cases s.fd) [
    | inl e ↦ rw e (ground arith)
    | inr (g, e) ↦ rw e (ground arith)
  ]

  pub release_on_sock-BalancedAt :
      (i id : ℕ) (c : Client) → BalancedAt f c → BalancedAt f (release_on_sock i id c)
  unfolding release_on_sock
  release_on_sock-BalancedAt i id c h = omega (
    arith,
    (release_on-same (get_elem? c.socks i) id c.log).0,
    (release_on-same (get_elem? c.socks i) id c.log).1,
  )

  pub discard_retained-BalancedAt :
      (j : ℕ) (c : Client) → BalancedAt f c → BalancedAt f (discard_retained j c)
  unfolding discard_retained
  discard_retained-BalancedAt j c h = h

  run_on_release-BalancedAt :
      (o : Option ℕ) (id j : ℕ) (c : Client)
      → BalancedAt f c
      → BalancedAt f (run_on_release o id j c)
  run_on_release-BalancedAt none id j c h = h
  run_on_release-BalancedAt (some i) id j c h =
      discard_retained-BalancedAt j (release_on_sock i id c) (release_on_sock-BalancedAt i id c h)

  mark_closed-BalancedAt :
      (j : ℕ) (h : FrameHandle) (c : Client)
      → get_elem? c.handles j ≡ some h
      → h.closed ≡ false
      → BalancedAt f c
      → BalancedAt f (mark_closed j h c)
  mark_closed-BalancedAt j h c e still b =
      let held : handle_holds f h ≡ count f h.fds = rw still in
      omega (
        arith,
        held,
        closed_in-close_all h.fds c.log,
        opened_in-close_all h.fds c.log,
        total-set (handle_holds f) c.handles j h (record h { closed = true }) e,
      )

  close_open-BalancedAt :
      (j : ℕ) (o : Option FrameHandle) (c : Client)
      → get_elem? c.handles j ≡ o
      → BalancedAt f c
      → BalancedAt f (close_open j o c)
  close_open-BalancedAt j none c e b = b
  close_open-BalancedAt j (some h) c e b = elim (Bool-cases h.closed) [
    | inl done ↦ rw done b
    | inr still ↦ rw still (
        run_on_release-BalancedAt h.on_release h.frame_id j (mark_closed j h c)
          (mark_closed-BalancedAt j h c e still b))
  ]

  pub close_handle-BalancedAt :
      (j : ℕ) (c : Client) → BalancedAt f c → BalancedAt f (close_handle j c)
  unfolding close_handle
  close_handle-BalancedAt j c b = close_open-BalancedAt j (get_elem? c.handles j) c refl b

  fewer_copies-BalancedAt :
      (o : Option FrameHandle) (j : ℕ) (c : Client)
      → get_elem? c.handles j ≡ o
      → BalancedAt f c
      → BalancedAt f (fewer_copies o j c)
  fewer_copies-BalancedAt none j c e b = b
  fewer_copies-BalancedAt (some h) j c e b =
      omega (arith, total-set (handle_holds f) c.handles j h (record h { copies = h.copies - 1 }) e)

  pub drop_copy-BalancedAt : (j : ℕ) (c : Client) → BalancedAt f c → BalancedAt f (drop_copy j c)
  unfolding drop_copy
  drop_copy-BalancedAt j c b =
      let c' = fewer_copies (get_elem? c.handles j) j c in
      let b' : BalancedAt f c' = fewer_copies-BalancedAt (get_elem? c.handles j) j c refl b in
      elim (Bool-cases (is_live c'.handles j)) [
        | inl live ↦ rw live b'
        | inr last ↦ rw last (close_handle-BalancedAt j c' b')
      ]

  more_copies-BalancedAt :
      (o : Option FrameHandle) (j : ℕ) (c : Client)
      → get_elem? c.handles j ≡ o
      → BalancedAt f c
      → BalancedAt f (more_copies o j c)
  more_copies-BalancedAt none j c e b = b
  more_copies-BalancedAt (some h) j c e b =
      omega (arith, total-set (handle_holds f) c.handles j h (record h { copies = suc h.copies }) e)

  pub copy_handle-BalancedAt :
      (j : ℕ) (c : Client) → BalancedAt f c → BalancedAt f (copy_handle j c)
  unfolding copy_handle
  copy_handle-BalancedAt j c b = more_copies-BalancedAt (get_elem? c.handles j) j c refl b
