-- ===== src/Media/Ledger/Tidy.antt =====
-- What holds a descriptor and how it is reached: the shared pointers of a handle and the map of
-- sockets. Handles.
pub mod Cached
pub mod Frames
pub mod Socks
pub mod Shut
use neoruntime_sdks.Base.{
  ℕ, zero, suc, ◌-◌, ◌≡◌, refl, inl, inr, List, [], ◌∷◌, ◌++◌, Option, none, some, Bool, true,
  false, ltb, get_elem?, set, if◌then◌else◌, arith, Bool-cases,
}
use neoruntime_sdks.Media.{Client, FrameHandle, StreamSock}
use neoruntime_sdks.Media.Handles.{
  is_live, discard_retained, release_on_sock, run_on_release, mark_closed, close_open, close_handle,
  fewer_copies, drop_copy, more_copies, copy_handle,
}
use neoruntime_sdks.Media.Sockets.{find_stream}

abbrev pub All {ℓ} : {A : Type ℓ} → (A → Type 0) → List A → Type 0
All Q [] = Unit
All Q (x ∷ xs) = Q x × All Q xs

-- A handle without shared pointers is closed.
abbrev pub HandleTidy : FrameHandle → Type 0
HandleTidy h = h.copies ≡ 0 → h.closed ≡ true

-- A socket that is dropped has no descriptor.
abbrev pub SockTidy : StreamSock → Type 0
SockTidy s = s.alive ≡ false → s.fd ≡ none

-- A socket that is alive is the one that the client has for a stream.
abbrev pub CachedIn : List (List ℕ × ℕ) → List StreamSock → Type 0
CachedIn streams socks =
    (i : ℕ) (s : StreamSock)
    → get_elem? socks i ≡ some s
    → s.alive ≡ true
    → (id : List ℕ) × (find_stream id streams ≡ some i)

abbrev pub IsTidy : Client → Type 0
IsTidy c = All HandleTidy c.handles × (All SockTidy c.socks × CachedIn c.streams c.socks)

module _ {ℓ} {A : Type ℓ} (Q : A → Type 0) where
  pub All-set : (xs : List A) (j : ℕ) (x : A) → All Q xs → Q x → All Q (set xs j x)
  All-set [] j x a q = tt
  All-set (y ∷ xs) zero x (_, a) q = (q, a)
  All-set (y ∷ xs) (suc j) x (p, a) q = (p, All-set xs j x a q)

  pub All-set_twice :
      (xs : List A) (j : ℕ) (x y : A) → All Q xs → Q y → All Q (set (set xs j x) j y)
  All-set_twice [] j x y a q = tt
  All-set_twice (z ∷ xs) zero x y (_, a) q = (q, a)
  All-set_twice (z ∷ xs) (suc j) x y (p, a) q = (p, All-set_twice xs j x y a q)

  pub All-append : (xs ys : List A) → All Q xs → All Q ys → All Q (xs ++ ys)
  All-append [] ys a b = b
  All-append (x ∷ xs) ys (p, a) b = (p, All-append xs ys a b)

  pub All-get : (xs : List A) (j : ℕ) (x : A) → All Q xs → get_elem? xs j ≡ some x → Q x
  All-get [] j x a e = absurd cc
  All-get (y ∷ xs) zero x (p, a) e = let same : y ≡ x = cc in rw⁻¹ same p
  All-get (y ∷ xs) (suc j) x (p, a) e = All-get xs j x a e

get-set_same :
    (hs : List FrameHandle) (j : ℕ) (h g : FrameHandle)
    → get_elem? hs j ≡ some h
    → get_elem? (set hs j g) j ≡ some g
get-set_same [] j h g e = absurd cc
get-set_same (x ∷ hs) zero h g e = refl
get-set_same (x ∷ hs) (suc j) h g e = get-set_same hs j h g e

run_on_release-IsTidy :
    (o : Option ℕ) (id j : ℕ) (c : Client) → IsTidy c → IsTidy (run_on_release o id j c)
unfolding discard_retained release_on_sock
run_on_release-IsTidy none id j c t = t
run_on_release-IsTidy (some i) id j c t = t

close_open-IsTidy :
    (j : ℕ) (o : Option FrameHandle) (c : Client) → IsTidy c → IsTidy (close_open j o c)
close_open-IsTidy j none c t = t
close_open-IsTidy j (some h) c (a, t) = elim (Bool-cases h.closed) [
  | inl done ↦ rw done (a, t)
  | inr still ↦ rw still (
      run_on_release-IsTidy h.on_release h.frame_id j (mark_closed j h c)
        (All-set HandleTidy c.handles j (record h { closed = true }) a (λ z. refl), t))
]

pub close_handle-IsTidy : (j : ℕ) (c : Client) → IsTidy c → IsTidy (close_handle j c)
unfolding close_handle
close_handle-IsTidy j c t = close_open-IsTidy j (get_elem? c.handles j) c t

more_copies-IsTidy :
    (o : Option FrameHandle) (j : ℕ) (c : Client) → IsTidy c → IsTidy (more_copies o j c)
more_copies-IsTidy none j c t = t
more_copies-IsTidy (some h) j c (a, t) = (
  All-set HandleTidy c.handles j (record h { copies = suc h.copies }) a (λ z. absurd (omega arith)),
  t,
)

pub copy_handle-IsTidy : (j : ℕ) (c : Client) → IsTidy c → IsTidy (copy_handle j c)
unfolding copy_handle
copy_handle-IsTidy j c t = more_copies-IsTidy (get_elem? c.handles j) j c t

-- The handle that has just lost its last shared pointer is closed.
close_last-IsTidy :
    (j : ℕ) (h : FrameHandle) (c : Client)
    → IsTidy c
    → IsTidy (close_open j (some h) (record c { handles = set c.handles j h }))
close_last-IsTidy j h c (a, t) = elim (Bool-cases h.closed) [
  | inl done ↦ simp done (All-set HandleTidy c.handles j h a (λ z. done), t)
  | inr still ↦ simp still (
      run_on_release-IsTidy h.on_release h.frame_id j
        (mark_closed j h (record c { handles = set c.handles j h }))
        (All-set_twice HandleTidy c.handles j h (record h { closed = true }) a (λ z. refl), t))
]

dropped-IsTidy :
    (o : Option FrameHandle) (j : ℕ) (c : Client)
    → get_elem? c.handles j ≡ o
    → IsTidy c
    → IsTidy (
        if is_live (fewer_copies o j c).handles j
        then fewer_copies o j c
        else close_handle j (fewer_copies o j c))
unfolding is_live close_handle
dropped-IsTidy none j c e t = rw e t
dropped-IsTidy (some h) j c e (a, t) =
    let h' = record h { copies = h.copies - 1 } in
    let here = get-set_same c.handles j h h' e in
    elim (Bool-cases (ltb 0 h'.copies)) [
      | inl live ↦
          rw (here, live) (All-set HandleTidy c.handles j h' a (λ z. absurd (ground arith)), t)
      | inr last ↦ rw (here, last) (close_last-IsTidy j h' c (a, t))
    ]

pub drop_copy-IsTidy : (j : ℕ) (c : Client) → IsTidy c → IsTidy (drop_copy j c)
unfolding drop_copy
drop_copy-IsTidy j c t = dropped-IsTidy (get_elem? c.handles j) j c refl t
