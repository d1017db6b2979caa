-- ===== src/Media/Once.antt =====
-- A retained frame: FrameHandle::close and its closure, with FdMediaClient's release_on_sock.
use neoruntime_sdks.Base.{
  ℕ, zero, suc, ◌-◌, ◌≡◌, refl, sym, ◌∙◌, inl, inr, List, [], ◌∷◌, ◌++◌, Option, none, some, Bool,
  true, false, get_elem?, set, if◌then◌else◌, Bool-cases,
}
use neoruntime_sdks.Wire.Words.{u32_le, u64_le}
use neoruntime_sdks.Media.{
  Call, closed_fd, sent, Client, FrameHandle, StreamSock, close_all, send_on, release_msg,
}
use neoruntime_sdks.Media.Handles.{
  is_live, discard_retained, release_on, release_on_sock, run_on_release, mark_closed, close_open,
  close_handle, fewer_copies, drop_copy, more_copies, copy_handle,
}

-- What the holders of copies of one frame do.
pub data Holder : Type 0 where
  releases copies_it drops : Holder

unfoldable pub hold : ℕ → Holder → Client → Client
unfolding close_handle copy_handle drop_copy
hold j releases c = close_handle j c
hold j copies_it c = copy_handle j c
hold j drops c = drop_copy j c

unfoldable pub hold_all : ℕ → List Holder → Client → Client
unfolding hold
hold_all j [] c = c
hold_all j (a ∷ rest) c = hold_all j rest (hold j a c)

abbrev pub HasClosed : Option FrameHandle → Type 0
HasClosed none = ⊥
HasClosed (some h) = h.closed ≡ true

module _ (j : ℕ) where
  abbrev pub IsDone : List Call → Client → Type 0
  IsDone log c = HasClosed (get_elem? c.handles j) × (c.log ≡ log)

  set-HasClosed :
      (hs : List FrameHandle) (i : ℕ) (h : FrameHandle)
      → HasClosed (get_elem? hs i)
      → h.closed ≡ true
      → HasClosed (get_elem? (set hs i h) i)
  set-HasClosed [] i h k e = k
  set-HasClosed (g ∷ hs) zero h k e = e
  set-HasClosed (g ∷ hs) (suc i) h k e = set-HasClosed hs i h k e

  close_open-closed : (o : Option FrameHandle) (c : Client) → HasClosed o → close_open j o c ≡ c
  close_open-closed none c k = absurd k
  close_open-closed (some h) c k = rw k refl

  module _ (log : List Call) where
    close_handle-IsDone : (c : Client) → IsDone log c → IsDone log (close_handle j c)
    unfolding close_handle
    close_handle-IsDone c (k, e) = rw (close_open-closed (get_elem? c.handles j) c k) (k, e)

    more_copies-IsDone :
        (o : Option FrameHandle) (c : Client)
        → HasClosed o
        → IsDone log c
        → IsDone log (more_copies o j c)
    more_copies-IsDone none c k d = d
    more_copies-IsDone (some h) c k (d, e) =
        (set-HasClosed c.handles j (record h { copies = suc h.copies }) d k, e)

    fewer_copies-IsDone :
        (o : Option FrameHandle) (c : Client)
        → HasClosed o
        → IsDone log c
        → IsDone log (fewer_copies o j c)
    fewer_copies-IsDone none c k d = d
    fewer_copies-IsDone (some h) c k (d, e) =
        (set-HasClosed c.handles j (record h { copies = h.copies - 1 }) d k, e)

    hold-IsDone : (a : Holder) (c : Client) → IsDone log c → IsDone log (hold j a c)
    unfolding hold copy_handle drop_copy
    hold-IsDone releases c d = close_handle-IsDone c d
    hold-IsDone copies_it c d = more_copies-IsDone (get_elem? c.handles j) c d.0 d
    hold-IsDone drops c d =
        let c' = fewer_copies (get_elem? c.handles j) j c in
        let d' : IsDone log c' = fewer_copies-IsDone (get_elem? c.handles j) c d.0 d in
        elim (Bool-cases (is_live c'.handles j)) [
          | inl live ↦ rw live d'
          | inr last ↦ rw last (close_handle-IsDone c' d')
        ]

    hold_all-IsDone :
        (rest : List Holder) (c : Client) → IsDone log c → IsDone log (hold_all j rest c)
    unfolding hold_all
    hold_all-IsDone [] c d = d
    hold_all-IsDone (a ∷ rest) c d = hold_all-IsDone rest (hold j a c) (hold-IsDone a c d)

set_closed :
    (hs : List FrameHandle) (j : ℕ) (h g : FrameHandle)
    → get_elem? hs j ≡ some h
    → g.closed ≡ true
    → HasClosed (get_elem? (set hs j g) j)
set_closed [] j h g e k = absurd cc
set_closed (x ∷ hs) zero h g e k = k
set_closed (x ∷ hs) (suc j) h g e k = set_closed hs j h g e k

run_on_release-IsDone :
    (j i id : ℕ) (o : Option ℕ) (c : Client)
    → o ≡ some i
    → HasClosed (get_elem? c.handles j)
    → IsDone j (release_on (get_elem? c.socks i) id c.log) (run_on_release o id j c)
unfolding discard_retained release_on_sock
run_on_release-IsDone j i id o c e d = rw e (d, refl)

close_open-IsDone :
    (j i : ℕ) (h : FrameHandle) (o : Option FrameHandle) (c : Client)
    → o ≡ some h
    → get_elem? c.handles j ≡ some h
    → h.closed ≡ false
    → h.on_release ≡ some i
    → IsDone j
        (release_on (get_elem? c.socks i) h.frame_id (close_all h.fds c.log))
        (close_open j o c)
close_open-IsDone j i h o c eo e k r =
    let done : HasClosed (get_elem? (set c.handles j (record h { closed = true })) j) =
      set_closed c.handles j h (record h { closed = true }) e refl in
    rw eo (simp k (run_on_release-IsDone j i h.frame_id h.on_release (mark_closed j h c) r done))

-- What a frame's end means to the daemon: the calls, the oldest first. A RELEASE is the type 4, the size
-- 16 and the number of the frame; nothing goes to a socket that is dropped.
abbrev pub planes_closed : List ℕ → List Call
planes_closed [] = []
planes_closed (f ∷ fs) = closed_fd f ∷ planes_closed fs

abbrev pub notice_on : Bool → Option ℕ → ℕ → List Call
notice_on false fd frame_id = []
notice_on true none frame_id = []
notice_on true (some fd) frame_id = sent fd (u32_le 4 ++ (u32_le 16 ++ u64_le frame_id)) ∷ []

abbrev pub notice : Option StreamSock → ℕ → List Call
notice none frame_id = []
notice (some s) frame_id = notice_on s.alive s.fd frame_id

-- A log after more calls.
abbrev pub logged : List Call → List Call → List Call
logged [] log = log
logged (a ∷ rest) log = logged rest (a ∷ log)

pub close_all-logged :
    (fs : List ℕ) (more log : List Call)
    → logged (planes_closed fs ++ more) log ≡ logged more (close_all fs log)
close_all-logged [] more log = refl
close_all-logged (f ∷ fs) more log = close_all-logged fs more (closed_fd f ∷ log)

send_on-logged :
    (alive : Bool) (fd : Option ℕ) (frame_id : ℕ) (log : List Call)
    → (if alive then send_on fd (release_msg frame_id) log else log)
      ≡ logged (notice_on alive fd frame_id) log
unfolding release_msg
send_on-logged false fd frame_id log = refl
send_on-logged true none frame_id log = refl
send_on-logged true (some fd) frame_id log = refl

release_on-logged :
    (o : Option StreamSock) (frame_id : ℕ) (log : List Call)
    → release_on o frame_id log ≡ logged (notice o frame_id) log
release_on-logged none frame_id log = refl
release_on-logged (some s) frame_id log = send_on-logged s.alive s.fd frame_id log

-- The first close of a retained frame closes its planes in order and then sends one RELEASE with its
-- number if its socket is still alive, and none otherwise; whatever the holders of its copies do
-- after that, nothing more is closed or sent for it.
pub release_once :
    (j i : ℕ) (h : FrameHandle) (c : Client) (rest : List Holder)
    → get_elem? c.handles j ≡ some h
    → h.closed ≡ false
    → h.on_release ≡ some i
    → (hold_all j (releases ∷ rest) c).log
      ≡ logged (planes_closed h.fds ++ notice (get_elem? c.socks i) h.frame_id) c.log
unfolding hold_all hold close_handle
release_once j i h c rest e k r =
    let log = release_on (get_elem? c.socks i) h.frame_id (close_all h.fds c.log) in
    let first = close_open-IsDone j i h (get_elem? c.handles j) c e e k r in
    (hold_all-IsDone j log rest (close_open j (get_elem? c.handles j) c) first).1
    ∙ (release_on-logged (get_elem? c.socks i) h.frame_id (close_all h.fds c.log)
        ∙ sym (close_all-logged h.fds (notice (get_elem? c.socks i) h.frame_id) c.log))
