-- ===== src/Media/Handles.antt =====
-- FrameHandle::close and its destructor (media/frame.cpp), and the FrameRetainer, release_on_sock,
-- register_retained and discard_retained of media/fd_media_client.cpp.
use neoruntime_sdks.Base.{
  ℕ, suc, ◌-◌, List, [], ◌∷◌, ◌++◌, Option, none, some, Bool, true, false, ltb, ◌==◌, ◌&&◌,
  if◌then◌else◌, length, get_elem?, set,
}
use neoruntime_sdks.Media.{Call, Client, FrameHandle, StreamSock, release_msg, send_on, close_all}

-- Whether a weak pointer can be locked: a shared pointer to the handle is left.
abbrev pub has_copies : Option FrameHandle → Bool
has_copies none = false
has_copies (some h) = ltb 0 h.copies

unfoldable pub is_live : List FrameHandle → ℕ → Bool
is_live hs i = has_copies (get_elem? hs i)

unfoldable pub prune : List FrameHandle → List ℕ → List ℕ
unfolding is_live
prune hs [] = []
prune hs (i ∷ is) = let rest = prune hs is in if is_live hs i then i ∷ rest else rest

-- The loop of discard: the items without the first live pointer to the handle, if there is one.
unfoldable pub erase_handle : List FrameHandle → ℕ → List ℕ → Option (List ℕ)
unfolding is_live
erase_handle hs j [] = none
erase_handle hs j (i ∷ is) =
    if is_live hs i && (i == j)
    then some is
    else elim (erase_handle hs j is) [ none ↦ none | some rest ↦ some (i ∷ rest) ]

abbrev pub or_prune : List FrameHandle → List ℕ → Option (List ℕ) → List ℕ
or_prune hs is none = prune hs is
or_prune hs is (some rest) = rest

unfoldable pub discard_retained : ℕ → Client → Client
unfolding erase_handle prune
discard_retained j c = record c {
  retained = or_prune c.handles c.retained (erase_handle c.handles j c.retained);
}

unfoldable pub register_retained : ℕ → Client → Client
unfolding prune
register_retained j c = record c { retained = prune c.handles c.retained ++ (j ∷ []) }

unfoldable pub retained_frames : Client → ℕ × Client
unfolding prune
retained_frames c =
    let items = prune c.handles c.retained in (length items, record c { retained = items })

abbrev pub release_on : Option StreamSock → ℕ → List Call → List Call
release_on none frame_id log = log
release_on (some s) frame_id log = if s.alive then send_on s.fd (release_msg frame_id) log else log

unfoldable pub release_on_sock : ℕ → ℕ → Client → Client
release_on_sock i frame_id c = record c { log = release_on (get_elem? c.socks i) frame_id c.log }

-- The closure that recv_frame gives a retained handle; no closure, no call.
abbrev pub run_on_release : Option ℕ → ℕ → ℕ → Client → Client
run_on_release none frame_id j c = c
run_on_release (some i) frame_id j c = discard_retained j (release_on_sock i frame_id c)

abbrev pub mark_closed : ℕ → FrameHandle → Client → Client
mark_closed j h c = record c {
  handles = set c.handles j (record h { closed = true });
  log = close_all h.fds c.log;
}

abbrev pub close_open : ℕ → Option FrameHandle → Client → Client
close_open j none c = c
close_open j (some h) c =
    if h.closed then c else run_on_release h.on_release h.frame_id j (mark_closed j h c)

-- FrameHandle::close
unfoldable pub close_handle : ℕ → Client → Client
unfolding discard_retained release_on_sock
close_handle j c = close_open j (get_elem? c.handles j) c

abbrev pub fewer_copies : Option FrameHandle → ℕ → Client → Client
fewer_copies none j c = c
fewer_copies (some h) j c = record c {
  handles = set c.handles j (record h { copies = h.copies - 1 });
}

-- A shared pointer to the handle goes: the last one runs the destructor, which closes it.
unfoldable pub drop_copy : ℕ → Client → Client
unfolding is_live close_handle
drop_copy j c =
    let c' = fewer_copies (get_elem? c.handles j) j c in
    if is_live c'.handles j then c' else close_handle j c'

-- A Frame that holds the handle is copied.
abbrev pub more_copies : Option FrameHandle → ℕ → Client → Client
more_copies none j c = c
more_copies (some h) j c = record c {
  handles = set c.handles j (record h { copies = suc h.copies });
}

unfoldable pub copy_handle : ℕ → Client → Client
copy_handle j c = more_copies (get_elem? c.handles j) j c
