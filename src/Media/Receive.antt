-- ===== src/Media/Receive.antt =====
-- recv_frame of media/fd_media_client.cpp, and FdMediaClient::get_frame, which calls it.
use neoruntime_sdks.Base.{
  ℕ, zero, suc, ◌+◌, List, [], ◌∷◌, ◌++◌, Option, none, some, Bool, false, leb, ltb, if◌then◌else◌,
  length, get_elem?, set, Result, ok, err,
}
use neoruntime_sdks.Base.Int.{ℤ}
use neoruntime_sdks.Wire.Words.{get_u32, get_u64}
use neoruntime_sdks.Media.{
  Call, timeout_set, MediaError, socket_eof, read_failed, Client, StreamSock, Recv, eof, again,
  failed_read, message, FrameHandle, PixelFormat, is_frame, frame_id_of, strides_of, sizes_of,
  width_of, height_of, format_of, close_all, open_all, fd_max_attempts, fd_recv_timeout_ms,
}
use neoruntime_sdks.Media.Pixels.{Platform, Mat, materialize_frame_handle, decode_frame_raw, cloned}
use neoruntime_sdks.Media.Handles.{register_retained, release_on_sock, close_handle, drop_copy}
use neoruntime_sdks.Media.Sockets.{get_sock, drop_sock}

-- What the loop of recv_frame comes to: a frame message with its descriptors, nothing in this
-- cycle, or a throw.
pub data Received : Type 0 where
  got : List ℕ → List ℕ → Received
  nothing : Received
  lost : MediaError → Received

pub record Reading : Type 0 where
  pub outcome : Received
  pub rest : List Recv
  pub calls : List Call

abbrev pub reading : Received → List Recv → List Call → Reading
reading r es log = record { outcome = r; rest = es; calls = log }

-- The loop with `n` attempts left, after `eofs` ends of the stream. A read of no bytes is one, too, and
-- its descriptors are not looked at. The count of skipped messages is never read.
unfoldable pub recv_loop : ℕ → ℕ → List Recv → List Call → Reading
recv_loop zero eofs es log = reading nothing es log
recv_loop (suc n) eofs [] log =
    let next = recv_loop n (eofs + 1) [] log in
    if leb 3 (eofs + 1) then reading (lost socket_eof) [] log else next
recv_loop (suc n) eofs (eof ∷ es) log =
    let next = recv_loop n (eofs + 1) es log in
    if leb 3 (eofs + 1) then reading (lost socket_eof) es log else next
recv_loop (suc n) eofs (again ∷ es) log = reading nothing es log
recv_loop (suc n) eofs (failed_read ∷ es) log = reading (lost read_failed) es log
recv_loop (suc n) eofs (message [] fds ∷ es) log =
    let next = recv_loop n (eofs + 1) es log in
    if leb 3 (eofs + 1) then reading (lost socket_eof) es log else next
recv_loop (suc n) eofs (message (b ∷ bs) fds ∷ es) log =
    let skipped = recv_loop n eofs es (close_all fds (open_all fds log)) in
    if is_frame (b ∷ bs) then reading (got (b ∷ bs) fds) es (open_all fds log) else skipped

-- On the descriptor -1 the first read fails.
abbrev pub read_sock : Option ℕ → List Recv → List Call → Reading
read_sock none es log = reading (lost read_failed) es log
read_sock (some f) es log = recv_loop fd_max_attempts 0 es log

pub record Frame : Type 0 where
  pub sequence : ℕ
  pub timestamp_ns : ℕ
  pub width : ℤ
  pub height : ℤ
  pub format : PixelFormat
  pub flags : ℕ
  pub handle : Option ℕ
  pub image : Option Mat

abbrev pub frame_of : List ℕ → Option ℕ → Option Mat → Frame
frame_of bytes handle image = record {
  sequence = get_u64 bytes 24;
  timestamp_ns = get_u64 bytes 16;
  width = width_of bytes;
  height = height_of bytes;
  format = format_of bytes;
  flags = get_u32 bytes 76;
  handle = handle;
  image = image;
}

abbrev pub handle_of : List ℕ → List ℕ → Option ℕ → FrameHandle
handle_of bytes fds on_release = record {
  fds = fds;
  strides = strides_of bytes;
  plane_sizes = sizes_of bytes;
  frame_id = frame_id_of bytes;
  width = width_of bytes;
  height = height_of bytes;
  format = format_of bytes;
  flags = get_u32 bytes 76;
  closed = false;
  on_release = on_release;
  copies = 1;
}

abbrev pub FrameResult : Type 0
FrameResult = Result MediaError (Option Frame)

-- The retained path: the handle keeps the descriptors.
unfoldable pub retain : ℕ → List ℕ → List ℕ → Client → FrameResult × Client
unfolding register_retained
retain i bytes fds c =
    let j = length c.handles in
    (
      ok (some (frame_of bytes (some j) none)),
      register_retained j (record c { handles = c.handles ++ (handle_of bytes fds (some i) ∷ []) }),
    )

-- The planes of a frame as an image.
unfoldable pub pixels : Platform → List ℕ → List ℕ → Result MediaError Mat
unfolding materialize_frame_handle decode_frame_raw
pixels os bytes fds = elim (materialize_frame_handle os (sizes_of bytes) fds) [
  | err e ↦ err e
  | ok raw ↦ cloned (decode_frame_raw os raw (width_of bytes) (height_of bytes) (format_of bytes))
]

-- The copy path: the temporary handle closes the descriptors on the way out, by a throw too.
abbrev pub copied : ℕ → List ℕ → List ℕ → Result MediaError Mat → Client → FrameResult × Client
copied i bytes fds (err e) c = (err e, record c { log = close_all fds c.log })
copied i bytes fds (ok image) c = (
  ok (some (frame_of bytes none (some image))),
  release_on_sock i (frame_id_of bytes) (record c { log = close_all fds c.log }),
)

abbrev pub take_frame : Platform → Bool → ℕ → List ℕ → List ℕ → Client → FrameResult × Client
take_frame os keep_fd i bytes [] c = (ok none, release_on_sock i (frame_id_of bytes) c)
take_frame os keep_fd i bytes (f ∷ fs) c =
    if keep_fd
    then retain i bytes (f ∷ fs) c
    else copied i bytes (f ∷ fs) (pixels os bytes (f ∷ fs)) c

abbrev pub after_loop : Platform → Bool → ℕ → Received → Client → FrameResult × Client
after_loop os keep_fd i (lost e) c = (err e, c)
after_loop os keep_fd i nothing c = (ok none, c)
after_loop os keep_fd i (got bytes fds) c = take_frame os keep_fd i bytes fds c

abbrev pub after_reading : ℕ → StreamSock → Reading → Client → Client
after_reading i s r c = record c {
  socks = set c.socks i (record s { incoming = r.rest });
  log = r.calls;
}

abbrev pub recv_from : Platform → Bool → ℕ → Option StreamSock → Client → FrameResult × Client
recv_from os keep_fd i none c = (err read_failed, c)
recv_from os keep_fd i (some s) c =
    let r = read_sock s.fd s.incoming c.log in
    after_loop os keep_fd i r.outcome (after_reading i s r c)

unfoldable pub recv_frame : Platform → Bool → ℕ → Client → FrameResult × Client
unfolding recv_loop retain pixels release_on_sock
recv_frame os keep_fd i c = recv_from os keep_fd i (get_elem? c.socks i) c

abbrev pub set_timeout_on : Option StreamSock → ℕ → List Call → List Call
set_timeout_on none ms log = log
set_timeout_on (some s) ms log = elim s.fd [ none ↦ log | some f ↦ timeout_set f ms ∷ log ]

abbrev pub set_recv_timeout : ℕ → ℕ → Client → Client
set_recv_timeout i ms c = record c { log = set_timeout_on (get_elem? c.socks i) ms c.log }

-- A throw drops the socket and goes on.
abbrev pub or_drop : List ℕ → FrameResult × Client → FrameResult × Client
or_drop id (ok f, c) = (ok f, c)
or_drop id (err e, c) = (err e, drop_sock id c)

abbrev pub get_frame_on :
    Platform → List ℕ → ℕ → Bool → Result MediaError ℕ × Client → FrameResult × Client
get_frame_on os id timeout_ms keep_fd (err e, c) = (err e, c)
get_frame_on os id timeout_ms keep_fd (ok i, c) =
    let ms = if ltb 0 timeout_ms then timeout_ms else fd_recv_timeout_ms in
    or_drop id (recv_frame os keep_fd i (set_recv_timeout i ms c))

unfoldable pub get_frame : Platform → List ℕ → ℕ → Bool → Client → FrameResult × Client
unfolding get_sock recv_frame drop_sock
get_frame os id timeout_ms keep_fd c = get_frame_on os id timeout_ms keep_fd (get_sock id c)

-- Frame::release, and the end of a Frame.
abbrev pub release : Frame → Client → Client
release f c = elim f.handle [ none ↦ c | some j ↦ close_handle j c ]

abbrev pub drop_frame : Frame → Client → Client
drop_frame f c = elim f.handle [ none ↦ c | some j ↦ drop_copy j c ]
