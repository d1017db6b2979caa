-- ===== src/Media.antt =====
-- media/fd_media_client.cpp: the client's data, and the messages of detail/fd_protocol.hpp that it
-- writes and reads. Pointers are places in lists: a StreamSock is its place among the client's
-- sockets, a FrameHandle its place among the client's handles. A name is the list of its bytes.
pub mod Pixels
pub mod Handles
pub mod Sockets
pub mod Receive
pub mod Stream
pub mod Ledger
pub mod Still
pub mod Listing
pub mod Total
mod Tests
pub mod Once
pub mod Decimation
use neoruntime_sdks.Base.{
  ℕ, ◌-◌, ◌≡◌, refl, List, [], ◌∷◌, ◌++◌, map, Option, none, some, Bool, true, false, ◌&&◌, leb,
  ◌==◌, if◌then◌else◌, length, take, replicate,
}
use neoruntime_sdks.Base.Int.{ℤ, of_u32}
use neoruntime_sdks.Socket.{Accept, Event}
use neoruntime_sdks.Wire.Words.{u32_le, u64_le, get_u32, get_u64}

abbrev pub fd_frame_size : ℕ
fd_frame_size = 80

abbrev pub fd_resp_size : ℕ
fd_resp_size = 12

abbrev pub fd_max_attempts : ℕ
fd_max_attempts = 32

abbrev pub fd_reconnect_attempts : ℕ
fd_reconnect_attempts = 5

abbrev pub fd_recv_timeout_ms : ℕ
fd_recv_timeout_ms = 5000

abbrev pub fd_reconnect_sleep_ms : ℕ
fd_reconnect_sleep_ms = 500

pub data PixelFormat : Type 0 where
  nv12 nv21 rgb bgr rgba bgra gray8 yuyv : PixelFormat
  unknown : ℕ → PixelFormat

pub data MediaError : Type 0 where
  connect_failed send_failed no_response socket_eof read_failed no_planes bad_image : MediaError
  rejected : ℤ → MediaError
  map_failed : ℕ → MediaError

-- What one recvmsg_with_fds returns: the end of the stream, an expired timeout, another error, or
-- at most 80 bytes with at most 3 descriptors. After the last of them the peer has closed.
pub data Recv : Type 0 where
  eof again failed_read : Recv
  message : List ℕ → List ℕ → Recv

-- The calls of the kernel that matter, the newest first: a descriptor that came in (of a socket, or
-- of a plane), a close, a send, a receive timeout, a sleep.
pub data Call : Type 0 where
  opened closed_fd slept : ℕ → Call
  sent : ℕ → List ℕ → Call
  timeout_set : ℕ → ℕ → Call

-- A daemon that accepts a connection: the descriptor, how it takes the SUBSCRIBE, what it answers,
-- and what it sends from then on.
pub record Peer : Type 0 where
  pub socket : ℕ
  pub accepts_bytes : List Accept
  pub reply : List Event
  pub script : List Recv

-- `fd` is none for -1.
pub record StreamSock : Type 0 where
  pub fd : Option ℕ
  pub alive : Bool
  pub incoming : List Recv

-- `copies` counts the shared pointers to the handle; the closure on_release holds its socket.
pub record FrameHandle : Type 0 where
  pub fds : List ℕ
  pub strides : ℕ × ℕ × ℕ
  pub plane_sizes : ℕ × ℕ × ℕ
  pub frame_id : ℕ
  pub width : ℤ
  pub height : ℤ
  pub format : PixelFormat
  pub flags : ℕ
  pub closed : Bool
  pub on_release : Option ℕ
  pub copies : ℕ

-- The Impl of the client, with what the kernel has for it. `retained` holds weak pointers.
pub record Client : Type 0 where
  pub streams : List (List ℕ × ℕ)
  pub socks : List StreamSock
  pub handles : List FrameHandle
  pub retained : List ℕ
  pub connects : List (Option Peer)
  pub log : List Call

abbrev pub format_code_to_name : ℕ → PixelFormat
format_code_to_name code =
    if code == 0
    then nv12
    else if code == 1
    then nv21
    else if code == 2
    then rgb
    else if code == 3
    then bgr
    else if code == 4
    then rgba
    else if code == 5
    then bgra
    else if code == 6
    then gray8
    else if code == 7
    then yuyv
    else unknown code

-- FdPubSubscribeMsg: at most 63 bytes of the name, and zeros up to 64.
abbrev pub stream_name : List ℕ → List ℕ
stream_name name = take 63 name ++ replicate (64 - length (take 63 name)) 0

unfoldable pub subscribe_msg : List ℕ → List ℕ
subscribe_msg name = u32_le 1 ++ (u32_le 76 ++ (u32_le 1 ++ stream_name name))

unfoldable pub release_msg : ℕ → List ℕ
release_msg frame_id = u32_le 4 ++ (u32_le 16 ++ u64_le frame_id)

unfoldable pub unsubscribe_msg : List ℕ
unsubscribe_msg = u32_le 2 ++ u32_le 8

-- A whole FdPubFrameMsg.
unfoldable pub is_frame : List ℕ → Bool
is_frame bytes = leb fd_frame_size (length bytes) && (get_u32 bytes 0 == 3)

abbrev pub frame_id_of : List ℕ → ℕ
frame_id_of bytes = get_u64 bytes 8

abbrev pub strides_of : List ℕ → ℕ × ℕ × ℕ
strides_of bytes = (get_u32 bytes 48, get_u32 bytes 52, get_u32 bytes 56)

abbrev pub sizes_of : List ℕ → ℕ × ℕ × ℕ
sizes_of bytes = (get_u32 bytes 60, get_u32 bytes 64, get_u32 bytes 68)

abbrev pub width_of : List ℕ → ℤ
width_of bytes = of_u32 (get_u32 bytes 32)

abbrev pub height_of : List ℕ → ℤ
height_of bytes = of_u32 (get_u32 bytes 36)

abbrev pub format_of : List ℕ → PixelFormat
format_of bytes = format_code_to_name (get_u32 bytes 40)

-- Calls on a descriptor that is -1 do nothing.
abbrev pub close_fd : Option ℕ → List Call → List Call
close_fd none log = log
close_fd (some f) log = closed_fd f ∷ log

abbrev pub send_on : Option ℕ → List ℕ → List Call → List Call
send_on none bytes log = log
send_on (some f) bytes log = sent f bytes ∷ log

abbrev pub close_all : List ℕ → List Call → List Call
close_all [] log = log
close_all (f ∷ fs) log = close_all fs (closed_fd f ∷ log)

abbrev pub open_all : List ℕ → List Call → List Call
open_all [] log = log
open_all (f ∷ fs) log = open_all fs (opened f ∷ log)
