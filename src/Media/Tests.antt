-- ===== src/Media/Tests.antt =====
-- A daemon that sends three frames, and the theorems about the client that reads them.
use neoruntime_sdks.Base.{
  ℕ, ◌+◌, ◌≡◌, refl, List, [], ◌∷◌, ◌++◌, Option, none, some, true, false, arith,
}
use neoruntime_sdks.Base.Int.{pos}
use neoruntime_sdks.Socket.{chunk, accepts, recv_exact, send_all}
use neoruntime_sdks.Wire.Words.{u32_le, u64_le, get_u32, get_u64}
use neoruntime_sdks.Media.{
  opened, closed_fd, sent, timeout_set, rgb, eof, again, Peer, FrameHandle, Client, is_frame,
  release_msg, subscribe_msg,
}
use neoruntime_sdks.Media.Pixels.{Platform}
use neoruntime_sdks.Media.Receive.{Frame, get_frame}
use neoruntime_sdks.Media.Stream.{FdMediaStream, State, subscribe, next}
use neoruntime_sdks.Media.Ledger.{IsBalanced}
use neoruntime_sdks.Media.Ledger.Tidy.{IsTidy}
use neoruntime_sdks.Media.Ledger.Uses.{
  new_client, Use, gets_frame, pulls, releases, copies_frame, drops, closes, perform_all,
}
use neoruntime_sdks.Media.Ledger.Calls.{perform_all-IsBalanced}
use neoruntime_sdks.Media.Total.{next_returns}
use neoruntime_sdks.Media.Decimation.{Message, recv_of}
use neoruntime_sdks.Media.Decimation.Nth.{Yields, next_decimates}
use neoruntime_sdks.Media.Once.{Holder, hold_all, release_once}

-- A frame of 2 by 1 pixels in RGB with one plane of 6 bytes.
abbrev frame_bytes : ℕ → List ℕ
frame_bytes n =
    u32_le 3
    ++ (u32_le 80
        ++ (u64_le (100 + n)
            ++ (u64_le (1000 + n)
                ++ (u64_le n
                    ++ (u32_le 2
                        ++ (u32_le 1
                            ++ (u32_le 2
                                ++ (u32_le 1
                                    ++ (u32_le 6
                                        ++ (u32_le 0
                                            ++ (u32_le 0
                                                ++ (u32_le 6
                                                    ++ (u32_le 0
                                                        ++ (u32_le 0
                                                            ++ (u32_le 1 ++ u32_le 0)))))))))))))))

abbrev frame_message : ℕ → Message
frame_message n = record { bytes = frame_bytes n; first = 20 + n; others = [] }

-- Every descriptor maps to six bytes.
abbrev linux : Platform
linux = record {
  mapped = λ f. some (f ∷ 1 ∷ 2 ∷ 3 ∷ 4 ∷ 5 ∷ []);
  clone_mat = λ h w k raw. some (record { rows = h; cols = w; channels = k; data_bytes = raw });
}

abbrev main_name : List ℕ
main_name = b'm' ∷ b'a' ∷ b'i' ∷ b'n' ∷ []

abbrev daemon : Peer
daemon = record {
  socket = 7;
  accepts_bytes = accepts 76 ∷ [];
  reply = chunk 5 (0 ∷ 0 ∷ 0 ∷ 12 ∷ 0 ∷ 0 ∷ 0 ∷ 0 ∷ 0 ∷ 0 ∷ 0 ∷ []) ∷ [];
  script =
      recv_of (frame_message 0)
      ∷ again
      ∷ recv_of (frame_message 1)
      ∷ recv_of (frame_message 2)
      ∷ [];
}

abbrev every_second : FdMediaStream
every_second = subscribe main_name 2 true true

abbrev user : List Use
user =
    gets_frame main_name 100 false
    ∷ pulls every_second
    ∷ copies_frame 0
    ∷ releases 0
    ∷ drops 0
    ∷ drops 0
    ∷ closes
    ∷ []

-- The first frame is read in the copy mode: its plane is closed, and then it is released.
get_frame_copies :
    (get_frame linux main_name 100 false (new_client (some daemon ∷ []))).1.log
    ≡ sent 7 (release_msg 100) ∷ closed_fd 20 ∷ opened 20 ∷ timeout_set 7 100 ∷ opened 7 ∷ []
unfolding get_frame new_client release_msg send_all subscribe_msg recv_exact get_u32 is_frame
    get_u64
get_frame_copies = refl

perform_all-IsBalanced_example :
    IsBalanced (perform_all linux user (new_client (some daemon ∷ none ∷ [])))
    × IsTidy (perform_all linux user (new_client (some daemon ∷ none ∷ [])))
perform_all-IsBalanced_example = perform_all-IsBalanced linux user (some daemon ∷ none ∷ [])

next_returns_example :
    (r : Option Frame × State) × (next linux (every_second, new_client (none ∷ some daemon ∷ []))
      ≡ some r)
next_returns_example = next_returns linux every_second (new_client (none ∷ some daemon ∷ []))

abbrev feeding : Client
feeding = record {
  streams = (main_name, 0) ∷ [];
  socks =
      record {
        fd = some 7;
        alive = true;
        incoming = recv_of (frame_message 1) ∷ recv_of (frame_message 2) ∷ eof ∷ [];
      }
      ∷ [];
  handles = [];
  retained = [];
  connects = [];
  log = [];
}

abbrev pulling : FdMediaStream
pulling = record {
  stream_id = main_name;
  interval = 2;
  keep_fd = true;
  reconnect = true;
  exhausted = false;
  seen = 1;
  sock = some 0;
}

is_frame_one : is_frame (frame_bytes 1) ≡ true
unfolding is_frame get_u32
is_frame_one = refl

is_frame_two : is_frame (frame_bytes 2) ≡ true
unfolding is_frame get_u32
is_frame_two = refl

next_decimates_example :
    Yields linux 0 7 (eof ∷ []) (frame_message 2) 1 pulling (next linux (pulling, feeding))
next_decimates_example =
    next_decimates linux 0 7 (frame_message 1 ∷ []) (frame_message 2) (eof ∷ []) pulling feeding
      refl refl (omega arith) (is_frame_one, tt) is_frame_two (omega arith) (λ j h. omega arith)
      (omega arith) refl

abbrev held : FrameHandle
held = record {
  fds = 21 ∷ 22 ∷ [];
  strides = (6, 6, 0);
  plane_sizes = (6, 3, 0);
  frame_id = 9;
  width = pos 2;
  height = pos 1;
  format = rgb;
  flags = 0;
  closed = false;
  on_release = some 0;
  copies = 2;
}

abbrev holding : Client
holding = record feeding { handles = held ∷ []; retained = 0 ∷ [] }

release_once_example :
    (hold_all 0 (Holder.releases ∷ Holder.drops ∷ Holder.drops ∷ []) holding).log
    ≡ sent 7 (4 ∷ 0 ∷ 0 ∷ 0 ∷ 16 ∷ 0 ∷ 0 ∷ 0 ∷ 9 ∷ 0 ∷ 0 ∷ 0 ∷ 0 ∷ 0 ∷ 0 ∷ 0 ∷ [])
      ∷ closed_fd 22
      ∷ closed_fd 21
      ∷ []
release_once_example =
    release_once 0 0 held holding (Holder.drops ∷ Holder.drops ∷ []) refl refl refl
