-- ===== src/Audio/Tests.antt =====
-- A packet as the daemon sends it, a client that loses its daemon, and the theorems about them.
use neoruntime_sdks.Base.{◌≡◌, refl, List, [], ◌∷◌, none, some, true, false, arith, err}
use neoruntime_sdks.Socket.{Event, chunk, failed}
use neoruntime_sdks.Transport.{World}
use neoruntime_sdks.Encoded.{EncHeader}
use neoruntime_sdks.Encoded.Frames.{Fits}
use neoruntime_sdks.Encoded.Stream.{unreachable}
use neoruntime_sdks.Audio.{audio_frame, AudioStreamClient, recv_frame, next_frame}
use neoruntime_sdks.Audio.Frames.{as_audio, unknown_format, Hears, recv_frame_video-Hears}
use neoruntime_sdks.Audio.Reconnect.{Ends, next_frame-Ends, next_frame_gives_up}

abbrev header : EncHeader
header = record {
  total_size = 32;
  codec = 1;
  flags = 1;
  pts_ns = 5;
  width = 0;
  height = 0;
  dts_ns = 8589934597;
}

header-Fits : Fits header
header-Fits = record {
  total_size = omega arith;
  codec = omega arith;
  flags = omega arith;
  pts_ns = omega arith;
  width = omega arith;
  height = omega arith;
  dts_ns = omega arith;
}

-- The packet, in two parts, and one byte of the next.
abbrev socket : List Event
socket =
    chunk 32 (0 ∷ 0 ∷ 0 ∷ 1 ∷ 1 ∷ 5 ∷ 0 ∷ 0 ∷ 0 ∷ 0 ∷ 0 ∷ 0 ∷ 0 ∷ 0 ∷ 0 ∷ 0 ∷ 0 ∷ 0 ∷ 0 ∷ [])
    ∷ chunk 0 (0 ∷ 5 ∷ 0 ∷ 0 ∷ 0 ∷ 2 ∷ 0 ∷ 0 ∷ 0 ∷ 7 ∷ 8 ∷ 9 ∷ [])
    ∷ []

recv_frame_video-Hears_example :
    Hears
      (audio_frame (as_audio header) (unknown_format 8589934597) (7 ∷ 8 ∷ []))
      (9 ∷ [])
      (recv_frame socket)
recv_frame_video-Hears_example =
    recv_frame_video-Hears header (7 ∷ 8 ∷ []) (9 ∷ []) socket header-Fits (omega arith) refl
      (omega arith) tt refl

abbrev client : AudioStreamClient
client = record { fd = some (failed ∷ []); closed = false }

abbrev unreachable_twice : World
unreachable_twice = record { connects = none ∷ none ∷ some socket ∷ []; sleeps = [] }

next_frame-Ends_example : Ends (next_frame 5 true client unreachable_twice)
next_frame-Ends_example = next_frame-Ends 5 true client unreachable_twice (omega arith)

no_frame : (recv_frame (failed ∷ [])).0 ≡ none
unfolding recv_frame
no_frame = refl

next_frame_gives_up_example :
    next_frame 2 true client unreachable_twice
    ≡ some (
      err unreachable,
      record { fd = none; closed = false },
      record { connects = some socket ∷ []; sleeps = 500 ∷ 2000 ∷ [] },
    )
next_frame_gives_up_example = next_frame_gives_up 0 (failed ∷ []) (some socket ∷ []) [] no_frame
