-- ===== src/Encoded/Tests.antt =====
-- Concrete packets and streams for the theorems about the encoded-stream client.
use neoruntime_sdks.Base.{◌+◌, ◌≡◌, refl, List, [], ◌∷◌, ◌++◌, none, some, false, arith, replicate}
use neoruntime_sdks.Socket.{Event, chunk, interrupted}
use neoruntime_sdks.Transport.{World}
use neoruntime_sdks.Transport.Backoff.{world, ramp}
use neoruntime_sdks.Encoded.{EncHeader, new_tracker, read_one_frame}
use neoruntime_sdks.Encoded.Stream.{encoded_stream, Pulled, next}
use neoruntime_sdks.Encoded.Pull.{Carries, Pulls, next-Pulls}
use neoruntime_sdks.Encoded.Gaps.{Accounts, observe_all, tracker-Accounts}
use neoruntime_sdks.Encoded.Frames.{Received, read_one_frame-Received}
use neoruntime_sdks.Encoded.Reconnect.{closed_uds, next_terminates, next_unbounded}

-- Packets 1, 2, 5 and 6: two are missing.
tracker-Accounts_example : Accounts 1 6 (observe_all new_tracker (1 ∷ 2 ∷ 5 ∷ 6 ∷ []))
tracker-Accounts_example =
    tracker-Accounts 1 (2 ∷ 5 ∷ 6 ∷ []) (omega arith) (omega arith)
      (omega arith, omega arith, (omega arith, omega arith, (omega arith, omega arith, tt)))

-- A keyframe of 1920 × 1080 with a sequence number and a payload of two bytes.
abbrev keyframe : EncHeader
keyframe = record {
  total_size = 40;
  codec = 1;
  flags = 3;
  pts_ns = 1000;
  width = 1920;
  height = 1080;
  dts_ns = 900;
}

-- The header in one chunk, and the rest after an interruption.
abbrev keyframe_socket : List Event
keyframe_socket =
    chunk 40
      (0 ∷ 0 ∷ 0 ∷ 1 ∷ 3 ∷ 232 ∷ 3 ∷ 0 ∷ 0 ∷ 0 ∷ 0 ∷ 0 ∷ 0 ∷ 128 ∷ 7 ∷ 0 ∷ 0 ∷ 56 ∷ 4 ∷ 0 ∷ 0 ∷ [])
    ∷ interrupted
    ∷ chunk 132 (3 ∷ 0 ∷ 0 ∷ 0 ∷ 0 ∷ 0 ∷ 0 ∷ 7 ∷ 0 ∷ 0 ∷ 0 ∷ 0 ∷ 0 ∷ 0 ∷ 0 ∷ 65 ∷ 66 ∷ 9 ∷ [])
    ∷ []

read_one_frame-Received_example :
    Received keyframe
      (some 7)
      (65 ∷ 66 ∷ [])
      (9 ∷ [])
      new_tracker
      (read_one_frame keyframe_socket new_tracker)
read_one_frame-Received_example =
    read_one_frame-Received keyframe (some 7) (65 ∷ 66 ∷ []) (9 ∷ []) keyframe_socket new_tracker
      (record {
        total_size = omega arith;
        codec = omega arith;
        flags = omega arith;
        pts_ns = omega arith;
        width = omega arith;
        height = omega arith;
        dts_ns = omega arith;
      })
      (refl, omega arith) refl (omega arith) tt refl

abbrev closing_peers : World
closing_peers = world (some [] ∷ none ∷ some [] ∷ []) []

next_terminates_example :
    (p : Pulled) × (next 4 (encoded_stream (closed_uds 3 100) false) new_tracker closing_peers
      ≡ some p)
next_terminates_example =
    next_terminates 4 (encoded_stream (closed_uds 3 100) false) new_tracker closing_peers
      (omega arith)

next_unbounded_example :
    next
      (2 + 1)
      (encoded_stream (closed_uds 3 100) false)
      new_tracker
      (world (replicate 2 (some []) ++ []) [])
    ≡ next 1 (encoded_stream (closed_uds 3 100) false) new_tracker (world [] [])
next_unbounded_example = next_unbounded 2 1 2 100 new_tracker [] []

keyframe-Carries : Carries keyframe (some 7) (65 ∷ 66 ∷ []) (9 ∷ []) keyframe_socket
keyframe-Carries = record {
  fits = record {
    total_size = omega arith;
    codec = omega arith;
    flags = omega arith;
    pts_ns = omega arith;
    width = omega arith;
    height = omega arith;
    dts_ns = omega arith;
  };
  numbered = (refl, omega arith);
  size = refl;
  small = omega arith;
  healthy = tt;
  bytes = refl;
}

-- Two connects fail, and the third one opens the keyframe's socket.
next-Pulls_example :
    Pulls keyframe
      (some 7)
      (65 ∷ 66 ∷ [])
      (9 ∷ [])
      (closed_uds 3 100)
      new_tracker
      (world [] ([] ++ ramp 100 0 2))
      (next 1
        (encoded_stream (closed_uds 3 100) false)
        new_tracker
        (world (replicate 2 none ++ (some keyframe_socket ∷ [])) []))
next-Pulls_example =
    next-Pulls keyframe (some 7) (65 ∷ 66 ∷ []) (9 ∷ []) 0 2 2 (closed_uds 3 100) keyframe_socket []
      [] new_tracker refl refl (omega arith) keyframe-Carries
