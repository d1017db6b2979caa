-- ===== src/Audio.antt =====
-- cpp/src/audio_stream.cpp, with AudioEncHeader and decode_audio_format of detail/fd_protocol.hpp: the
-- reader of the audio socket. A socket is what its reads will return, and a timeout is a read that
-- fails. The flag that close() sets does not change in the middle of a call.
use neoruntime_sdks.Base.{
  ℕ, zero, suc, ◌+◌, ◌*◌, ◌-◌, ◌/◌, ◌%◌, ◌^◌, List, [], ◌∷◌, Option, none, some, Bool, true, false,
  not, ◌&&◌, ltb, leb, ◌==◌, if◌then◌else◌, Result, ok, err,
}
pub mod Frames
pub mod Reconnect
mod Tests
use Prim.Native.Nat.{bit_or}
use neoruntime_sdks.Socket.{Event, Read, recv_exact}
use neoruntime_sdks.Transport.{World, do_connect, sleep_for}
use neoruntime_sdks.Encoded.{field}
use neoruntime_sdks.Encoded.Stream.{Unreachable, unreachable}

abbrev pub audio_header_size : ℕ
audio_header_size = 30

abbrev pub audio_max_payload : ℕ
audio_max_payload = 10 * 1024 * 1024

pub record AudioEncHeader : Type 0 where
  pub total_size : ℕ
  pub codec : ℕ
  pub flags : ℕ
  pub pts_ns : ℕ
  pub sample_rate : ℕ
  pub channels : ℕ
  pub bits_per_sample : ℕ
  pub frame_size : ℕ

-- The packed struct that recv_exact fills.
unfoldable pub read_audio_header : List ℕ → AudioEncHeader
unfolding field
read_audio_header p = record {
  total_size = field p 0 4;
  codec = field p 4 1;
  flags = field p 5 1;
  pts_ns = field p 6 8;
  sample_rate = field p 14 4;
  channels = field p 18 4;
  bits_per_sample = field p 22 4;
  frame_size = field p 26 4;
}

pub record AudioFormatFields : Type 0 where
  pub sample_rate : ℕ
  pub channels : ℕ
  pub bits_per_sample : ℕ
  pub dts_ns : ℕ

-- payload_size is at most 10 MiB where it is called, and so is its own 32-bit word.
abbrev pub is_plausible : AudioEncHeader → ℕ → Bool
is_plausible hdr payload_size =
    (hdr.frame_size == payload_size)
    && (leb 8000 hdr.sample_rate && leb hdr.sample_rate 192000)
    && (leb 1 hdr.channels && leb hdr.channels 8)
    && (leb 8 hdr.bits_per_sample && leb hdr.bits_per_sample 32)
    && (hdr.bits_per_sample % 8 == 0)

unfoldable pub decode_audio_format : AudioEncHeader → ℕ → AudioFormatFields
decode_audio_format hdr payload_size =
    if is_plausible hdr payload_size
    then record {
      sample_rate = hdr.sample_rate;
      channels = hdr.channels;
      bits_per_sample = hdr.bits_per_sample;
      dts_ns = 0;
    }
    else record {
      sample_rate = 0;
      channels = 0;
      bits_per_sample = 0;
      dts_ns = bit_or (hdr.frame_size * 2 ^ 32 % 2 ^ 64) hdr.bits_per_sample;
    }

pub record AudioFrame : Type 0 where
  pub codec : ℕ
  pub flags : ℕ
  pub pts_ns : ℕ
  pub sample_rate : ℕ
  pub channels : ℕ
  pub bits_per_sample : ℕ
  pub dts_ns : ℕ
  pub bytes : List ℕ

abbrev pub audio_frame : AudioEncHeader → AudioFormatFields → List ℕ → AudioFrame
audio_frame hdr fmt bytes = record {
  codec = hdr.codec;
  flags = hdr.flags;
  pts_ns = hdr.pts_ns;
  sample_rate = fmt.sample_rate;
  channels = fmt.channels;
  bits_per_sample = fmt.bits_per_sample;
  dts_ns = fmt.dts_ns;
  bytes = bytes;
}

-- A frame, or nullopt, and what is left on the socket.
abbrev pub Heard : Type 0
Heard = Option AudioFrame × List Event

abbrev pub with_bytes : AudioEncHeader → ℕ → Read → Heard
with_bytes hdr payload_size (none, es) = (none, es)
with_bytes hdr payload_size (some bytes, es) =
    (some (audio_frame hdr (decode_audio_format hdr payload_size) bytes), es)

-- A payload of no bytes makes no call, which recv_exact does not either.
abbrev pub with_header : AudioEncHeader → List Event → Heard
unfolding recv_exact
with_header hdr es =
    if ltb hdr.total_size audio_header_size
    then (none, es)
    else if ltb audio_max_payload (hdr.total_size - audio_header_size)
    then (none, es)
    else with_bytes hdr (hdr.total_size - audio_header_size)
        (recv_exact es (hdr.total_size - audio_header_size))

abbrev pub after_header : Read → Heard
after_header (none, es) = (none, es)
after_header (some p, es) = with_header (read_audio_header p) es

unfoldable pub recv_frame : List Event → Heard
unfolding recv_exact
recv_frame es = after_header (recv_exact es audio_header_size)

-- `closed` is the flag of close().
pub record AudioStreamClient : Type 0 where
  pub fd : Option (List Event)
  pub closed : Bool

abbrev pub connected : Option (List Event) × World → Result Unreachable (List Event × World)
connected (none, w) = err unreachable
connected (some es, w) = ok (es, w)

-- connect_locked if there is no socket; a connect that fails throws.
unfoldable pub ensure_fd : AudioStreamClient → World → Result Unreachable (List Event × World)
ensure_fd c w = elim c.fd [ some es ↦ ok (es, w) | none ↦ connected (do_connect w) ]

abbrev pub Audible : Type 0
Audible = Result Unreachable (Option AudioFrame) × AudioStreamClient × World

abbrev pub keep : AudioStreamClient → World → Heard → Audible
keep c w (frame, es) = (ok frame, record c { fd = some es }, w)

abbrev pub get_on : AudioStreamClient → World → Result Unreachable (List Event × World) → Audible
get_on c w0 (err e) = (err e, c, w0)
get_on c w0 (ok (es, w)) = keep c w (recv_frame es)

-- A frame that could not be read leaves the socket open where it is. A connect that throws has been
-- made, too.
unfoldable pub get_frame : AudioStreamClient → World → Audible
unfolding ensure_fd recv_frame
get_frame c w = get_on c (do_connect w).1 (ensure_fd c w)

-- The end of a round, after the stale socket has been closed.
abbrev pub reconnected : AudioStreamClient → Option (List Event) × World → AudioStreamClient × World
reconnected c (some es, w) = (record c { fd = some es }, w)
reconnected c (none, w) = (record c { fd = none }, sleep_for 2000 w)

-- A round that read no frame, and what the next rounds come to.
abbrev pub missed :
    Bool → AudioStreamClient → World → (AudioStreamClient → World → Option Audible) → Option Audible
missed reconnect c w next =
    let (c', w') = reconnected c (do_connect (sleep_for 500 w)) in
    let rest = next c' w' in if not reconnect then some (ok none, c, w) else rest

abbrev pub after_read :
    Bool
    → AudioStreamClient
    → World
    → Heard
    → (AudioStreamClient → World → Option Audible)
    → Option Audible
after_read reconnect c w (some f, es) next = some (ok (some f), record c { fd = some es }, w)
after_read reconnect c w (none, es) next = missed reconnect (record c { fd = some es }) w next

abbrev pub read_round :
    Bool
    → AudioStreamClient
    → World
    → Result Unreachable (List Event × World)
    → (AudioStreamClient → World → Option Audible)
    → Option Audible
read_round reconnect c w0 (err e) next = some (err e, c, w0)
read_round reconnect c w0 (ok (es, w)) next = after_read reconnect c w (recv_frame es) next

-- `none` is a loop that is still running after the rounds given.
unfoldable pub next_frame : ℕ → Bool → AudioStreamClient → World → Option Audible
unfolding ensure_fd recv_frame
next_frame zero reconnect c w = none
next_frame (suc fuel) reconnect c w =
    let round =
      read_round reconnect c (do_connect w).1 (ensure_fd c w) (next_frame fuel reconnect) in
    if c.closed then some (ok none, c, w) else round

-- close(), without the thread of on_frame.
unfoldable pub close : AudioStreamClient → AudioStreamClient
close c = record { fd = none; closed = true }
