-- ===== src/Audio/Frames.antt =====
-- recv_frame of cpp/src/audio_stream.cpp on packets in the layouts that decode_audio_format tells
-- apart.
use Prim.Native.Nat.{bit_or}
use neoruntime_sdks.Base.{
  ℕ, ◌+◌, ◌-◌, ◌*◌, ◌/◌, ◌%◌, ◌^◌, ◌≤◌, ◌<◌, ◌≡◌, refl, ap, ◌∙◌, List, ◌++◌, some, false, ltb,
  arith, length, append_assoc,
}
use neoruntime_sdks.Base.Bits.{bit_or_high_low}
use neoruntime_sdks.Socket.{Event}
use neoruntime_sdks.Socket.Exact.{stream, IsHealthy}
use neoruntime_sdks.Encoded.{EncHeader, field}
use neoruntime_sdks.Encoded.Frames.{le_bytes, le_value-le_bytes, header_bytes, Fits, recv_exact-Got}
use neoruntime_sdks.Audio.{
  audio_header_size, audio_max_payload, AudioEncHeader, read_audio_header, AudioFormatFields,
  is_plausible, decode_audio_format, audio_frame, AudioFrame, Heard, recv_frame,
}

-- The header as the daemon writes it in the audio layout.
abbrev pub audio_header_bytes : AudioEncHeader → List ℕ
audio_header_bytes h =
    le_bytes 4 h.total_size
    ++ (le_bytes 1 h.codec
        ++ (le_bytes 1 h.flags
            ++ (le_bytes 8 h.pts_ns
                ++ (le_bytes 4 h.sample_rate
                    ++ (le_bytes 4 h.channels
                        ++ (le_bytes 4 h.bits_per_sample ++ le_bytes 4 h.frame_size))))))

pub record FitsAudio (h : AudioEncHeader) : Type 0 where
  pub total_size : h.total_size < 2 ^ 32
  pub codec : h.codec < 2 ^ 8
  pub flags : h.flags < 2 ^ 8
  pub pts_ns : h.pts_ns < 2 ^ 64
  pub sample_rate : h.sample_rate < 2 ^ 32
  pub channels : h.channels < 2 ^ 32
  pub bits_per_sample : h.bits_per_sample < 2 ^ 32
  pub frame_size : h.frame_size < 2 ^ 32

read_audio_header-audio_header_bytes :
    (h : AudioEncHeader) → FitsAudio h → read_audio_header (audio_header_bytes h) ≡ h
unfolding read_audio_header field
read_audio_header-audio_header_bytes h f = rw (
  le_value-le_bytes 4 h.total_size f.total_size,
  le_value-le_bytes 1 h.codec f.codec,
  le_value-le_bytes 1 h.flags f.flags,
  le_value-le_bytes 8 h.pts_ns f.pts_ns,
  le_value-le_bytes 4 h.sample_rate f.sample_rate,
  le_value-le_bytes 4 h.channels f.channels,
  le_value-le_bytes 4 h.bits_per_sample f.bits_per_sample,
  le_value-le_bytes 4 h.frame_size f.frame_size,
)

-- The fields that a header of the video layout has in the audio layout: its timestamp is split.
abbrev pub as_audio : EncHeader → AudioEncHeader
as_audio v = record {
  total_size = v.total_size;
  codec = v.codec;
  flags = v.flags;
  pts_ns = v.pts_ns;
  sample_rate = v.width;
  channels = v.height;
  bits_per_sample = v.dts_ns % 2 ^ 32;
  frame_size = v.dts_ns / 2 ^ 32;
}

split_le_bytes : (v : ℕ) → le_bytes 8 v ≡ le_bytes 4 (v % 2 ^ 32) ++ le_bytes 4 (v / 2 ^ 32)
split_le_bytes v =
    let a0 : v % 2 ^ 32 % 256 ≡ v % 256 = omega arith in
    let a1 : v % 2 ^ 32 / 256 % 256 ≡ v / 256 % 256 = omega arith in
    let a2 : v % 2 ^ 32 / 256 / 256 % 256 ≡ v / 256 / 256 % 256 = omega arith in
    let a3 : v % 2 ^ 32 / 256 / 256 / 256 % 256 ≡ v / 256 / 256 / 256 % 256 = omega arith in
    let high : v / 2 ^ 32 ≡ v / 256 / 256 / 256 / 256 = omega arith in
    rw (a0, a1, a2, a3, high) refl

header_bytes-as_audio : (v : EncHeader) → header_bytes v ≡ audio_header_bytes (as_audio v)
header_bytes-as_audio v = rw (split_le_bytes v.dts_ns) refl

as_audio-FitsAudio : (v : EncHeader) → Fits v → FitsAudio (as_audio v)
as_audio-FitsAudio v f = record {
  total_size = f.total_size;
  codec = f.codec;
  flags = f.flags;
  pts_ns = f.pts_ns;
  sample_rate = f.width;
  channels = f.height;
  bits_per_sample = omega arith;
  frame_size = omega (arith, f.dts_ns);
}

-- A frame that recv_frame returned.
pub record Hears (f : AudioFrame) (tail : List ℕ) (out : Heard) : Type 0 where
  pub rest : List Event
  pub result : out ≡ (some f, rest)
  pub remaining : stream rest ≡ tail
  pub healthy : IsHealthy rest

recv_frame-Hears :
    (h : AudioEncHeader) (bytes tail : List ℕ) (es : List Event)
    → FitsAudio h
    → h.total_size ≡ 30 + length bytes
    → length bytes ≤ 10 * 2 ^ 20
    → IsHealthy es
    → stream es ≡ (audio_header_bytes h ++ bytes) ++ tail
    → Hears (audio_frame h (decode_audio_format h (length bytes)) bytes) tail (recv_frame es)
unfolding recv_frame
recv_frame-Hears h bytes tail es f size small he hs =
    let g =
      recv_exact-Got es 30 (audio_header_bytes h) (bytes ++ tail) refl he
        (hs ∙ append_assoc (audio_header_bytes h) bytes tail) in
    let n : h.total_size - audio_header_size ≡ length bytes = omega arith in
    let p =
      recv_exact-Got g.rest (h.total_size - audio_header_size) bytes tail n g.healthy g.remaining in
    let whole : ltb h.total_size audio_header_size ≡ false = ground arith in
    let bounded : ltb audio_max_payload (h.total_size - audio_header_size) ≡ false = ground arith in
    record {
      rest = p.rest;
      result =
          rw (g.result, read_audio_header-audio_header_bytes h f, whole, bounded, p.result)
            (ap (λ (k : ℕ). (some (audio_frame h (decode_audio_format h k) bytes), p.rest)) n);
      remaining = p.remaining;
      healthy = p.healthy;
    }

-- What decode_audio_format makes of the two halves of a timestamp.
dts_of_halves : (v : ℕ) → v < 2 ^ 64 → bit_or (v / 2 ^ 32 * 2 ^ 32 % 2 ^ 64) (v % 2 ^ 32) ≡ v
dts_of_halves v h =
    let fits : v / 2 ^ 32 * 2 ^ 32 % 2 ^ 64 ≡ v / 2 ^ 32 * 2 ^ 32 = omega arith in
    rw (fits, bit_or_high_low 32 (v % 2 ^ 32) (v / 2 ^ 32) (omega arith)) (omega arith)

abbrev pub unknown_format : ℕ → AudioFormatFields
unknown_format dts_ns = record {
  sample_rate = 0;
  channels = 0;
  bits_per_sample = 0;
  dts_ns = dts_ns;
}

slow_rate : (hdr : AudioEncHeader) (n : ℕ) → hdr.sample_rate < 8000 → is_plausible hdr n ≡ false
slow_rate hdr n h = ground arith

decode-as_audio :
    (v : EncHeader) (n : ℕ)
    → Fits v
    → v.width < 8000
    → decode_audio_format (as_audio v) n ≡ unknown_format v.dts_ns
unfolding decode_audio_format
decode-as_audio v n f h = rw (slow_rate (as_audio v) n h, dts_of_halves v.dts_ns f.dts_ns) refl

-- On a socket that delivers, in any chunks and with any interruptions, a packet with the header of
-- the video layout, as the daemon does, whose width is less than the least sample rate and whose
-- payload is of at most 10 MiB: recv_frame returns the codec, the flags, the timestamps, both of them
-- whole, and the payload, says that the format is unknown, and leaves what comes after the packet to
-- be read.
pub recv_frame_video-Hears :
    (v : EncHeader) (bytes tail : List ℕ) (es : List Event)
    → Fits v
    → v.width < 8000
    → v.total_size ≡ 30 + length bytes
    → length bytes ≤ 10 * 2 ^ 20
    → IsHealthy es
    → stream es ≡ (header_bytes v ++ bytes) ++ tail
    → Hears (audio_frame (as_audio v) (unknown_format v.dts_ns) bytes) tail (recv_frame es)
recv_frame_video-Hears v bytes tail es f slow size small he hs =
    let r =
      recv_frame-Hears (as_audio v) bytes tail es (as_audio-FitsAudio v f) size small he
        (hs ∙ ap (λ (p : List ℕ). (p ++ bytes) ++ tail) (header_bytes-as_audio v)) in
    record {
      rest = r.rest;
      result =
          r.result
          ∙ ap (λ (fmt : AudioFormatFields). (some (audio_frame (as_audio v) fmt bytes), r.rest))
              (decode-as_audio v (length bytes) f slow);
      remaining = r.remaining;
      healthy = r.healthy;
    }
