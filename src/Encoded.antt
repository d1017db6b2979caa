-- ===== src/Encoded.antt =====
-- The packets of media/encoded_stream_client.cpp: EncHeader and its sequence extension
-- (detail/fd_protocol.hpp), read_one_frame and the SeqTracker that it feeds.
pub mod Stream
pub mod Gaps
pub mod Frames
pub mod Reconnect
pub mod Pull
mod Tests
use Prim.Native.Nat.{bit_or}
use neoruntime_sdks.Base.{
  ℕ, ◌+◌, ◌-◌, ◌*◌, ◌/◌, ◌%◌, ◌^◌, List, [], ◌∷◌, Option, none, some, Bool, true, false, ltb, ◌==◌,
  if◌then◌else◌, take, drop,
}
use neoruntime_sdks.Base.Int.{ℤ, of_u32}
use neoruntime_sdks.Socket.{Event, Read, recv_exact}

abbrev pub enc_header_size : ℕ
enc_header_size = 30

abbrev pub enc_seq_size : ℕ
enc_seq_size = 8

abbrev pub enc_max_payload : ℕ
enc_max_payload = 50 * 1024 * 1024

pub record SeqTracker : Type 0 where
  pub seq_packets : ℕ
  pub seq_gap_events : ℕ
  pub seq_missing : ℕ
  pub last_seq : ℕ
  pub has_last : Bool

abbrev pub new_tracker : SeqTracker
new_tracker = record {
  seq_packets = 0;
  seq_gap_events = 0;
  seq_missing = 0;
  last_seq = 0;
  has_last = false;
}

-- fetch_add on a 64-bit counter.
abbrev pub fetch_add : ℕ → ℕ → ℕ
fetch_add a n = (a + n) % 2 ^ 64

-- The gap test of observe: only a jump forward counts.
unfoldable pub note_gap : SeqTracker → ℕ → SeqTracker
note_gap t seq =
    if ltb ((t.last_seq + 1) % 2 ^ 64) seq
    then record t {
      seq_gap_events = fetch_add t.seq_gap_events 1;
      seq_missing = fetch_add t.seq_missing ((2 ^ 64 + seq - (t.last_seq + 1)) % 2 ^ 64);
    }
    else t

unfoldable pub observe : SeqTracker → ℕ → SeqTracker
observe t seq =
    let noted = if t.has_last then note_gap t seq else t in
    record noted { last_seq = seq; has_last = true; seq_packets = fetch_add noted.seq_packets 1 }

pub record EncHeader : Type 0 where
  pub total_size : ℕ
  pub codec : ℕ
  pub flags : ℕ
  pub pts_ns : ℕ
  pub width : ℕ
  pub height : ℕ
  pub dts_ns : ℕ

pub record EncodedFrame : Type 0 where
  pub codec : ℕ
  pub flags : ℕ
  pub pts_ns : ℕ
  pub width : ℤ
  pub height : ℤ
  pub dts_ns : ℕ
  pub payload : List ℕ
  pub seq : Option ℕ

-- An integer in memory on a little-endian machine.
unfoldable pub le_value : List ℕ → ℕ
le_value [] = 0
le_value (b ∷ bs) = b + 256 * le_value bs

unfoldable pub field : List ℕ → (offset size : ℕ) → ℕ
unfolding le_value
field p offset size = le_value (take size (drop offset p))

-- The packed struct that recv_exact fills.
unfoldable pub read_header : List ℕ → EncHeader
read_header p = record {
  total_size = field p 0 4;
  codec = field p 4 1;
  flags = field p 5 1;
  pts_ns = field p 6 8;
  width = field p 14 4;
  height = field p 18 4;
  dts_ns = field p 22 8;
}

-- The loop that joins the bytes of the sequence number, the last byte first.
unfoldable pub seq_value : List ℕ → ℕ
seq_value [] = 0
seq_value (b ∷ bs) = bit_or (seq_value bs * 2 ^ 8 % 2 ^ 64) b

-- hdr.flags & ENC_FLAG_SEQ_PRESENT
abbrev pub has_seq : EncHeader → Bool
has_seq h = h.flags / 2 % 2 == 1

-- The sequence number after the header; the outer `none` is a read that failed.
abbrev pub seq_result : Read → Option (Option ℕ) × List Event
unfolding seq_value
seq_result (none, es) = (none, es)
seq_result (some bs, es) = (some (some (seq_value bs)), es)

unfoldable pub read_seq : EncHeader → List Event → Option (Option ℕ) × List Event
unfolding recv_exact
read_seq h es = if has_seq h then seq_result (recv_exact es enc_seq_size) else (some none, es)

abbrev pub header_size : EncHeader → ℕ
header_size h = if has_seq h then enc_header_size + enc_seq_size else enc_header_size

abbrev pub frame_of : EncHeader → Option ℕ → List ℕ → EncodedFrame
frame_of h seq payload = record {
  codec = h.codec;
  flags = h.flags;
  pts_ns = h.pts_ns;
  width = of_u32 h.width;
  height = of_u32 h.height;
  dts_ns = h.dts_ns;
  payload = payload;
  seq = seq;
}

-- What a read leaves: the frame (`none` for false), the socket and the tracker.
abbrev pub Packet : Type 0
Packet = Option EncodedFrame × List Event × SeqTracker

abbrev pub observe_if : Option ℕ → SeqTracker → SeqTracker
unfolding observe
observe_if none t = t
observe_if (some seq) t = observe t seq

abbrev pub with_payload : EncHeader → Option ℕ → SeqTracker → Read → Packet
with_payload h seq t (none, es) = (none, es, t)
with_payload h seq t (some payload, es) = (some (frame_of h seq payload), es, observe_if seq t)

-- A payload of no bytes makes no call, which recv_exact does not either.
abbrev pub with_seq : EncHeader → SeqTracker → Option (Option ℕ) × List Event → Packet
unfolding recv_exact
with_seq h t (none, es) = (none, es, t)
with_seq h t (some seq, es) =
    if ltb h.total_size (header_size h)
    then (none, es, t)
    else if ltb enc_max_payload (h.total_size - header_size h)
    then (none, es, t)
    else with_payload h seq t (recv_exact es (h.total_size - header_size h))

abbrev pub with_header : SeqTracker → Read → Packet
unfolding read_seq
with_header t (none, es) = (none, es, t)
with_header t (some p, es) = with_seq (read_header p) t (read_seq (read_header p) es)

unfoldable pub read_one_frame : List Event → SeqTracker → Packet
unfolding recv_exact
read_one_frame es t = with_header t (recv_exact es enc_header_size)
