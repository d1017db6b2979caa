-- ===== src/Encoded/Frames.antt =====
-- read_one_frame on the packets that a publisher writes.
use neoruntime_sdks.Base.{
  ℕ, zero, suc, ◌+◌, ◌-◌, ◌*◌, ◌/◌, ◌%◌, ◌^◌, ◌≤◌, ◌<◌, ◌≡◌, refl, ap, ◌∙◌, List, [], ◌∷◌, ◌++◌,
  Option, none, some, true, false, ltb, arith, length, take, drop, length-append, take-append,
  drop-append, append_assoc,
}
use neoruntime_sdks.Base.Bits.{bit_or_high_low}
use neoruntime_sdks.Socket.{Event, Read, recv_exact}
use neoruntime_sdks.Socket.Exact.{stream, IsHealthy, recv_exact-Reads}
use neoruntime_sdks.Encoded.{
  EncHeader, SeqTracker, le_value, read_header, seq_value, has_seq, header_size, field, seq_result,
  read_seq, frame_of, observe_if, with_seq, with_header, read_one_frame, Packet, enc_max_payload,
}

-- An integer of `n` bytes as the publisher writes it, lowest byte first.
abbrev pub le_bytes : ℕ → ℕ → List ℕ
le_bytes zero v = []
le_bytes (suc n) v = v % 256 ∷ le_bytes n (v / 256)

-- How many values `n` bytes have.
abbrev pub byte_limit : ℕ → ℕ
byte_limit zero = 1
byte_limit (suc n) = 256 * byte_limit n

pub le_value-le_bytes : (n v : ℕ) → v < byte_limit n → le_value (le_bytes n v) ≡ v
unfolding le_value
le_value-le_bytes zero v h = omega arith
le_value-le_bytes (suc n) v h = omega (arith, le_value-le_bytes n (v / 256) (omega arith))

byte_limit-add : (k n : ℕ) → byte_limit n ≤ byte_limit (k + n)
byte_limit-add zero n = let e : 0 + n ≡ n = omega arith in rw e (omega arith)
byte_limit-add (suc k) n =
    let e : suc k + n ≡ suc (k + n) = omega arith in rw e (omega (arith, byte_limit-add k n))

byte_limit-bound : (n : ℕ) → n ≤ 7 → byte_limit n ≤ 2 ^ 56
byte_limit-bound n h =
    let e : 7 - n + n ≡ 7 = omega arith in
    let le : byte_limit (7 - n + n) ≤ 2 ^ 56 = rw e (omega arith) in
    omega (arith, byte_limit-add (7 - n) n)

seq_value-le_bytes : (n v : ℕ) → n ≤ 8 → v < byte_limit n → seq_value (le_bytes n v) ≡ v
unfolding seq_value
seq_value-le_bytes zero v hn h = omega arith
seq_value-le_bytes (suc n) v hn h =
    let small : v / 256 < byte_limit n = omega arith in
    let inner = seq_value-le_bytes n (v / 256) (omega arith) small in
    let fits : v / 256 * 2 ^ 8 % 2 ^ 64 ≡ v / 256 * 2 ^ 8 =
      omega (arith, byte_limit-bound n (omega arith)) in
    rw (inner, fits, bit_or_high_low 8 (v % 256) (v / 256) (omega arith)) (omega arith)

abbrev pub header_bytes : EncHeader → List ℕ
header_bytes h =
    le_bytes 4 h.total_size
    ++ (le_bytes 1 h.codec
        ++ (le_bytes 1 h.flags
            ++ (le_bytes 8 h.pts_ns
                ++ (le_bytes 4 h.width ++ (le_bytes 4 h.height ++ le_bytes 8 h.dts_ns)))))

abbrev pub seq_bytes : Option ℕ → List ℕ
seq_bytes none = []
seq_bytes (some seq) = le_bytes 8 seq

abbrev pub packet : EncHeader → Option ℕ → List ℕ → List ℕ
packet h seq payload = header_bytes h ++ (seq_bytes seq ++ payload)

-- A header that fits its fields.
pub record Fits (h : EncHeader) : Type 0 where
  pub total_size : h.total_size < 2 ^ 32
  pub codec : h.codec < 2 ^ 8
  pub flags : h.flags < 2 ^ 8
  pub pts_ns : h.pts_ns < 2 ^ 64
  pub width : h.width < 2 ^ 32
  pub height : h.height < 2 ^ 32
  pub dts_ns : h.dts_ns < 2 ^ 64

-- The flag says whether a sequence number of 64 bits follows.
abbrev pub Numbered : EncHeader → Option ℕ → Type 0
Numbered h none = has_seq h ≡ false
Numbered h (some seq) = (has_seq h ≡ true) × (seq < 2 ^ 64)

read_header-header_bytes : (h : EncHeader) → Fits h → read_header (header_bytes h) ≡ h
unfolding read_header field
read_header-header_bytes h f = rw (
  le_value-le_bytes 4 h.total_size f.total_size,
  le_value-le_bytes 1 h.codec f.codec,
  le_value-le_bytes 1 h.flags f.flags,
  le_value-le_bytes 8 h.pts_ns f.pts_ns,
  le_value-le_bytes 4 h.width f.width,
  le_value-le_bytes 4 h.height f.height,
  le_value-le_bytes 8 h.dts_ns f.dts_ns,
)

-- A read that succeeded with `xs` and left `ys` to be read.
pub record Got (xs ys : List ℕ) (out : Read) : Type 0 where
  pub rest : List Event
  pub result : out ≡ (some xs, rest)
  pub remaining : stream rest ≡ ys
  pub healthy : IsHealthy rest

take-of_split : (n : ℕ) (zs xs ys : List ℕ) → n ≡ length xs → zs ≡ xs ++ ys → take n zs ≡ xs
take-of_split n zs xs ys hn hz = rw (hz, hn) (take-append xs ys)

drop-of_split : (n : ℕ) (zs xs ys : List ℕ) → n ≡ length xs → zs ≡ xs ++ ys → drop n zs ≡ ys
drop-of_split n zs xs ys hn hz = rw (hz, hn) (drop-append xs ys)

pub recv_exact-Got :
    (es : List Event) (n : ℕ) (xs ys : List ℕ)
    → n ≡ length xs
    → IsHealthy es
    → stream es ≡ xs ++ ys
    → Got xs ys (recv_exact es n)
recv_exact-Got es n xs ys hn h hs =
    let l = length-append xs ys in
    let enough : n ≤ length (stream es) = rw hs (omega arith) in
    let r = recv_exact-Reads es n h enough in
    record {
      rest = r.rest;
      result = r.result ∙ ap (λ bs. (some bs, r.rest)) (take-of_split n (stream es) xs ys hn hs);
      remaining = r.remaining ∙ drop-of_split n (stream es) xs ys hn hs;
      healthy = r.healthy;
    }

-- What read_seq leaves after the header of a packet.
record GotSeq (seq : Option ℕ) (ys : List ℕ) (out : Option (Option ℕ) × List Event) : Type 0 where
  rest : List Event
  result : out ≡ (some seq, rest)
  remaining : stream rest ≡ ys
  healthy : IsHealthy rest

read_seq-GotSeq :
    (h : EncHeader) (seq : Option ℕ) (es : List Event) (ys : List ℕ)
    → Numbered h seq
    → IsHealthy es
    → stream es ≡ seq_bytes seq ++ ys
    → GotSeq seq ys (read_seq h es)
unfolding read_seq seq_result
read_seq-GotSeq h none es ys flag he hs = record {
  rest = es;
  result = rw flag;
  remaining = hs;
  healthy = he;
}
read_seq-GotSeq h (some seq) es ys (flag, lt) he hs =
    let g = recv_exact-Got es 8 (le_bytes 8 seq) ys refl he hs in
    record {
      rest = g.rest;
      result = rw (flag, g.result, seq_value-le_bytes 8 seq (omega arith) lt);
      remaining = g.remaining;
      healthy = g.healthy;
    }

-- A frame that read_one_frame returned and counted.
pub record Received (h : EncHeader) (seq : Option ℕ) (payload tail : List ℕ) (t : SeqTracker)
    (out : Packet) : Type 0 where
  pub rest : List Event
  pub result : out ≡ (some (frame_of h seq payload), rest, observe_if seq t)
  pub remaining : stream rest ≡ tail
  pub healthy : IsHealthy rest

-- On a socket that delivers a packet, in any chunks and with any interruptions, and then `tail`,
-- where the header fits its fields, its total size is that of the header, the sequence number if
-- there is one, and the payload, its flag says whether there is one, and the payload is of at most
-- 50 MB, read_one_frame returns the header's fields, the sequence number and the payload, lets the
-- tracker observe the number, and leaves `tail` to be read.
pub read_one_frame-Received :
    (h : EncHeader) (seq : Option ℕ) (payload tail : List ℕ) (es : List Event) (t : SeqTracker)
    → Fits h
    → Numbered h seq
    → h.total_size ≡ header_size h + length payload
    → length payload ≤ 50 * 2 ^ 20
    → IsHealthy es
    → stream es ≡ packet h seq payload ++ tail
    → Received h seq payload tail t (read_one_frame es t)
unfolding read_one_frame with_header observe_if with_seq
read_one_frame-Received h seq payload tail es t f flag size small he hs =
    let split : packet h seq payload ++ tail
        ≡ header_bytes h ++ (seq_bytes seq ++ (payload ++ tail)) =
      ap (header_bytes h ++◌) (append_assoc (seq_bytes seq) payload tail) in
    let g = recv_exact-Got es 30 (header_bytes h) _ refl he (hs ∙ split) in
    let s = read_seq-GotSeq h seq g.rest _ flag g.healthy g.remaining in
    let n : h.total_size - header_size h ≡ length payload = omega arith in
    let p = recv_exact-Got s.rest _ payload tail n s.healthy s.remaining in
    let whole : ltb h.total_size (header_size h) ≡ false = ground arith in
    let bounded : ltb enc_max_payload (h.total_size - header_size h) ≡ false = ground arith in
    record {
      rest = p.rest;
      result = rw (g.result, read_header-header_bytes h f, s.result, whole, bounded, p.result);
      remaining = p.remaining;
      healthy = p.healthy;
    }
