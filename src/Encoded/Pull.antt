-- ===== src/Encoded/Pull.antt =====
-- A packet on its way to the application, through EncodedStream::next and
-- EncodedStreamClient::get_frame.
use neoruntime_sdks.Base.{
  ℕ, suc, ◌+◌, ◌*◌, ◌^◌, ◌≤◌, ◌≡◌, List, ◌∷◌, ◌++◌, Option, none, some, false, replicate, length,
  ok,
}
use neoruntime_sdks.Socket.{Event}
use neoruntime_sdks.Socket.Exact.{stream, IsHealthy}
use neoruntime_sdks.Transport.{World, Uds, attempts_of}
use neoruntime_sdks.Transport.Backoff.{world, ramp, ensure_connected_backoff}
use neoruntime_sdks.Encoded.{
  EncHeader, SeqTracker, frame_of, header_size, observe_if, read_one_frame,
}
use neoruntime_sdks.Encoded.Frames.{Fits, Numbered, packet, Received, read_one_frame-Received}
use neoruntime_sdks.Encoded.Stream.{
  encoded_stream, Pulled, next, next_loop, next_round, read_from, after_read, EncodedStreamClient,
  encoded_client, client_connect, get_frame, framed, got,
}

-- A socket that carries a well-formed packet and then `tail`.
pub record Carries (h : EncHeader) (seq : Option ℕ) (payload tail : List ℕ) (es : List Event)
    : Type 0 where
  pub fits : Fits h
  pub numbered : Numbered h seq
  pub size : h.total_size ≡ header_size h + length payload
  pub small : length payload ≤ 50 * 2 ^ 20
  pub healthy : IsHealthy es
  pub bytes : stream es ≡ packet h seq payload ++ tail

module _ (h : EncHeader) (seq : Option ℕ) (payload tail : List ℕ) where
  received :
      (es : List Event) (t : SeqTracker)
      → Carries h seq payload tail es
      → Received h seq payload tail t (read_one_frame es t)
  received es t d =
      read_one_frame-Received h seq payload tail es t d.fits d.numbered d.size d.small d.healthy
        d.bytes

  -- A pull that returned the packet's frame: the stream can go on with `tail`.
  pub record Pulls (u : Uds) (t : SeqTracker) (w : World) (out : Option Pulled) : Type 0 where
    pub rest : List Event
    pub result :
        out
        ≡ some (
          some (frame_of h seq payload),
          encoded_stream (record u { fd = some rest }) false,
          observe_if seq t,
          w,
        )
    pub remaining : stream rest ≡ tail
    pub healthy : IsHealthy rest

  -- A stream that is closed and may make m + 1 attempts in a row: if `n` of them fail, with n at most
  -- `m`, and the next connects to a socket that delivers a packet, next() returns its frame after n
  -- growing sleeps, and leaves the socket open at the bytes after it.
  pub next-Pulls :
      (fuel m n : ℕ) (u : Uds) (es : List Event) (cs : List (Option (List Event))) (ms : List ℕ)
      (t : SeqTracker)
      → u.fd ≡ none
      → attempts_of u ≡ suc m
      → n ≤ m
      → Carries h seq payload tail es
      → Pulls u t (world cs (ms ++ ramp u.backoff_base_ms 0 n)) (
          next
            (suc fuel)
            (encoded_stream u false)
            t
            (world (replicate n none ++ (some es ∷ cs)) ms))
  unfolding next next_loop next_round read_from after_read
  next-Pulls fuel m n u es cs ms t closed budget le d =
      let r = received es t d in
      let (connects, _) = ensure_connected_backoff u m n es cs ms closed budget le in
      record {
        rest = r.rest;
        result = rw (connects, r.result);
        remaining = r.remaining;
        healthy = r.healthy;
      }

  -- The client's socket, or the one that its next connect opens, and the network after it.
  abbrev pub Connected : EncodedStreamClient → World → List Event → World → Type 0
  Connected c w es w1 = client_connect c w ≡ ok (es, w1)

  -- A client whose socket, open already or opened by one connect, delivers a packet: get_frame
  -- returns its frame, lets the tracker observe its number, and keeps the socket open at the bytes after it.
  pub get_frame_delivers :
      (c : EncodedStreamClient) (t : SeqTracker) (w w1 : World) (es : List Event)
      → Connected c w es w1
      → Carries h seq payload tail es
      → (rest : List Event) × (get_frame c t w
          ≡ ok (some (frame_of h seq payload), encoded_client (some rest), observe_if seq t, w1))
        × (stream rest ≡ tail)
        × IsHealthy rest
  unfolding get_frame framed got
  get_frame_delivers c t w w1 es connected d =
      let r = received es t d in (r.rest, rw (connected, r.result), r.remaining, r.healthy)
