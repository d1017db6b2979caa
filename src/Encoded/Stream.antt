-- ===== src/Encoded/Stream.antt =====
-- EncodedStream (its Impl and next) and EncodedStreamClient (connect, close, get_frame, subscribe and
-- seq_stats) of media/encoded_stream_client.cpp. The tracker that a client shares with its streams
-- is passed from call to call.
use neoruntime_sdks.Base.{
  ℕ, zero, suc, List, Option, none, some, Bool, true, false, Result, ok, err,
}
use neoruntime_sdks.Socket.{Event}
use neoruntime_sdks.Transport.{World, Uds, uds, do_connect, ensure_connected, close_fd}
use neoruntime_sdks.Encoded.{SeqTracker, EncodedFrame, Packet, read_one_frame}

pub record EncodedStream : Type 0 where
  pub conn : Uds
  pub exhausted : Bool

abbrev pub encoded_stream : Uds → Bool → EncodedStream
encoded_stream conn exhausted = record { conn = conn; exhausted = exhausted }

abbrev pub Pulled : Type 0
Pulled = Option EncodedFrame × EncodedStream × SeqTracker × World

unfoldable pub subscribe : Bool → EncodedStream
unfolding uds
subscribe reconnect = encoded_stream (uds reconnect 3 100) false

-- What one round of the loop of next() ends in: a result, or one more round after the connection
-- has been closed.
pub data Round : Type 0 where
  done : Pulled → Round
  again : Uds → SeqTracker → World → Round

unfoldable pub lost : Uds → SeqTracker → World → Round
unfolding close_fd
lost u t w = elim u.reconnect_enabled [
  | true ↦ again (close_fd u) t w
  | false ↦ done (none, encoded_stream (close_fd u) true, t, w)
]

unfoldable pub after_read : Uds → World → Packet → Round
unfolding lost
after_read u w (some frame, es, t) =
    done (some frame, encoded_stream (record u { fd = some es }) false, t, w)
after_read u w (none, es, t) = lost u t w

-- The rest of the round after ensure_connected has left the descriptor.
unfoldable pub read_from : Option (List Event) → Uds → SeqTracker → World → Round
unfolding after_read read_one_frame
read_from none u t w = done (none, encoded_stream u true, t, w)
read_from (some es) u t w = after_read u w (read_one_frame es t)

unfoldable pub next_round : Uds → SeqTracker → World → Round
unfolding ensure_connected read_from
next_round u t w = let (u1, w1) = ensure_connected u w in read_from u1.fd u1 t w1

-- `none` is a loop that is still running after the rounds given.
unfoldable pub next_loop : ℕ → Uds → SeqTracker → World → Option Pulled
unfolding next_round
next_loop zero u t w = none
next_loop (suc fuel) u t w = elim (next_round u t w) [
  | done r ↦ some r
  | again u1 t1 w1 ↦ next_loop fuel u1 t1 w1
]

unfoldable pub next : ℕ → EncodedStream → SeqTracker → World → Option Pulled
unfolding next_loop
next fuel s t w = elim s.exhausted [
  | true ↦ some (none, s, t, w)
  | false ↦ next_loop fuel s.conn t w
]

-- The client's cached socket.
pub record EncodedStreamClient : Type 0 where
  pub fd : Option (List Event)

abbrev pub encoded_client : Option (List Event) → EncodedStreamClient
encoded_client fd = record { fd = fd }

unfoldable pub close : EncodedStreamClient → EncodedStreamClient
close c = encoded_client none

unfoldable pub connected : EncodedStreamClient → Bool
connected c = elim c.fd [ some es ↦ true | none ↦ false ]

pub data Unreachable : Type 0 where
  unreachable : Unreachable

abbrev pub opened : Option (List Event) × World → Result Unreachable (List Event × World)
opened (none, w) = err unreachable
opened (some es, w) = ok (es, w)

-- Impl::ensure_connected: one attempt, whose failure is thrown.
unfoldable pub client_connect :
    EncodedStreamClient → World → Result Unreachable (List Event × World)
client_connect c w = elim c.fd [ some es ↦ ok (es, w) | none ↦ opened (do_connect w) ]

unfoldable pub got : World → Packet → Option EncodedFrame × EncodedStreamClient × SeqTracker × World
unfolding close
got w (some frame, es, t) = (some frame, encoded_client (some es), t, w)
got w (none, es, t) = (none, close (encoded_client (some es)), t, w)

abbrev pub Framed : Type 0
Framed = Result Unreachable (Option EncodedFrame × EncodedStreamClient × SeqTracker × World)

-- The rest of get_frame after the connect. A read that runs into the timeout is one that fails.
unfoldable pub framed : SeqTracker → Result Unreachable (List Event × World) → Framed
unfolding got read_one_frame
framed t (ok (es, w)) = ok (got w (read_one_frame es t))
framed t (err e) = err e

unfoldable pub get_frame : EncodedStreamClient → SeqTracker → World → Framed
unfolding client_connect framed
get_frame c t w = framed t (client_connect c w)

pub record EncodedSeqStats : Type 0 where
  pub seq_packets : ℕ
  pub seq_gap_events : ℕ
  pub seq_missing : ℕ
  pub last_seq : Option ℕ

unfoldable pub seq_stats : SeqTracker → EncodedSeqStats
seq_stats t = record {
  seq_packets = t.seq_packets;
  seq_gap_events = t.seq_gap_events;
  seq_missing = t.seq_missing;
  last_seq = elim t.has_last [ true ↦ some t.last_seq | false ↦ none ];
}
