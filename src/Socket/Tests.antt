-- ===== src/Socket/Tests.antt =====
-- Runs of recv_exact and send_all, and the theorems about them at concrete sockets.
use neoruntime_sdks.Base.{◌≡◌, refl, List, [], ◌∷◌, some, true, arith}
use neoruntime_sdks.Socket.{
  Event, chunk, interrupted, recv_exact, Accept, accepts, interrupts, send_all,
}
use neoruntime_sdks.Socket.Exact.{Reads, recv_exact-Reads, Sends, send_all-Sends}

abbrev two_chunks : List Event
two_chunks = chunk 1 (2 ∷ []) ∷ interrupted ∷ chunk 3 (4 ∷ 5 ∷ []) ∷ []

recv_exact_run : recv_exact two_chunks 3 ≡ (some (1 ∷ 2 ∷ 3 ∷ []), chunk 4 (5 ∷ []) ∷ [])
unfolding recv_exact
recv_exact_run = refl

recv_exact-Reads_example : Reads 3 two_chunks (recv_exact two_chunks 3)
recv_exact-Reads_example = recv_exact-Reads two_chunks 3 tt (omega arith)

abbrev slow_peer : List Accept
slow_peer = accepts 2 ∷ interrupts ∷ accepts 5 ∷ []

send_all_run : send_all slow_peer (1 ∷ 2 ∷ 3 ∷ []) ≡ (true, 1 ∷ 2 ∷ 3 ∷ [])
unfolding send_all
send_all_run = refl

send_all-Sends_example : Sends (1 ∷ 2 ∷ 3 ∷ []) (send_all slow_peer (1 ∷ 2 ∷ 3 ∷ []))
send_all-Sends_example = send_all-Sends slow_peer (1 ∷ 2 ∷ 3 ∷ [])
