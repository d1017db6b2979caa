-- ===== src/Encoded/Reconnect.antt =====
-- How long EncodedStream::next runs.
use neoruntime_sdks.Base.{
  ℕ, zero, suc, ◌+◌, ◌*◌, ◌≤◌, ◌<◌, ◌≡◌, refl, List, [], ◌∷◌, ◌++◌, Option-cases, Bool-cases, inl,
  inr, Option, none, some, true, false, replicate, length, arith,
}
use neoruntime_sdks.Socket.{Event, recv_exact}
use neoruntime_sdks.Transport.{World, Uds, attempt, attempts_of, ensure_connected, close_fd}
use neoruntime_sdks.Transport.Backoff.{world}
use neoruntime_sdks.Encoded.{SeqTracker, Packet, read_one_frame, with_header}
use neoruntime_sdks.Encoded.Stream.{
  EncodedStream, encoded_stream, read_from, Pulled, Round, done, again, lost, after_read,
  next_round, next_loop, next,
}

abbrev pub open_count : Option (List Event) → ℕ
open_count none = 0
open_count (some es) = 1

-- Sockets that next() can still read from: the open one and those of the connects to come.
abbrev pub sockets_left : Uds → World → ℕ
sockets_left u w = open_count u.fd + length w.connects

attempt-consumes :
    (m base i : ℕ) (cs : List (Option (List Event))) (ms : List ℕ)
    → let out = attempt m base i (world cs ms) in
      open_count out.0 + length out.1.connects ≤ length cs
unfolding attempt
attempt-consumes zero base i cs ms = omega arith
attempt-consumes (suc zero) base i [] ms = omega arith
attempt-consumes (suc (suc m)) base i [] ms = attempt-consumes (suc m) base (i + 1) [] _
attempt-consumes (suc m) base i (some es ∷ cs) ms = omega arith
attempt-consumes (suc zero) base i (none ∷ cs) ms = omega arith
attempt-consumes (suc (suc m)) base i (none ∷ cs) ms =
    omega (arith, attempt-consumes (suc m) base (i + 1) cs (ms ++ (base * (i + 1) ∷ [])))

ensure_connected-consumes :
    (u : Uds) (w : World)
    → let out = ensure_connected u w in sockets_left out.0 out.1 ≤ sockets_left u w
unfolding ensure_connected
ensure_connected-consumes u w = elim (Option-cases u.fd) [
  | inl closed ↦
      let c = attempt-consumes (attempts_of u) u.backoff_base_ms 0 w.connects w.sleeps in
      rw closed (omega (arith, c))
  | inr (es, opened) ↦ rw opened (omega arith)
]

-- A round that is not the last leaves fewer sockets to read from.
abbrev Shrinks : ℕ → Round → Type 0
Shrinks k (done r) = Unit {0}
Shrinks k (again u t w) = sockets_left u w < k

lost-Shrinks :
    (k : ℕ) (u : Uds) (t : SeqTracker) (w : World) → length w.connects < k → Shrinks k (lost u t w)
unfolding lost
lost-Shrinks k u t w h = elim (Bool-cases u.reconnect_enabled) [
  | inl on ↦ rw on (omega arith)
  | inr off ↦ rw off tt
]

after_read-Shrinks :
    (k : ℕ) (u : Uds) (w : World) (p : Packet)
    → length w.connects < k
    → Shrinks k (after_read u w p)
unfolding after_read
after_read-Shrinks k u w (some frame, es, t) h = tt
after_read-Shrinks k u w (none, es, t) h = lost-Shrinks k u t w h

read_from-Shrinks :
    (k : ℕ) (fd : Option (List Event)) (u : Uds) (t : SeqTracker) (w : World)
    → open_count fd + length w.connects ≤ k
    → Shrinks k (read_from fd u t w)
unfolding read_from
read_from-Shrinks k none u t w h = tt
read_from-Shrinks k (some es) u t w h = after_read-Shrinks k u w (read_one_frame es t) (omega arith)

next_round-Shrinks :
    (k : ℕ) (u : Uds) (t : SeqTracker) (w : World)
    → sockets_left u w ≤ k
    → Shrinks k (next_round u t w)
unfolding next_round
next_round-Shrinks k u t w h =
    let (u1, w1) = ensure_connected u w in
    read_from-Shrinks k u1.fd u1 t w1 (omega (arith, ensure_connected-consumes u w))

-- What next_loop does with the outcome of a round.
abbrev settle : ℕ → Round → Option Pulled
unfolding next_loop
settle fuel (done r) = some r
settle fuel (again u t w) = next_loop fuel u t w

settle-some : (fuel : ℕ) (r : Round) → Shrinks fuel r → (p : Pulled) × (settle fuel r ≡ some p)
unfolding next_loop settle
settle-some fuel (done r) h = (r, refl)
settle-some zero (again u t w) h = absurd (omega arith)
settle-some (suc fuel) (again u t w) h =
    settle-some fuel (next_round u t w) (next_round-Shrinks fuel u t w (omega arith))

-- next() ends: it makes at most one round for the open socket, one for each connect that the network
-- will accept, and a last one.
pub next_terminates :
    (fuel : ℕ) (s : EncodedStream) (t : SeqTracker) (w : World)
    → sockets_left s.conn w < fuel
    → (p : Pulled) × (next fuel s t w ≡ some p)
unfolding next settle
next_terminates fuel s t w h = elim (Bool-cases s.exhausted) [
  | inl spent ↦ ((none, s, t, w), rw spent)
  | inr left ↦ rw left (settle-some fuel (again s.conn t w) h)
]

-- The connection of a stream that reconnects, while it is closed.
abbrev pub closed_uds : ℕ → ℕ → Uds
closed_uds max base = record {
  fd = none;
  reconnect_enabled = true;
  max_attempts = max;
  backoff_base_ms = base;
}

next_loop-closing_peers :
    (n fuel max base : ℕ) (t : SeqTracker) (cs : List (Option (List Event))) (ms : List ℕ)
    → next_loop (n + fuel) (closed_uds (suc max) base) t (world (replicate n (some []) ++ cs) ms)
      ≡ next_loop fuel (closed_uds (suc max) base) t (world cs ms)
unfolding next_loop next_round ensure_connected attempt read_one_frame recv_exact close_fd lost
    after_read read_from with_header
next_loop-closing_peers zero fuel max base t cs ms = let e : 0 + fuel ≡ fuel = omega arith in rw e
next_loop-closing_peers (suc n) fuel max base t cs ms =
    let e : suc n + fuel ≡ suc (n + fuel) = omega arith in
    rw e (next_loop-closing_peers n fuel max base t cs ms)

-- The budget of attempts does not bound next() on a stream that reconnects: a publisher that
-- accepts and closes `n` times in a row makes it connect n times, with no sleep between, and go on
-- with its whole budget.
pub next_unbounded :
    (n fuel max base : ℕ) (t : SeqTracker) (cs : List (Option (List Event))) (ms : List ℕ)
    → let start = encoded_stream (closed_uds (suc max) base) false in
      next (n + fuel) start t (world (replicate n (some []) ++ cs) ms)
      ≡ next fuel start t (world cs ms)
unfolding next
next_unbounded = next_loop-closing_peers
