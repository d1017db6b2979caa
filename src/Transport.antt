-- ===== src/Transport.antt =====
-- UdsStreamClientBase of detail/transport.hpp: one Unix socket that is opened when it is needed,
-- with a bounded number of attempts and a backoff that grows by one step each.
pub mod Backoff
mod Tests
use neoruntime_sdks.Base.{
  ℕ, zero, suc, ◌+◌, ◌*◌, List, [], ◌∷◌, ◌++◌, Option, none, some, Bool, true, false, ltb,
  if◌then◌else◌,
}
use neoruntime_sdks.Socket.{Event}

-- What the rest of the system does: the outcome of each connect to come (`none` for one that
-- throws, and so for all after the list), and what has been slept, in milliseconds, oldest first.
pub record World : Type 0 where
  pub connects : List (Option (List Event))
  pub sleeps : List ℕ

-- An open descriptor is what the kernel will return for it.
pub record Uds : Type 0 where
  pub fd : Option (List Event)
  pub reconnect_enabled : Bool
  pub max_attempts : ℕ
  pub backoff_base_ms : ℕ

unfoldable pub uds : Bool → ℕ → ℕ → Uds
uds reconnect max_attempts backoff_base_ms = record {
  fd = none;
  reconnect_enabled = reconnect;
  max_attempts = if ltb 0 max_attempts then max_attempts else 1;
  backoff_base_ms = backoff_base_ms;
}

abbrev pub connect_to : List (Option (List Event)) → World → Option (List Event) × World
connect_to [] w = (none, w)
connect_to (c ∷ cs) w = (c, record w { connects = cs })

-- do_connect, which takes the next outcome.
abbrev pub do_connect : World → Option (List Event) × World
do_connect w = connect_to w.connects w

abbrev pub sleep_for : ℕ → World → World
sleep_for ms w = record w { sleeps = w.sleeps ++ (ms ∷ []) }

-- The sleep before attempt `i + 1`, which is left out when no attempt is left.
abbrev pub back_off : ℕ → ℕ → ℕ → World → World
back_off zero base i w = w
back_off (suc left) base i w = sleep_for (base * (i + 1)) w

-- The loop of ensure_connected at attempt `i`, with the attempts left.
unfoldable pub attempt : ℕ → ℕ → ℕ → World → Option (List Event) × World
attempt zero base i w = (none, w)
attempt (suc left) base i w =
    let (fd, w1) = do_connect w in
    let rest = attempt left base (i + 1) (back_off left base i w1) in
    elim fd [ some es ↦ (some es, w1) | none ↦ rest ]

abbrev pub attempts_of : Uds → ℕ
attempts_of u = if u.reconnect_enabled then u.max_attempts else 1

-- ensure_connected, whose result is whether the descriptor is open after it.
unfoldable pub ensure_connected : Uds → World → Uds × World
ensure_connected u w = elim u.fd [
  | some es ↦ (u, w)
  | none ↦
      let (fd, w1) = attempt (attempts_of u) u.backoff_base_ms 0 w in (record u { fd = fd }, w1)
]

unfoldable pub close_fd : Uds → Uds
close_fd u = record u { fd = none }
