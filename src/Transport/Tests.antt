-- ===== src/Transport/Tests.antt =====
-- ensure_connected at a concrete network.
use neoruntime_sdks.Base.{◌≡◌, refl, [], ◌∷◌, ◌++◌, none, some, true, arith, replicate}
use neoruntime_sdks.Transport.{Uds, uds, ensure_connected, attempt}
use neoruntime_sdks.Transport.Backoff.{ramp, world, ensure_connected_backoff}

abbrev closed : Uds
closed = record { fd = none; reconnect_enabled = true; max_attempts = 3; backoff_base_ms = 100 }

ensure_connected_run :
    (ensure_connected (uds true 3 100) (world (none ∷ none ∷ some [] ∷ []) [])).1.sleeps
    ≡ 100 ∷ 200 ∷ []
unfolding uds ensure_connected attempt
ensure_connected_run = refl

ensure_connected_backoff_example :
    (ensure_connected closed (world (replicate 1 none ++ (some [] ∷ [])) [])
      ≡ (record closed { fd = some [] }, world [] (ramp 100 0 1)))
    × (ensure_connected closed (world (replicate 3 none ++ []) [])
        ≡ (record closed { fd = none }, world [] (ramp 100 0 2)))
ensure_connected_backoff_example =
    ensure_connected_backoff closed 2 1 [] [] [] refl refl (omega arith)
