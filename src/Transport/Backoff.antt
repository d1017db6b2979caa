-- ===== src/Transport/Backoff.antt =====
-- How ensure_connected spends its attempts.
use neoruntime_sdks.Base.{
  ℕ, zero, suc, ◌+◌, ◌*◌, ◌≤◌, ◌<◌, ◌≡◌, ap, ◌∙◌, List, [], ◌∷◌, ◌++◌, append-nil, append_assoc,
  Option, none, some, replicate, arith,
}
use neoruntime_sdks.Socket.{Event}
use neoruntime_sdks.Transport.{World, Uds, attempt, attempts_of, ensure_connected}

-- The sleeps after `k` attempts from attempt `i` on: each is one step longer.
abbrev pub ramp : ℕ → ℕ → ℕ → List ℕ
ramp base i zero = []
ramp base i (suc k) = base * (i + 1) ∷ ramp base (i + 1) k

abbrev pub world : List (Option (List Event)) → List ℕ → World
world connects sleeps = record { connects = connects; sleeps = sleeps }

attempt-connects :
    (n m base i : ℕ) (es : List Event) (cs : List (Option (List Event))) (ms : List ℕ)
    → n < m
    → attempt m base i (world (replicate n none ++ (some es ∷ cs)) ms)
      ≡ (some es, world cs (ms ++ ramp base i n))
unfolding attempt
attempt-connects n zero base i es cs ms h = absurd (omega arith)
attempt-connects zero (suc m) base i es cs ms h = rw (append-nil ms)
attempt-connects (suc n) (suc zero) base i es cs ms h = absurd (omega arith)
attempt-connects (suc n) (suc (suc m)) base i es cs ms h =
    attempt-connects n (suc m) base (i + 1) es cs (ms ++ (base * (i + 1) ∷ [])) (omega arith)
    ∙ ap (λ ss. (some es, world cs ss))
        (append_assoc ms (base * (i + 1) ∷ []) (ramp base (i + 1) n))

attempt-fails :
    (m base i : ℕ) (cs : List (Option (List Event))) (ms : List ℕ)
    → attempt (suc m) base i (world (replicate (suc m) none ++ cs) ms)
      ≡ (none, world cs (ms ++ ramp base i m))
unfolding attempt
attempt-fails zero base i cs ms = rw (append-nil ms)
attempt-fails (suc m) base i cs ms =
    attempt-fails m base (i + 1) cs (ms ++ (base * (i + 1) ∷ []))
    ∙ ap (λ ss. (none, world cs ss)) (append_assoc ms (base * (i + 1) ∷ []) (ramp base (i + 1) m))

-- A client that is not connected and may make m + 1 attempts in a row (its budget if it reconnects,
-- one if it does not): if the first `n` of them fail, with n at most `m`, and the next one succeeds, it
-- is connected after n sleeps, each one step longer than the last; if all m + 1 fail, it is not
-- connected, has slept `m` times and has made no further attempt.
pub ensure_connected_backoff :
    (u : Uds) (m n : ℕ) (es : List Event) (cs : List (Option (List Event))) (ms : List ℕ)
    → u.fd ≡ none
    → attempts_of u ≡ suc m
    → n ≤ m
    → (ensure_connected u (world (replicate n none ++ (some es ∷ cs)) ms)
        ≡ (record u { fd = some es }, world cs (ms ++ ramp u.backoff_base_ms 0 n)))
      × (ensure_connected u (world (replicate (suc m) none ++ cs) ms)
          ≡ (record u { fd = none }, world cs (ms ++ ramp u.backoff_base_ms 0 m)))
unfolding ensure_connected
ensure_connected_backoff u m n es cs ms closed budget le = (
  rw (closed, budget, attempt-connects n (suc m) u.backoff_base_ms 0 es cs ms (omega arith)),
  rw (closed, budget, attempt-fails m u.backoff_base_ms 0 cs ms),
)
