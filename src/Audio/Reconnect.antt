-- ===== src/Audio/Reconnect.antt =====
-- How next_frame of the audio client ends.
use neoruntime_sdks.Base.{
  ℕ, zero, suc, ◌+◌, ◌<◌, ◌≡◌, refl, List, [], ◌∷◌, ◌++◌, Option, none, some, Bool, true, false,
  not, if◌then◌else◌, length, arith, ok, err,
}
use neoruntime_sdks.Socket.{Event}
use neoruntime_sdks.Transport.{World, do_connect}
use neoruntime_sdks.Encoded.Stream.{unreachable}
use neoruntime_sdks.Audio.{
  Heard, recv_frame, AudioStreamClient, connected, ensure_fd, Audible, missed, after_read,
  read_round, next_frame,
}

-- The call returned or threw within its rounds.
abbrev pub Ends : Option Audible → Type 0
Ends none = ⊥
Ends (some r) = Unit

abbrev pub has_fd : Option (List Event) → ℕ
has_fd none = 0
has_fd (some es) = 1

-- What the rounds use up.
abbrev pub budget : AudioStreamClient → World → ℕ
budget c w = length w.connects + has_fd c.fd

if-Ends : (b : Bool) (r : Audible) (o : Option Audible) → Ends o → Ends (if b then some r else o)
if-Ends true r o e = tt
if-Ends false r o e = e

module _ (next : AudioStreamClient → World → Option Audible) (n : ℕ)
    (step : (c : AudioStreamClient) (w : World) → budget c w < n → Ends (next c w)) where
  missed-Ends :
      (reconnect : Bool) (c : AudioStreamClient) (cs : List (Option (List Event))) (ms : List ℕ)
      → length cs < n
      → 0 < n
      → Ends (missed reconnect c (record { connects = cs; sleeps = ms }) next)
  missed-Ends reconnect c [] ms h z =
      if-Ends (not reconnect) _ _ (step (record c { fd = none }) _ z)
  missed-Ends reconnect c (none ∷ cs) ms h z =
      if-Ends (not reconnect) _ _ (step (record c { fd = none }) _ (omega (arith, h)))
  missed-Ends reconnect c (some es ∷ cs) ms h z =
      if-Ends (not reconnect) _ _ (step (record c { fd = some es }) _ (omega (arith, h)))

  after_read-Ends :
      (reconnect : Bool) (c : AudioStreamClient) (w : World) (r : Heard)
      → length w.connects < n
      → Ends (after_read reconnect c w r next)
  after_read-Ends reconnect c w (some f, es) h = tt
  after_read-Ends reconnect c w (none, es) h =
      missed-Ends reconnect (record c { fd = some es }) w.connects w.sleeps h (omega (arith, h))

  round-Ends :
      (reconnect : Bool) (c : AudioStreamClient) (o : Option (List Event))
      (cs : List (Option (List Event))) (ms : List ℕ) (w0 : World)
      → length cs + has_fd o < suc n
      → Ends (
          read_round reconnect c w0
            (elim o [
              | some es ↦ ok (es, record { connects = cs; sleeps = ms })
              | none ↦ connected (do_connect (record { connects = cs; sleeps = ms }))
            ])
            next)
  round-Ends reconnect c (some es) cs ms w0 h =
      after_read-Ends reconnect c (record { connects = cs; sleeps = ms }) (recv_frame es)
        (omega (arith, h))
  round-Ends reconnect c none [] ms w0 h = tt
  round-Ends reconnect c none (none ∷ cs) ms w0 h = tt
  round-Ends reconnect c none (some es ∷ cs) ms w0 h =
      after_read-Ends reconnect c (record { connects = cs; sleeps = ms }) (recv_frame es)
        (omega (arith, h))

-- next_frame ends, with a frame, with none or with a throw, within one round for each connect whose
-- outcome is to come, one for the open socket and one more, whatever the sockets deliver.
pub next_frame-Ends :
    (fuel : ℕ) (reconnect : Bool) (c : AudioStreamClient) (w : World)
    → budget c w < fuel
    → Ends (next_frame fuel reconnect c w)
unfolding next_frame ensure_fd
next_frame-Ends zero reconnect c w h = absurd (omega arith)
next_frame-Ends (suc fuel) reconnect c w h = if-Ends c.closed _ _ (
    round-Ends (next_frame fuel reconnect) fuel
      (λ c' w' h'. next_frame-Ends fuel reconnect c' w' h') reconnect c c.fd w.connects w.sleeps
      (do_connect w).1 h)

after_read-missed :
    (reconnect : Bool) (c : AudioStreamClient) (w : World) (r : Heard)
    (next : AudioStreamClient → World → Option Audible)
    → r.0 ≡ none
    → after_read reconnect c w r next ≡ missed reconnect (record c { fd = some r.1 }) w next
after_read-missed reconnect c w (none, es) next h = refl
after_read-missed reconnect c w (some f, es) next h = absurd cc

-- A client that reconnects, on an open socket from which no frame can be read: if the next two
-- connects fail, next_frame throws, after sleeps of 500 and of 2000 ms, and makes no further attempt.
pub next_frame_gives_up :
    (fuel : ℕ) (es : List Event) (cs : List (Option (List Event))) (ms : List ℕ)
    → (recv_frame es).0 ≡ none
    → next_frame
        (suc (suc fuel))
        true
        (record { fd = some es; closed = false })
        (record { connects = none ∷ none ∷ cs; sleeps = ms })
      ≡ some (
        err unreachable,
        record { fd = none; closed = false },
        record { connects = cs; sleeps = (ms ++ (500 ∷ [])) ++ (2000 ∷ []) },
      )
unfolding next_frame ensure_fd
next_frame_gives_up fuel es cs ms h =
    after_read-missed true (record { fd = some es; closed = false })
      (record { connects = none ∷ none ∷ cs; sleeps = ms }) (recv_frame es)
      (next_frame (suc fuel) true) h
