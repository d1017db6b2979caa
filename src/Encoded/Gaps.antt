-- ===== src/Encoded/Gaps.antt =====
-- What the counters of a SeqTracker say about the packets that a client got.
use neoruntime_sdks.Base.{ℕ, ◌+◌, ◌^◌, ◌≤◌, ◌<◌, ◌≡◌, refl, List, [], ◌∷◌, true, arith}
use neoruntime_sdks.Encoded.{SeqTracker, new_tracker, note_gap, observe}

-- Packets in the order of their arrival.
abbrev pub observe_all : SeqTracker → List ℕ → SeqTracker
unfolding observe
observe_all t [] = t
observe_all t (s ∷ ss) = observe_all (observe t s) ss

-- Sequence numbers that rise from `prev` on, with or without holes.
abbrev pub Rising : ℕ → List ℕ → Type 0
Rising prev [] = Unit {0}
Rising prev (s ∷ ss) = (prev < s) × (s < 2 ^ 64) × Rising s ss

abbrev pub last_or : ℕ → List ℕ → ℕ
last_or prev [] = prev
last_or prev (s ∷ ss) = last_or s ss

-- Every number from `first` to `last` is a packet that came or one that is counted as missing.
pub record Accounts (first last : ℕ) (t : SeqTracker) : Type 0 where
  pub seen : t.has_last ≡ true
  pub is_last : t.last_seq ≡ last
  pub total : t.seq_packets + t.seq_missing + first ≡ last + 1
  pub events : t.seq_gap_events ≤ t.seq_missing

observe-Accounts :
    (first last seq : ℕ) (t : SeqTracker)
    → 0 < first
    → last < seq
    → seq < 2 ^ 64
    → Accounts first last t
    → Accounts first seq (observe t seq)
unfolding observe note_gap
observe-Accounts first last seq t hf hl hs a =
    let seen = a.seen in
    let l = a.is_last in
    let total = a.total in
    let events = a.events in
    rw (seen) (record { seen = refl; is_last = refl; total = ground arith; events = ground arith })

observe_all-Accounts :
    (first last : ℕ) (t : SeqTracker) (ss : List ℕ)
    → 0 < first
    → Accounts first last t
    → Rising last ss
    → Accounts first (last_or last ss) (observe_all t ss)
unfolding observe_all
observe_all-Accounts first last t [] hf a r = a
observe_all-Accounts first last t (s ∷ ss) hf a (lo, hi, r) =
    observe_all-Accounts first s (observe t s) ss hf (observe-Accounts first last s t hf lo hi a) r

-- A new tracker that observes packets whose numbers rise, the first of them at least 1, counts every
-- number from the first to the last one, once as a packet or once as missing, has no more gaps than
-- missing packets, and remembers the last number.
pub tracker-Accounts :
    (first : ℕ) (ss : List ℕ)
    → 0 < first
    → first < 2 ^ 64
    → Rising first ss
    → Accounts first (last_or first ss) (observe_all new_tracker (first ∷ ss))
unfolding observe observe_all
tracker-Accounts first ss hf hb r =
    observe_all-Accounts first first _ ss hf
      (record { seen = refl; is_last = refl; total = omega arith; events = omega arith }) r
