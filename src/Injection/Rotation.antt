-- ===== src/Injection/Rotation.antt =====
-- pick_free_slot of detail/injection_logic.hpp: the slots that its rotation looks at.
use neoruntime_sdks.Base.{
  ℕ, zero, suc, ◌+◌, ◌-◌, ◌%◌, ◌<◌, ◌≡◌, sym, ap, ◌∙◌, List, Option, none, some, Bool, true, false,
  length, get_or, arith, Bool-cases, inl, inr,
}
use native.Mathlib.Nat.{mod-lt, mod-eq_of_lt, add-mod_right}
use native.Mathlib.Decide.{dec_le}
use neoruntime_sdks.Injection.{pick_free_slot, pick_free_slot_from}

-- What pick_free_slot promises for the slot that it found, and what it has seen when it found none.
abbrev pub Picked : List ℕ → (ℕ → Bool) → ℕ → ℕ → ℕ → Option ℕ → Type 0
Picked ids in_flight cursor off left (some slot) =
    (slot < length ids) × (in_flight (get_or ids slot 0) ≡ false)
Picked ids in_flight cursor off left none =
    (i : ℕ) → i < left → in_flight (get_or ids ((cursor + (off + i)) % length ids) 0) ≡ true

-- One more busy slot before those that a search has seen.
Picked-suc :
    (left off cursor : ℕ) (ids : List ℕ) (in_flight : ℕ → Bool) (found : Option ℕ)
    → in_flight (get_or ids ((cursor + off) % length ids) 0) ≡ true
    → Picked ids in_flight cursor (off + 1) left found
    → Picked ids in_flight cursor off (suc left) found
Picked-suc left off cursor ids in_flight (some slot) busy p = p
Picked-suc left off cursor ids in_flight none busy p = go
  where
    go :
        (i : ℕ) → i < suc left → in_flight (get_or ids ((cursor + (off + i)) % length ids) 0) ≡ true
    go zero lt = let e : off + 0 ≡ off = omega arith in rw e busy
    go (suc i) lt = let e : off + suc i ≡ off + 1 + i = omega arith in rw e (p i (omega arith))

pick_free_slot_from-Picked :
    (left off cursor : ℕ) (ids : List ℕ) (in_flight : ℕ → Bool)
    → 0 < length ids
    → Picked ids in_flight cursor off left (pick_free_slot_from left off cursor ids in_flight)
unfolding pick_free_slot_from
pick_free_slot_from-Picked zero off cursor ids in_flight h = λ i lt. absurd (omega arith)
pick_free_slot_from-Picked (suc left) off cursor ids in_flight h =
    elim (Bool-cases (in_flight (get_or ids ((cursor + off) % length ids) 0))) [
      | inl busy ↦ rw busy (
          Picked-suc left off cursor ids in_flight _ busy
            (pick_free_slot_from-Picked left (off + 1) cursor ids in_flight h))
      | inr idle ↦ rw idle (mod-lt (cursor + off) h, idle)
    ]

-- A slot of the pool that is not in flight, or no such slot.
abbrev pub FreeSlot : List ℕ → (ℕ → Bool) → Option ℕ → Type 0
FreeSlot ids in_flight (some slot) = (slot < length ids) × (in_flight (get_or ids slot 0) ≡ false)
FreeSlot ids in_flight none = (i : ℕ) → i < length ids → in_flight (get_or ids i 0) ≡ true

-- The offset at which the rotation comes to slot `i`.
rotation : (cursor i n : ℕ) → cursor < n → i < n → (k : ℕ) × (k < n) × ((cursor + (0 + k)) % n ≡ i)
rotation cursor i n hc hi = elim (dec_le cursor i) [
  | yes le ↦
      let e : cursor + (0 + (i - cursor)) ≡ i = omega arith in
      (i - cursor, omega arith, rw e (mod-eq_of_lt hi))
  | no gt ↦
      let e : cursor + (0 + (i + n - cursor)) ≡ i + n = omega arith in
      (i + n - cursor, omega arith, rw e (add-mod_right i n ∙ mod-eq_of_lt hi))
]

FreeSlot-of_Picked :
    (cursor : ℕ) (ids : List ℕ) (in_flight : ℕ → Bool) (found : Option ℕ)
    → cursor < length ids
    → Picked ids in_flight cursor 0 (length ids) found
    → FreeSlot ids in_flight found
FreeSlot-of_Picked cursor ids in_flight (some slot) hc p = p
FreeSlot-of_Picked cursor ids in_flight none hc p = λ i hi.
    let (k, hk, e) = rotation cursor i (length ids) hc hi in
    ap (λ j. in_flight (get_or ids j 0)) (sym e) ∙ p k hk

-- From any position of the cursor in the pool, pick_free_slot finds a slot of the pool whose id is not
-- in flight, or there is none: every id of the pool is in flight.
pub pick_free_slot-FreeSlot :
    (cursor : ℕ) (ids : List ℕ) (in_flight : ℕ → Bool)
    → cursor < length ids
    → FreeSlot ids in_flight (pick_free_slot cursor ids in_flight)
unfolding pick_free_slot
pick_free_slot-FreeSlot cursor ids in_flight h =
    FreeSlot-of_Picked cursor ids in_flight _ h
      (pick_free_slot_from-Picked (length ids) 0 cursor ids in_flight (omega arith))
