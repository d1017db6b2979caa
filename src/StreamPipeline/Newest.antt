-- ===== src/StreamPipeline/Newest.antt =====
-- The result queue of StreamPipeline and the slots that are offered to it.
use neoruntime_sdks.Base.{
  ℕ, zero, suc, ◌+◌, ◌-◌, ◌<◌, ◌≡◌, refl, sym, ap, List, [], ◌∷◌, ◌++◌, false, leb, arith, length,
  length-append, drop, drop-snoc, length-drop, le→leb,
}
use native.Mathlib.Decide.{dec_le}
use neoruntime_sdks.StreamPipeline.{Slot, ResultQueue, evict, offer_slot}

module _ {R : Type 0} where
  evict-drop :
      (capacity : ℕ) (xs : List (Slot R))
      → 0 < capacity
      → evict capacity xs ≡ (drop (length xs + 1 - capacity) xs, length xs + 1 - capacity)
  unfolding evict
  evict-drop capacity [] h = let e : 0 + 1 - capacity ≡ 0 = omega arith in rw e
  evict-drop capacity (x ∷ xs) h = elim (dec_le capacity (suc (length xs))) [
    | yes full ↦
        let e : suc (length xs) + 1 - capacity ≡ suc (length xs + 1 - capacity) = omega arith in
        rw (le→leb capacity (suc (length xs)) full, e, evict-drop capacity xs h)
    | no room ↦
        let t : leb capacity (suc (length xs)) ≡ false = ground arith in
        let e : suc (length xs) + 1 - capacity ≡ 0 = omega arith in rw (t, e)
  ]

  drop_one-drop : (n : ℕ) (xs : List (Slot R)) → drop 1 (drop n xs) ≡ drop (suc n) xs
  drop_one-drop zero xs = refl
  drop_one-drop (suc n) [] = refl
  drop_one-drop (suc n) (x ∷ xs) = drop_one-drop n xs

  -- A queue that holds the newest of the slots `xs` that were offered to it.
  pub record Holds (xs : List (Slot R)) (q : ResultQueue R) : Type 0 where
    pub slots : q.slots ≡ drop (length xs - q.capacity) xs
    pub drops : q.drops ≡ length xs - q.capacity

  -- How the newest slots change when one more is offered.
  window-snoc :
      (capacity : ℕ) (xs : List (Slot R)) (slot : Slot R)
      → 0 < capacity
      → let kept = drop (length xs - capacity) xs in
        drop (length kept + 1 - capacity) kept ++ (slot ∷ [])
        ≡ drop (length (xs ++ (slot ∷ [])) - capacity) (xs ++ (slot ∷ []))
  window-snoc capacity xs slot h =
      let l = length-append xs (slot ∷ []) in
      let k = length-drop (length xs - capacity) xs in
      elim (dec_le capacity (length xs)) [
        | yes full ↦
            let one : length (drop (length xs - capacity) xs) + 1 - capacity ≡ 1 = omega arith in
            let n : length (xs ++ (slot ∷ [])) - capacity ≡ suc (length xs - capacity) =
              omega arith in
            rw (one, n, drop_one-drop (length xs - capacity) xs)
              (sym (drop-snoc (suc (length xs - capacity)) xs slot (omega arith)))
        | no room ↦
            let z : length xs - capacity ≡ 0 = omega arith in
            let n : length (xs ++ (slot ∷ [])) - capacity ≡ 0 = omega arith in
            let m : length xs + 1 - capacity ≡ 0 = omega arith in rw (n, z, m)
      ]

  pub offer-Holds :
      (xs : List (Slot R)) (q : ResultQueue R) (slot : Slot R)
      → 0 < q.capacity
      → Holds xs q
      → Holds (xs ++ (slot ∷ [])) (offer_slot slot q)
  unfolding offer_slot
  offer-Holds xs q slot h holds =
      let l = length-append xs (slot ∷ []) in
      let k = length-drop (length xs - q.capacity) xs in
      let e = evict-drop q.capacity q.slots h in
      record {
        slots = rw (e, holds.slots) (window-snoc q.capacity xs slot h);
        drops =
            let n : length q.slots ≡ length (drop (length xs - q.capacity) xs) =
              ap length holds.slots in
            let d = holds.drops in rw e (omega arith);
      }
