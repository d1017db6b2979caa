-- ===== src/Detections/Greedy/Sound.antt =====
-- The boxes that nms keeps, and those that it leaves out.
use neoruntime_sdks.Base.{
  ℕ, zero, suc, ◌+◌, ◌≤◌, ◌<◌, ◌≡◌, refl, ap, ◌∙◌, inl, inr, List, [], ◌∷◌, Option, Bool, true,
  false, ◌||◌, ◌==◌, length, arith, Bool-cases, Result, ok, err,
}
use neoruntime_sdks.Base.Double.{Double}
use neoruntime_sdks.Detections.{
  Float, Box, NmsError, in_unit, score_order, nms, higher, stable_sort, insert_sorted, indices,
}
use neoruntime_sdks.Detections.Greedy.Pick.{
  any_covers, pick, covers_box, sizes_match, checked_reference, nms_reference, nms-nms_reference,
}

abbrev pub has : List ℕ → ℕ → Bool
has [] j = false
has (i ∷ is) j = (i == j) || has is j

module _ (covers : ℕ → ℕ → Bool) where
  abbrev pub Clear : ℕ → List ℕ → Type 0
  Clear i [] = Unit
  Clear i (j ∷ js) = (covers i j ≡ false) × Clear i js

  -- No element covers one after it.
  abbrev pub Spaced : List ℕ → Type 0
  Spaced [] = Unit
  Spaced (i ∷ is) = Clear i is × Spaced is

  abbrev Fresh : List ℕ → List ℕ → Type 0
  Fresh kept [] = Unit
  Fresh kept (j ∷ js) = (any_covers covers kept j ≡ false) × Fresh kept js

  or_false : (a b : Bool) → (a || b) ≡ false → (a ≡ false) × (b ≡ false)
  or_false false false h = (refl, refl)
  or_false false true h = absurd cc
  or_false true b h = absurd cc

  Fresh-split : (i : ℕ) (kept js : List ℕ) → Fresh (i ∷ kept) js → Fresh kept js × Clear i js
  Fresh-split i kept [] f = (tt, tt)
  Fresh-split i kept (j ∷ js) (e, f) =
      let (p, q) = or_false (any_covers covers kept j) (covers i j) e in
      let (r, s) = Fresh-split i kept js f in ((p, r), (q, s))

  pick-Spaced : (js kept : List ℕ) → Fresh kept (pick covers kept js) × Spaced (pick covers kept js)
  unfolding pick
  pick-Spaced [] kept = (tt, tt)
  pick-Spaced (j ∷ js) kept = elim (Bool-cases (any_covers covers kept j)) [
    | inl e ↦ rw e (pick-Spaced js kept)
    | inr e ↦
        let (f, s) = pick-Spaced js (j ∷ kept) in
        let (g, c) = Fresh-split j kept (pick covers (j ∷ kept) js) f in rw e ((e, g), (c, s))
  ]

  -- Box `x` is kept, or covered by one that is kept.
  abbrev pub accounted : List ℕ → ℕ → Bool
  accounted ks x = has ks x || any_covers covers ks x

  pick_accounts :
      (js kept : List ℕ) (x : ℕ)
      → has js x ≡ true
      → (accounted (pick covers kept js) x || any_covers covers kept x) ≡ true
  unfolding pick
  pick_accounts [] kept x h = absurd cc
  pick_accounts (j ∷ js) kept x h = elim (Bool-cases (any_covers covers kept j)) [
    | inl e ↦ rw e (ground (arith, e, h, pick_accounts js kept x))
    | inr e ↦ rw e (ground (arith, e, h, pick_accounts js (j ∷ kept) x))
  ]

or_false_right : (a : Bool) → (a || false) ≡ true → a ≡ true
or_false_right true h = refl
or_false_right false h = h

module _ (before : ℕ → ℕ → Bool) where
  has-insert_sorted :
      (x : ℕ) (ys : List ℕ) (z : ℕ) → has (insert_sorted before x ys) z ≡ ((x == z) || has ys z)
  has-insert_sorted x [] z = refl
  has-insert_sorted x (y ∷ ys) z = elim (Bool-cases (before y x)) [
    | inl e ↦ rw e (ground (arith, has-insert_sorted x ys z))
    | inr e ↦ rw e refl
  ]

  has-stable_sort : (xs : List ℕ) (z : ℕ) → has (stable_sort before xs) z ≡ has xs z
  has-stable_sort [] z = refl
  has-stable_sort (x ∷ xs) z =
      has-insert_sorted x (stable_sort before xs) z
      ∙ ap (λ (b : Bool). (x == z) || b) (has-stable_sort xs z)

has-indices : (i k z : ℕ) → i ≤ z → z < i + k → has (indices i k) z ≡ true
has-indices i zero z h h' = absurd (omega arith)
has-indices i (suc k) z h h' = elim (Bool-cases (i == z)) [
  | inl e ↦ rw e refl
  | inr e ↦ rw e (has-indices (i + 1) k z (ground arith) (omega arith))
]

module _ (d : Double) (fl : Float d) where
  -- What a result of nms is held to.
  abbrev pub Suppressed :
      List (Box fl.F) → d.D → Option (List ℕ) → Result (NmsError d.D) (List ℕ) → Type 0
  Suppressed boxes t ids (err e) = Unit
  Suppressed boxes t ids (ok ks) =
      Spaced (covers_box d fl boxes t ids) ks
      × ((x : ℕ) → x < length boxes → accounted (covers_box d fl boxes t ids) ks x ≡ true)

  module _ (boxes : List (Box fl.F)) (scores : List fl.F) (t : d.D) (ids : Option (List ℕ)) where
    picked-Suppressed :
        Suppressed boxes t ids
          (ok (pick (covers_box d fl boxes t ids) [] (score_order d fl scores (length boxes))))
    picked-Suppressed =
        let covers = covers_box d fl boxes t ids in
        let before = higher d fl scores in
        let order = score_order d fl scores (length boxes) in
        (
          (pick-Spaced covers order []).1,
          λ x h.
              let e : has order x ≡ true =
                has-stable_sort before (indices 0 (length boxes)) x
                ∙ has-indices 0 (length boxes) x (omega arith) (omega arith) in
              or_false_right (accounted covers (pick covers [] order) x)
                (pick_accounts covers order [] x e),
        )

    checked_reference-Suppressed :
        (b : Bool) (r : Result (NmsError d.D) (Unit {0}))
        → in_unit d fl t ≡ b
        → sizes_match d fl ids (length boxes) ≡ r
        → Suppressed boxes t ids (checked_reference d fl boxes scores t ids)
    checked_reference-Suppressed false r e e' = rw e tt
    checked_reference-Suppressed true (err x) e e' = rw (e, e') tt
    checked_reference-Suppressed true (ok x) e e' = rw (e, e') picked-Suppressed

    reference-Suppressed : Suppressed boxes t ids (nms_reference d fl boxes scores t ids)
    unfolding nms_reference
    reference-Suppressed = elim (Bool-cases (length boxes == length scores)) [
      | inl e ↦ elim (Bool-cases (length boxes == 0)) [
        | inl z ↦ simp (e, z) (tt, λ x h. absurd (ground arith))
        | inr z ↦
            simp (e, z)
              (checked_reference-Suppressed (in_unit d fl t) (sizes_match d fl ids (length boxes))
                refl refl)
      ]
      | inr e ↦ simp e tt
    ]

    -- Whatever the boxes and scores are: if nms returns, none of the boxes that it keeps overlaps, by
    -- more than the limit, one of its class that it keeps and that has an earlier place in the order
    -- of the scores; and every box is kept, or so overlapped by one that is kept.
    pub nms-Suppressed : Suppressed boxes t ids (nms d fl boxes scores t ids)
    nms-Suppressed = rw (nms-nms_reference d fl boxes scores t ids) reference-Suppressed
