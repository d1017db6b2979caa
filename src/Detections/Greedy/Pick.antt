-- ===== src/Detections/Greedy/Pick.antt =====
-- nms against a reference that has neither the matrix nor the flags.
use neoruntime_sdks.Base.{
  ℕ, ◌<◌, ◌≡◌, ◌≢◌, refl, ap, inl, inr, List, [], ◌∷◌, Option, none, some, Bool, true, false, not,
  ◌||◌, ◌==◌, if◌then◌else◌, length, get_or, arith, Bool-cases, Result, ok, err, ◌>>◌, throw_if,
}
use neoruntime_sdks.Base.Double.{Double}
use neoruntime_sdks.Detections.{
  Float, Box, Matrix, NmsError, scores_mismatch, class_ids_mismatch, iou_threshold_range,
  overlap_at, fill, clear_classes, exceeds, set_flag, suppress, greedy, in_unit, score_order,
  nms_checked, nms, higher,
}
use neoruntime_sdks.Detections.Order.{AllBelow, Absent, Distinct, order-AllBelow, order-Distinct}
use neoruntime_sdks.Detections.Greedy.{by_pair, fill_value, cleared_value, suppress_value}

abbrev pub same_class : Option (List ℕ) → ℕ → ℕ → Bool
same_class none a b = true
same_class (some ids) a b = get_or ids a 0 == get_or ids b 0

module _ (covers : ℕ → ℕ → Bool) where
  abbrev pub any_covers : List ℕ → ℕ → Bool
  any_covers [] j = false
  any_covers (i ∷ is) j = any_covers is j || covers i j

  -- `kept` holds what is kept so far.
  unfoldable pub pick : List ℕ → List ℕ → List ℕ
  pick kept [] = []
  pick kept (j ∷ js) =
      let skipped = pick kept js in
      let taken = j ∷ pick (j ∷ kept) js in if any_covers kept j then skipped else taken

module _ (d : Double) (fl : Float d) where
  -- Whether box `a` suppresses box `b`: of the same class, and overlapping it by more than the limit.
  unfoldable pub covers_box : List (Box fl.F) → d.D → Option (List ℕ) → ℕ → ℕ → Bool
  covers_box boxes threshold ids a b = exceeds d fl threshold (
      if same_class ids a b
      then by_pair (fl.literal 0) (overlap_at d fl boxes) a b
      else fl.literal 0)

  abbrev pub sizes_match : Option (List ℕ) → ℕ → Result (NmsError d.D) (Unit {0})
  sizes_match none n = ok tt
  sizes_match (some ids) n = throw_if (not (length ids == n)) (class_ids_mismatch (length ids) n)

  abbrev pub checked_reference :
      List (Box fl.F) → List fl.F → d.D → Option (List ℕ) → Result (NmsError d.D) (List ℕ)
  checked_reference boxes scores threshold ids = do
    throw_if (not (in_unit d fl threshold)) (iou_threshold_range threshold)
    sizes_match ids (length boxes)
    ok (pick (covers_box boxes threshold ids) [] (score_order d fl scores (length boxes)))

  unfoldable pub nms_reference :
      List (Box fl.F) → List fl.F → d.D → Option (List ℕ) → Result (NmsError d.D) (List ℕ)
  unfolding pick covers_box
  nms_reference boxes scores threshold ids =
      let n = length boxes in
      if n == length scores
      then if n == 0 then ok [] else checked_reference boxes scores threshold ids
      else err (scores_mismatch n (length scores))

  module _ (t : d.D) (n : ℕ) (iou : Matrix fl.F) (covers : ℕ → ℕ → Bool) where
    abbrev Represents : Type 0
    Represents = (a b : ℕ) → a < n → b < n → exceeds d fl t (iou a b) ≡ covers a b

    -- The flags tell which of the boxes to come are covered by a kept one.
    abbrev Agree : (ℕ → Bool) → List ℕ → List ℕ → Type 0
    Agree flags kept [] = Unit
    Agree flags kept (x ∷ xs) = (flags x ≡ any_covers covers kept x) × Agree flags kept xs

    flag_after :
        (flags : ℕ → Bool) (kept : List ℕ) (i x : ℕ)
        → Represents
        → i ≢ x
        → i < n
        → x < n
        → flags x ≡ any_covers covers kept x
        → set_flag (suppress d fl t (iou i) 0 n flags) i x ≡ any_covers covers (i ∷ kept) x
    flag_after flags kept i x r ne hi hx e =
        ground (arith, e, r i x hi hx, suppress_value d fl t (iou i) 0 n flags x)

    suppress-Agree :
        (flags : ℕ → Bool) (kept : List ℕ) (i : ℕ) (xs : List ℕ)
        → Represents
        → i < n
        → Absent i xs
        → AllBelow n xs
        → Agree flags kept xs
        → Agree (set_flag (suppress d fl t (iou i) 0 n flags) i) (i ∷ kept) xs
    suppress-Agree flags kept i [] r hi a b g = tt
    suppress-Agree flags kept i (x ∷ xs) r hi (ne, a) (hx, b) (e, g) =
        (flag_after flags kept i x r ne hi hx e, suppress-Agree flags kept i xs r hi a b g)

    greedy-pick :
        (order kept : List ℕ) (flags : ℕ → Bool)
        → Represents
        → AllBelow n order
        → Distinct order
        → Agree flags kept order
        → greedy d fl t iou n flags order ≡ pick covers kept order
    unfolding greedy pick
    greedy-pick [] kept flags r b q g = refl
    greedy-pick (x ∷ xs) kept flags r (hx, b) (a, q) (e, g) =
        elim (Bool-cases (any_covers covers kept x)) [
          | inl y ↦ rw (e, y) (greedy-pick xs kept flags r b q g)
          | inr y ↦
              let flags' = set_flag (suppress d fl t (iou x) 0 n flags) x in
              rw (e, y)
                (ap (◌∷◌ x) (
                  greedy-pick xs (x ∷ kept) flags' r b q
                    (suppress-Agree flags kept x xs r hx a b g)))
        ]

    none_flagged : (xs : List ℕ) → Agree (λ i. false) [] xs
    none_flagged [] = tt
    none_flagged (x ∷ xs) = (refl, none_flagged xs)

  module _ (boxes : List (Box fl.F)) (scores : List fl.F) (t : d.D) where
    represents_cleared :
        (ids : List ℕ)
        → Represents t
            (length boxes)
            (clear_classes d fl ids
              (length boxes)
              0
              (length boxes)
              (fill d fl boxes 0 (length boxes) (λ a b. fl.literal 0)))
            (covers_box boxes t (some ids))
    unfolding covers_box
    represents_cleared ids a b ha hb =
        let m = fill d fl boxes 0 (length boxes) (λ a b. fl.literal 0) in
        rw (cleared_value d fl ids (length boxes) m a b ha hb)
          (rw (fill_value d fl boxes (length boxes) a b ha hb) refl)

    represents_filled :
        Represents t
          (length boxes)
          (fill d fl boxes 0 (length boxes) (λ a b. fl.literal 0))
          (covers_box boxes t none)
    unfolding covers_box
    represents_filled a b ha hb = rw (fill_value d fl boxes (length boxes) a b ha hb) refl

    greedy_order :
        (m : Matrix fl.F) (ids : Option (List ℕ))
        → Represents t (length boxes) m (covers_box boxes t ids)
        → greedy d fl t m (length boxes) (λ i. false) (score_order d fl scores (length boxes))
          ≡ pick (covers_box boxes t ids) [] (score_order d fl scores (length boxes))
    greedy_order m ids r =
        let n = length boxes in
        greedy-pick t n m (covers_box boxes t ids) (score_order d fl scores n) [] (λ i. false) r
          (order-AllBelow (higher d fl scores) n) (order-Distinct (higher d fl scores) n)
          (none_flagged t n m (covers_box boxes t ids) (score_order d fl scores n))

    checked-checked_reference :
        (ids : Option (List ℕ))
        → nms_checked d fl boxes scores t ids ≡ checked_reference boxes scores t ids
    checked-checked_reference none = elim (Bool-cases (in_unit d fl t)) [
      | inl e ↦ rw e (
          ap ok (
            greedy_order (fill d fl boxes 0 (length boxes) (λ a b. fl.literal 0)) none
              represents_filled))
      | inr e ↦ rw e refl
    ]
    checked-checked_reference (some ids) =
        let m = fill d fl boxes 0 (length boxes) (λ a b. fl.literal 0) in
        elim (Bool-cases (in_unit d fl t)) [
          | inl e ↦ elim (Bool-cases (length ids == length boxes)) [
            | inl e' ↦
                rw (e, e')
                  (ap ok (
                    greedy_order (clear_classes d fl ids (length boxes) 0 (length boxes) m)
                      (some ids) (represents_cleared ids)))
            | inr e' ↦ rw (e, e') refl
          ]
          | inr e ↦ rw e refl
        ]

    -- For every input, errors included, nms gives what the reference gives: the greedy choice by the
    -- overlaps themselves, in the order of the scores, with the same checks in the same order.
    pub nms-nms_reference :
        (ids : Option (List ℕ)) → nms d fl boxes scores t ids ≡ nms_reference boxes scores t ids
    unfolding nms nms_reference
    nms-nms_reference ids = elim (Bool-cases (length boxes == length scores)) [
      | inl e ↦ rw e (
          ap (λ (r : Result (NmsError d.D) (List ℕ)). if length boxes == 0 then ok [] else r)
            (checked-checked_reference ids))
      | inr e ↦ rw e refl
    ]
