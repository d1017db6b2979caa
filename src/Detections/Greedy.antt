-- ===== src/Detections/Greedy.antt =====
-- What the loops of nms do to the matrix and to the flags.
pub mod Pick
pub mod Sound
use neoruntime_sdks.Base.{
  ℕ, zero, suc, ◌+◌, ◌≤◌, ◌<◌, ◌≡◌, refl, inl, inr, ◌⊎◌, List, [], ◌∷◌, Option, none, some, Bool,
  true, false, not, ◌&&◌, ◌||◌, min, max, leb, ltb, ◌==◌, if◌then◌else◌, length, get_or, arith,
  tests, Bool-cases,
}
use neoruntime_sdks.Base.Double.{Double}
use neoruntime_sdks.Detections.{
  Float, Box, Matrix, store, overlap_at, fill_row, fill, clear_row, clear_classes, exceeds,
  set_flag, suppress,
}

-- The entries that are final once the loops have come to row `i` and column `j`.
abbrev Final : ℕ → ℕ → ℕ → ℕ → Type 0
Final i j a b = (min a b < i) ⊎ (((min a b ≡ i) × (max a b < j)) ⊎ (a ≡ b))

-- What is stored for a pair, the smaller index first.
abbrev pub by_pair {ℓ} : {A : Type ℓ} → A → (ℕ → ℕ → A) → ℕ → ℕ → A
by_pair z v a b = if a == b then z else v (min a b) (max a b)

min_max_lt : (i j : ℕ) → i < j → (min i j ≡ i) × ((max i j ≡ j) × ((min j i ≡ i) × (max j i ≡ j)))
min_max_lt i j h = (omega arith, (omega arith, (omega arith, omega arith)))

row_end : (n i j a b : ℕ) → n ≤ j → a < n → b < n → Final (i + 1) (i + 2) a b → Final i j a b
row_end n i j a b h ha hb f = ground arith

only_diagonal : (a b : ℕ) → Final 0 1 a b → a ≡ b
only_diagonal a b f = ground arith

module _ {A : Type 0} (z : A) (v : ℕ → ℕ → A) (n : ℕ) where
  abbrev Filled : ℕ → ℕ → (ℕ → ℕ → A) → Type 0
  Filled i j m = (a b : ℕ) → a < n → b < n → Final i j a b → m a b ≡ by_pair z v a b

  store-Filled :
      (i j : ℕ) (m : ℕ → ℕ → A)
      → i < j
      → Filled i j m
      → Filled i (j + 1) (store (store m i j (v i j)) j i (v i j))
  store-Filled i j m h k a b ha hb f = grind (arith, k a b ha hb, min_max_lt i j h)

module _ (d : Double) (fl : Float d) where
  clear_row_value :
      (ids : List ℕ) (i j k : ℕ) (m : Matrix fl.F) (a b : ℕ)
      → clear_row d fl ids i j k m a b ≡ (
          if (a == i) && (leb j b && (ltb b (j + k) && not (get_or ids a 0 == get_or ids b 0)))
          then fl.literal 0
          else m a b)
  unfolding clear_row
  clear_row_value ids i j zero m a b = ground arith
  clear_row_value ids i j (suc k) m a b = elim (Bool-cases (get_or ids i 0 == get_or ids j 0)) [
    | inl e ↦ rw e (ground (arith, e, clear_row_value ids i (j + 1) k m a b))
    | inr e ↦
        rw e (ground (arith, e, clear_row_value ids i (j + 1) k (store m i j (fl.literal 0)) a b))
  ]

  pub suppress_value :
      (t : d.D) (row : ℕ → fl.F) (j k : ℕ) (flags : ℕ → Bool) (a : ℕ)
      → suppress d fl t row j k flags a
        ≡ flags a || (leb j a && (ltb a (j + k) && exceeds d fl t (row a)))
  unfolding suppress
  suppress_value t row j zero flags a = ground arith
  suppress_value t row j (suc k) flags a = elim (Bool-cases (exceeds d fl t (row j))) [
    | inl e ↦ rw e (ground (arith, e, suppress_value t row (j + 1) k (set_flag flags j) a))
    | inr e ↦ rw e (ground (arith, e, suppress_value t row (j + 1) k flags a))
  ]

  module _ (boxes : List (Box fl.F)) (n : ℕ) where
    fill_row-Filled :
        (i j k : ℕ) (m : Matrix fl.F)
        → i < j
        → Filled (fl.literal 0) (overlap_at d fl boxes) n i j m
        → Filled (fl.literal 0) (overlap_at d fl boxes) n i (j + k) (fill_row d fl boxes i j k m)
    unfolding fill_row
    fill_row-Filled i j zero m h p = let e : j + 0 ≡ j = omega arith in rw e p
    fill_row-Filled i j (suc k) m h p =
        let e : j + suc k ≡ j + 1 + k = omega arith in
        let v = overlap_at d fl boxes i j in
        rw e (
          fill_row-Filled i (j + 1) k (store (store m i j v) j i v) (omega arith)
            (store-Filled (fl.literal 0) (overlap_at d fl boxes) n i j m h p))

    -- A row that is done.
    row_done :
        (i j : ℕ) (m : Matrix fl.F)
        → n ≤ j
        → Filled (fl.literal 0) (overlap_at d fl boxes) n i j m
        → Filled (fl.literal 0) (overlap_at d fl boxes) n (i + 1) (i + 2) m
    row_done i j m h p a b ha hb f = p a b ha hb (row_end n i j a b h ha hb f)

    fill-Filled :
        (i k : ℕ) (m : Matrix fl.F)
        → i + k ≡ n
        → Filled (fl.literal 0) (overlap_at d fl boxes) n i (i + 1) m
        → (a b : ℕ) → a < n
        → b < n
        → fill d fl boxes i k m a b ≡ by_pair (fl.literal 0) (overlap_at d fl boxes) a b
    unfolding fill
    fill-Filled i zero m h p a b ha hb = p a b ha hb (inl (omega arith))
    fill-Filled i (suc k) m h p a b ha hb =
        let m' = fill_row d fl boxes i (i + 1) k m in
        let e : i + 1 + 1 ≡ i + 2 = omega arith in
        fill-Filled (i + 1) k m' (omega arith)
          (rw e (
            row_done i (i + 1 + k) m' (omega arith)
              (fill_row-Filled i (i + 1) k m (omega arith) p)))
          a b ha hb

    -- The matrix of nms holds the overlap of each pair.
    pub fill_value :
        (a b : ℕ)
        → a < n
        → b < n
        → fill d fl boxes 0 n (λ i j. fl.literal 0) a b
          ≡ by_pair (fl.literal 0) (overlap_at d fl boxes) a b
    fill_value a b ha hb =
        fill-Filled 0 n (λ i j. fl.literal 0) (omega arith)
          (λ a' b' ha' hb' f. grind (arith, only_diagonal a' b' f)) a b ha hb

  clear_classes_value :
      (ids : List ℕ) (n i k : ℕ) (m : Matrix fl.F) (a b : ℕ)
      → clear_classes d fl ids n i k m a b ≡ (
          if leb i a && (ltb a (i + k) && (ltb b n && not (get_or ids a 0 == get_or ids b 0)))
          then fl.literal 0
          else m a b)
  unfolding clear_classes
  clear_classes_value ids n i zero m a b = ground arith
  clear_classes_value ids n i (suc k) m a b = ground (
    arith,
    clear_classes_value ids n (i + 1) k (clear_row d fl ids i 0 n m) a b,
    clear_row_value ids i 0 n m a b,
  )

  -- After the second pair of loops, boxes of different classes have no overlap.
  pub cleared_value :
      (ids : List ℕ) (n : ℕ) (m : Matrix fl.F) (a b : ℕ)
      → a < n
      → b < n
      → clear_classes d fl ids n 0 n m a b
        ≡ (if get_or ids a 0 == get_or ids b 0 then m a b else fl.literal 0)
  cleared_value ids n m a b ha hb = ground (arith, clear_classes_value ids n 0 n m a b)
