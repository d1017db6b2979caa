-- ===== src/Detections/Order.antt =====
-- The order in which nms takes the boxes: each index once.
use neoruntime_sdks.Base.{
  ℕ, zero, suc, ◌+◌, ◌≤◌, ◌<◌, ◌≢◌, sym, inl, inr, List, [], ◌∷◌, Bool, arith, Bool-cases,
}
use neoruntime_sdks.Detections.{indices, insert_sorted, stable_sort}

abbrev pub AllBelow : ℕ → List ℕ → Type 0
AllBelow n [] = Unit
AllBelow n (x ∷ xs) = (x < n) × AllBelow n xs

abbrev pub Absent : ℕ → List ℕ → Type 0
Absent x [] = Unit
Absent x (y ∷ ys) = (x ≢ y) × Absent x ys

abbrev pub Distinct : List ℕ → Type 0
Distinct [] = Unit
Distinct (x ∷ xs) = Absent x xs × Distinct xs

module _ (before : ℕ → ℕ → Bool) where
  insert_sorted-AllBelow :
      (n x : ℕ) (ys : List ℕ) → x < n → AllBelow n ys → AllBelow n (insert_sorted before x ys)
  insert_sorted-AllBelow n x [] h p = (h, tt)
  insert_sorted-AllBelow n x (y ∷ ys) h (q, p) = elim (Bool-cases (before y x)) [
    | inl e ↦ rw e (q, insert_sorted-AllBelow n x ys h p)
    | inr e ↦ rw e (h, (q, p))
  ]

  insert_sorted-Absent :
      (z x : ℕ) (ys : List ℕ) → z ≢ x → Absent z ys → Absent z (insert_sorted before x ys)
  insert_sorted-Absent z x [] h p = (h, tt)
  insert_sorted-Absent z x (y ∷ ys) h (q, p) = elim (Bool-cases (before y x)) [
    | inl e ↦ rw e (q, insert_sorted-Absent z x ys h p)
    | inr e ↦ rw e (h, (q, p))
  ]

  insert_sorted-Distinct :
      (x : ℕ) (ys : List ℕ) → Absent x ys → Distinct ys → Distinct (insert_sorted before x ys)
  insert_sorted-Distinct x [] h p = (tt, tt)
  insert_sorted-Distinct x (y ∷ ys) (ne, h) (q, p) = elim (Bool-cases (before y x)) [
    | inl e ↦
        rw e (insert_sorted-Absent y x ys (λ r. ne (sym r)) q, insert_sorted-Distinct x ys h p)
    | inr e ↦ rw e ((ne, h), (q, p))
  ]

  stable_sort-AllBelow : (n : ℕ) (xs : List ℕ) → AllBelow n xs → AllBelow n (stable_sort before xs)
  stable_sort-AllBelow n [] p = tt
  stable_sort-AllBelow n (x ∷ xs) (h, p) =
      insert_sorted-AllBelow n x (stable_sort before xs) h (stable_sort-AllBelow n xs p)

  stable_sort-Absent : (z : ℕ) (xs : List ℕ) → Absent z xs → Absent z (stable_sort before xs)
  stable_sort-Absent z [] p = tt
  stable_sort-Absent z (x ∷ xs) (h, p) =
      insert_sorted-Absent z x (stable_sort before xs) h (stable_sort-Absent z xs p)

  stable_sort-Distinct : (xs : List ℕ) → Distinct xs → Distinct (stable_sort before xs)
  stable_sort-Distinct [] p = tt
  stable_sort-Distinct (x ∷ xs) (h, p) =
      insert_sorted-Distinct x (stable_sort before xs) (stable_sort-Absent x xs h)
        (stable_sort-Distinct xs p)

indices-AllBelow : (i k n : ℕ) → i + k ≤ n → AllBelow n (indices i k)
indices-AllBelow i zero n h = tt
indices-AllBelow i (suc k) n h = (omega arith, indices-AllBelow (i + 1) k n (omega arith))

indices-Absent : (x i k : ℕ) → x < i → Absent x (indices i k)
indices-Absent x i zero h = tt
indices-Absent x i (suc k) h = (omega arith, indices-Absent x (i + 1) k (omega arith))

indices-Distinct : (i k : ℕ) → Distinct (indices i k)
indices-Distinct i zero = tt
indices-Distinct i (suc k) = (indices-Absent i (i + 1) k (omega arith), indices-Distinct (i + 1) k)

module _ (before : ℕ → ℕ → Bool) (n : ℕ) where
  pub order-AllBelow : AllBelow n (stable_sort before (indices 0 n))
  order-AllBelow =
      stable_sort-AllBelow before n (indices 0 n) (indices-AllBelow 0 n n (omega arith))

  pub order-Distinct : Distinct (stable_sort before (indices 0 n))
  order-Distinct = stable_sort-Distinct before (indices 0 n) (indices-Distinct 0 n)
