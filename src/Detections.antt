-- ===== src/Detections.antt =====
-- cpp/src/postprocess.cpp: nms. Floats and doubles are a parameter; a matrix is a function of its
-- row and column, and a vector that is only read at its indices is one of the index.
pub mod Heads
pub mod Order
pub mod Greedy
mod Tests
use neoruntime_sdks.Base.{
  ℕ, zero, suc, ◌+◌, ◌-◌, List, [], ◌∷◌, Option, none, some, Bool, true, false, not, ◌&&◌, ◌||◌,
  ltb, ◌==◌, if◌then◌else◌, length, get_or, Result, ok, err, ◌>>=◌, ◌>>◌, throw_if,
}
use neoruntime_sdks.Base.Double.{Double}

-- `float` beside `double`: the operations that the code uses, and the conversions.
pub record Float (d : Double) : Type 1 where
  pub F : Type 0
  pub add : F → F → F
  pub sub : F → F → F
  pub mul : F → F → F
  pub div : F → F → F
  pub lt : F → F → Bool
  -- The literals 0.0f, 2.0f and so on.
  pub literal : ℕ → F
  pub widen : F → d.D
  pub narrow : d.D → F

pub data NmsError (D : Type 0) : Type 0 where
  scores_mismatch class_ids_mismatch : ℕ → ℕ → NmsError D
  iou_threshold_range : D → NmsError D

-- Corners x1, y1, x2, y2.
pub record Box (F : Type 0) : Type 0 where
  pub x1 : F
  pub y1 : F
  pub x2 : F
  pub y2 : F

abbrev pub Matrix : Type 0 → Type 0
Matrix F = ℕ → ℕ → F

abbrev pub store {ℓ} : {A : Type ℓ} → (ℕ → ℕ → A) → ℕ → ℕ → A → ℕ → ℕ → A
store m i j v a b = if (a == i) && (b == j) then v else m a b

-- std::iota from i on, with the indices left.
abbrev pub indices : ℕ → ℕ → List ℕ
indices i zero = []
indices i (suc k) = i ∷ indices (i + 1) k

abbrev pub insert_sorted : (ℕ → ℕ → Bool) → ℕ → List ℕ → List ℕ
insert_sorted before x [] = x ∷ []
insert_sorted before x (y ∷ ys) =
    let rest = insert_sorted before x ys in if before y x then y ∷ rest else x ∷ (y ∷ ys)

-- std::stable_sort: what is not before another keeps its place after it. Where `before` is not an
-- order, as with scores that are NaN, the code's behaviour is undefined.
abbrev pub stable_sort : (ℕ → ℕ → Bool) → List ℕ → List ℕ
stable_sort before [] = []
stable_sort before (x ∷ xs) = insert_sorted before x (stable_sort before xs)

abbrev pub set_flag : (ℕ → Bool) → ℕ → ℕ → Bool
set_flag flags i a = if a == i then true else flags a

module _ (d : Double) (fl : Float d) where
  -- std::max and std::min.
  abbrev pub fmax : fl.F → fl.F → fl.F
  fmax a b = if fl.lt a b then b else a

  abbrev pub fmin : fl.F → fl.F → fl.F
  fmin a b = if fl.lt b a then b else a

  unfoldable pub area : Box fl.F → fl.F
  area b = fl.mul (fmax (fl.sub b.x2 b.x1) (fl.literal 0)) (fmax (fl.sub b.y2 b.y1) (fl.literal 0))

  -- The overlap of two boxes as the inner loop computes it.
  unfoldable pub overlap : Box fl.F → Box fl.F → fl.F
  unfolding area
  overlap a b =
      let iw = fl.sub (fmin a.x2 b.x2) (fmax a.x1 b.x1) in
      let ih = fl.sub (fmin a.y2 b.y2) (fmax a.y1 b.y1) in
      let inter = fl.mul (fmax iw (fl.literal 0)) (fmax ih (fl.literal 0)) in
      let joined = fl.sub (fl.add (area a) (area b)) inter in
      if fl.lt (fl.literal 0) joined then fl.div inter joined else fl.literal 0

  abbrev pub origin_box : Box fl.F
  origin_box = record { x1 = fl.literal 0; y1 = fl.literal 0; x2 = fl.literal 0; y2 = fl.literal 0 }

  abbrev pub overlap_at : List (Box fl.F) → ℕ → ℕ → fl.F
  overlap_at boxes i j = overlap (get_or boxes i origin_box) (get_or boxes j origin_box)

  -- The loop over j for row i, with the columns left.
  unfoldable pub fill_row : List (Box fl.F) → ℕ → ℕ → ℕ → Matrix fl.F → Matrix fl.F
  fill_row boxes i j zero iou = iou
  fill_row boxes i j (suc k) iou =
      let v = overlap_at boxes i j in fill_row boxes i (j + 1) k (store (store iou i j v) j i v)

  -- The loop over i, with the rows left.
  unfoldable pub fill : List (Box fl.F) → ℕ → ℕ → Matrix fl.F → Matrix fl.F
  unfolding fill_row
  fill boxes i zero iou = iou
  fill boxes i (suc k) iou = fill boxes (i + 1) k (fill_row boxes i (i + 1) k iou)

  unfoldable pub clear_row : List ℕ → ℕ → ℕ → ℕ → Matrix fl.F → Matrix fl.F
  clear_row ids i j zero iou = iou
  clear_row ids i j (suc k) iou =
      clear_row ids i (j + 1) k
        (if get_or ids i 0 == get_or ids j 0 then iou else store iou i j (fl.literal 0))

  -- Boxes of different classes get no overlap: the loops over all rows and columns.
  unfoldable pub clear_classes : List ℕ → ℕ → ℕ → ℕ → Matrix fl.F → Matrix fl.F
  unfolding clear_row
  clear_classes ids n i zero iou = iou
  clear_classes ids n i (suc k) iou = clear_classes ids n (i + 1) k (clear_row ids i 0 n iou)

  abbrev pub cleared : Option (List ℕ) → ℕ → Matrix fl.F → Result (NmsError d.D) (Matrix fl.F)
  cleared none n iou = ok iou
  cleared (some ids) n iou =
      if length ids == n
      then ok (clear_classes ids n 0 n iou)
      else err (class_ids_mismatch (length ids) n)

  abbrev pub higher : List fl.F → ℕ → ℕ → Bool
  higher scores a b = fl.lt (get_or scores b (fl.literal 0)) (get_or scores a (fl.literal 0))

  -- `row[j] > iou_threshold`
  abbrev pub exceeds : d.D → fl.F → Bool
  exceeds threshold v = d.lt threshold (fl.widen v)

  -- The loop over j that suppresses what overlaps the row's box, with the columns left.
  unfoldable pub suppress : d.D → (ℕ → fl.F) → ℕ → ℕ → (ℕ → Bool) → ℕ → Bool
  suppress threshold row j zero flags = flags
  suppress threshold row j (suc k) flags =
      suppress threshold row (j + 1) k
        (if exceeds threshold (row j) then set_flag flags j else flags)

  unfoldable pub greedy : d.D → Matrix fl.F → ℕ → (ℕ → Bool) → List ℕ → List ℕ
  unfolding suppress
  greedy threshold iou n flags [] = []
  greedy threshold iou n flags (idx ∷ order) =
      let skipped = greedy threshold iou n flags order in
      let taken =
        idx
        ∷ greedy threshold iou n (set_flag (suppress threshold (iou idx) 0 n flags) idx) order in
      if flags idx then skipped else taken

  abbrev pub in_unit : d.D → Bool
  in_unit t = d.le (d.decimal 0 0) t && d.le t (d.decimal 1 0)

  abbrev pub score_order : List fl.F → ℕ → List ℕ
  score_order scores n = stable_sort (higher scores) (indices 0 n)

  abbrev pub nms_checked :
      List (Box fl.F) → List fl.F → d.D → Option (List ℕ) → Result (NmsError d.D) (List ℕ)
  nms_checked boxes scores threshold class_ids = do
    let n = length boxes
    throw_if (not (in_unit threshold)) (iou_threshold_range threshold)
    iou ← cleared class_ids n (fill boxes 0 n (λ a b. fl.literal 0))
    ok (greedy threshold iou n (λ i. false) (score_order scores n))

  unfoldable pub nms :
      List (Box fl.F) → List fl.F → d.D → Option (List ℕ) → Result (NmsError d.D) (List ℕ)
  unfolding fill clear_classes greedy
  nms boxes scores threshold class_ids = do
    throw_if (not (length boxes == length scores)) (scores_mismatch (length boxes) (length scores))
    if length boxes == 0 then ok [] else nms_checked boxes scores threshold class_ids
