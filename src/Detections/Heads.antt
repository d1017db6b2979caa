-- ===== src/Detections/Heads.antt =====
-- cpp/src/postprocess.cpp: the decoders of YOLO heads, on top of nms, with PreprocessMeta of
-- cpp/src/preprocess.cpp. A tensor is its shape, its channels and its elements in row-major order.
pub mod Yolo
pub mod Layout
use Prim.Native.String.{String}
use neoruntime_sdks.Base.{
  ℕ, zero, suc, ◌+◌, ◌-◌, ◌*◌, List, [], ◌∷◌, ◌++◌, Option, none, some, Bool, true, false, not,
  ◌&&◌, ◌||◌, ltb, leb, ◌==◌, if◌then◌else◌, length, get_elem?, get_or, Result, ok, err, ◌>>=◌,
  ◌>>◌, throw_if,
}
use neoruntime_sdks.Base.Double.{Double}
use neoruntime_sdks.Base.Int.{ℤ}
use neoruntime_sdks.Detections.{Float, Box, NmsError, nms, origin_box}

pub data HeadError (D : Type 0) : Type 0 where
  nms_refused : NmsError D → HeadError D
  not_a_matrix : List ℕ → HeadError D
  too_few_channels too_few_columns not_float : ℕ → HeadError D

-- The depth of a Mat: 32-bit floats, 64-bit floats, or another.
pub data Elements (F D : Type 0) : Type 0 where
  floats : (ℕ → F) → Elements F D
  doubles : (ℕ → D) → Elements F D
  others : ℕ → Elements F D

pub record Tensor (F D : Type 0) : Type 0 where
  pub shape : List ℕ
  pub channels : ℕ
  pub elements : Elements F D

pub record PreprocessMeta (D : Type 0) : Type 0 where
  pub original_size : ℤ × ℤ
  pub scale : D × D
  pub origin : ℤ × ℤ

pub data Label : Type 0 where
  named : String → Label
  numbered : ℕ → Label

pub record DetectedObject (F : Type 0) : Type 0 where
  pub label : Label
  pub score : F
  pub x : F
  pub y : F
  pub width : F
  pub height : F
  pub class_id : ℕ

pub record YoloPostprocessorBase (D : Type 0) : Type 0 where
  pub labels : List String
  pub score_threshold : D
  pub iou_threshold : D
  pub clip : Bool

pub record Corners (D : Type 0) : Type 0 where
  pub left : D
  pub top : D
  pub right : D
  pub bottom : D

-- One anchor: its box, the score of its best class, and that class.
pub record Candidate (F : Type 0) : Type 0 where
  pub box : Box F
  pub score : F
  pub class_id : ℕ

abbrev pub product : List ℕ → ℕ
product [] = 1
product (x ∷ xs) = x * product xs

-- squeeze_batch: one step leaves two dimensions.
unfoldable pub squeeze_batch : List ℕ → List ℕ
squeeze_batch (b ∷ (r ∷ (c ∷ cs))) =
    if b == 1 then r ∷ (product (c ∷ cs) ∷ []) else b ∷ (r ∷ (c ∷ cs))
squeeze_batch shape = shape

module _ (d : Double) (fl : Float d) where
  -- at_f, over the elements of a matrix.
  abbrev pub at_f : Elements fl.F d.D → Result (HeadError d.D) (ℕ → fl.F)
  at_f (floats e) = ok e
  at_f (doubles e) = ok (λ k. fl.narrow (e k))
  at_f (others depth) = err (not_float depth)

  abbrev pub label_for : List String → ℕ → Label
  label_for labels class_id = elim (get_elem? labels class_id) [
    | some s ↦ named s
    | none ↦ numbered class_id
  ]

  -- to_source and to_source_box
  abbrev pub to_source : PreprocessMeta d.D → d.D → d.D → d.D × d.D
  to_source m x y =
      (d.div (d.sub x (d.of_ℤ m.origin.0)) m.scale.0, d.div (d.sub y (d.of_ℤ m.origin.1)) m.scale.1)

  unfoldable pub to_source_box : PreprocessMeta d.D → Corners d.D → Corners d.D
  to_source_box m b =
      let (x1, y1) = to_source m b.left b.top in
      let (x2, y2) = to_source m b.right b.bottom in
      record { left = x1; top = y1; right = x2; bottom = y2 }

  -- std::max(0.0, x) and std::min(limit, x)
  abbrev pub at_least_zero : d.D → d.D
  at_least_zero x = if d.lt (d.decimal 0 0) x then x else d.decimal 0 0

  abbrev pub at_most : d.D → d.D → d.D
  at_most limit x = if d.lt x limit then x else limit

  unfoldable pub clip_box : PreprocessMeta d.D → Corners d.D → Corners d.D
  clip_box m b = record {
    left = at_least_zero b.left;
    top = at_least_zero b.top;
    right = at_most (d.of_ℤ m.original_size.0) b.right;
    bottom = at_most (d.of_ℤ m.original_size.1) b.bottom;
  }

  abbrev pub is_flat : Corners d.D → Bool
  is_flat b =
      d.le (d.sub b.right b.left) (d.decimal 0 0) || d.le (d.sub b.bottom b.top) (d.decimal 0 0)

  -- The corners in the source frame; none for a box that lies in the padding.
  unfoldable pub placed : Bool → Option (PreprocessMeta d.D) → Corners d.D → Option (Corners d.D)
  unfolding to_source_box clip_box
  placed clip none b = some b
  placed clip (some m) b =
      let mapped = to_source_box m b in
      let clipped = clip_box m mapped in
      if clip then if is_flat clipped then none else some clipped else some mapped

  abbrev pub widened : Box fl.F → Corners d.D
  widened b = record {
    left = fl.widen b.x1;
    top = fl.widen b.y1;
    right = fl.widen b.x2;
    bottom = fl.widen b.y2;
  }

  abbrev pub no_candidate : Candidate fl.F
  no_candidate = record { box = origin_box d fl; score = fl.literal 0; class_id = 0 }

  abbrev pub object_at :
      YoloPostprocessorBase d.D → Candidate fl.F → Corners d.D → DetectedObject fl.F
  object_at p c b = record {
    label = label_for p.labels c.class_id;
    score = c.score;
    x = fl.narrow b.left;
    y = fl.narrow b.top;
    width = fl.narrow (d.sub b.right b.left);
    height = fl.narrow (d.sub b.bottom b.top);
    class_id = c.class_id;
  }

  -- The loop over the indices that nms returns.
  unfoldable pub objects_of :
      YoloPostprocessorBase d.D
      → Option (PreprocessMeta d.D)
      → List (Candidate fl.F)
      → List ℕ
      → List (DetectedObject fl.F)
  unfolding placed
  objects_of p meta kept [] = []
  objects_of p meta kept (i ∷ is) =
      let c = get_or kept i no_candidate in
      let rest = objects_of p meta kept is in
      elim (placed p.clip meta (widened c.box)) [ none ↦ rest | some b ↦ object_at p c b ∷ rest ]

  -- The loop that drops what scores too low.
  unfoldable pub confident : d.D → List (Candidate fl.F) → List (Candidate fl.F)
  confident threshold [] = []
  confident threshold (c ∷ cs) =
      let rest = confident threshold cs in
      if d.le threshold (fl.widen c.score) then c ∷ rest else rest

  abbrev pub boxes_of : List (Candidate fl.F) → List (Box fl.F)
  boxes_of [] = []
  boxes_of (c ∷ cs) = c.box ∷ boxes_of cs

  abbrev pub scores_of : List (Candidate fl.F) → List fl.F
  scores_of [] = []
  scores_of (c ∷ cs) = c.score ∷ scores_of cs

  abbrev pub classes_of : List (Candidate fl.F) → List ℕ
  classes_of [] = []
  classes_of (c ∷ cs) = c.class_id ∷ classes_of cs

  abbrev pub Objects : Type 0
  Objects = Result (HeadError d.D) (List (DetectedObject fl.F))

  abbrev pub after_nms :
      YoloPostprocessorBase d.D
      → Option (PreprocessMeta d.D)
      → List (Candidate fl.F)
      → Result (NmsError d.D) (List ℕ)
      → Objects
  after_nms p meta kept (err e) = err (nms_refused e)
  after_nms p meta kept (ok order) = ok (objects_of p meta kept order)

  unfoldable pub finish :
      YoloPostprocessorBase d.D → List (Candidate fl.F) → Option (PreprocessMeta d.D) → Objects
  unfolding confident objects_of nms
  finish p candidates meta =
      let kept = confident p.score_threshold candidates in
      after_nms p meta kept
        (nms d fl (boxes_of kept) (scores_of kept) p.iou_threshold (some (classes_of kept)))
