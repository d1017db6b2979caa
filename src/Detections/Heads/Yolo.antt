-- ===== src/Detections/Heads/Yolo.antt =====
-- cpp/src/postprocess.cpp: YoloV8Postprocessor and YoloV5Postprocessor.
use neoruntime_sdks.Base.{
  ℕ, zero, suc, ◌+◌, ◌-◌, ◌*◌, List, [], ◌∷◌, Option, none, some, ◌||◌, ltb, leb, ◌==◌,
  if◌then◌else◌, Result, ok, err, ◌>>=◌, ◌>>◌, throw_if,
}
use neoruntime_sdks.Base.Double.{Double}
use neoruntime_sdks.Detections.{Float, Box}
use neoruntime_sdks.Detections.Heads.{
  HeadError, not_a_matrix, too_few_channels, too_few_columns, Elements, Tensor, PreprocessMeta,
  YoloPostprocessorBase, Candidate, squeeze_batch, at_f, Objects, finish,
}

-- The rows and columns of a head, which has one channel.
abbrev pub as_matrix : {D : Type 0} → List ℕ → ℕ → Result (HeadError D) (ℕ × ℕ)
as_matrix (r ∷ (c ∷ [])) channels =
    if ltb 1 channels then err (not_a_matrix (r ∷ (c ∷ []))) else ok (r, c)
as_matrix shape channels = err (not_a_matrix shape)

module _ (d : Double) (fl : Float d) where
  -- The loop over the classes from class `c` on, with the classes left.
  unfoldable pub best_class : (ℕ → fl.F) → ℕ → ℕ → ℕ → fl.F → ℕ × fl.F
  best_class score c zero best best_score = (best, best_score)
  best_class score c (suc k) best best_score =
      let better = best_class score (c + 1) k c (score c) in
      let same = best_class score (c + 1) k best best_score in
      if fl.lt best_score (score c) then better else same

  unfoldable pub corners : fl.F → fl.F → fl.F → fl.F → Box fl.F
  corners cx cy w h = record {
    x1 = fl.sub cx (fl.div w (fl.literal 2));
    y1 = fl.sub cy (fl.div h (fl.literal 2));
    x2 = fl.add cx (fl.div w (fl.literal 2));
    y2 = fl.add cy (fl.div h (fl.literal 2));
  }

  -- Anchor `i` of a head whose rows are channels: `nc` classes from row 4 on.
  unfoldable pub candidate_v8 : (ℕ → ℕ → fl.F) → ℕ → ℕ → Candidate fl.F
  unfolding best_class corners
  candidate_v8 arr nc i =
      let (best, best_score) = best_class (λ c. arr (4 + c) i) 1 (nc - 1) 0 (arr 4 i) in
      record {
        box = corners (arr 0 i) (arr 1 i) (arr 2 i) (arr 3 i);
        score = best_score;
        class_id = best;
      }

  -- Anchor `i` of a head whose columns are channels: the score is weighed by the objectness.
  unfoldable pub candidate_v5 : (ℕ → ℕ → fl.F) → ℕ → ℕ → Candidate fl.F
  unfolding best_class corners
  candidate_v5 arr nc i =
      let (best, best_score) = best_class (λ c. arr i (5 + c)) 1 (nc - 1) 0 (arr i 5) in
      record {
        box = corners (arr i 0) (arr i 1) (arr i 2) (arr i 3);
        score = fl.mul (arr i 4) best_score;
        class_id = best;
      }

  -- The loop over the anchors from `i` on, with the anchors left.
  abbrev pub candidates : (ℕ → Candidate fl.F) → ℕ → ℕ → List (Candidate fl.F)
  candidates f i zero = []
  candidates f i (suc k) = f i ∷ candidates f (i + 1) k

  -- Element (r, c) of a matrix with `cols` columns, and of its transpose.
  abbrev pub cell : (ℕ → fl.F) → ℕ → ℕ → ℕ → fl.F
  cell e cols r c = e (r * cols + c)

  abbrev pub flipped : (ℕ → fl.F) → ℕ → ℕ → ℕ → fl.F
  flipped e cols r c = e (c * cols + r)

  module _ (p : YoloPostprocessorBase d.D) (meta : Option (PreprocessMeta d.D)) where
    -- A head of `channels` rows and `n` columns, whose elements are read only if there are any.
    unfoldable pub decode_v8 : ℕ → ℕ → Result (HeadError d.D) (ℕ → ℕ → fl.F) → Objects d fl
    unfolding candidate_v8 finish
    decode_v8 channels n arr =
        let decoded = (do
          throw_if (leb channels 4) (too_few_channels channels)
          a ← arr
          finish d fl p (candidates (candidate_v8 a (channels - 4)) 0 n) meta) in
        if (channels == 0) || (n == 0) then ok [] else decoded

    abbrev pub head_v8 : Elements fl.F d.D → ℕ × ℕ → Objects d fl
    head_v8 els (rows, cols) =
        if ltb cols rows
        then decode_v8 cols rows (at_f d fl els >>= λ e. ok (flipped e cols))
        else decode_v8 rows cols (at_f d fl els >>= λ e. ok (cell e cols))

    unfoldable pub yolo_v8 : Option (List (Tensor fl.F d.D)) → Objects d fl
    unfolding squeeze_batch decode_v8
    yolo_v8 none = ok []
    yolo_v8 (some []) = ok []
    yolo_v8 (some (t ∷ ts)) = as_matrix (squeeze_batch t.shape) t.channels >>= head_v8 t.elements

    -- A head of `n` rows and `cols` columns.
    unfoldable pub decode_v5 : ℕ → ℕ → Result (HeadError d.D) (ℕ → ℕ → fl.F) → Objects d fl
    unfolding candidate_v5 finish
    decode_v5 n cols arr =
        let decoded = (do
          throw_if (ltb cols 6) (too_few_columns cols)
          a ← arr
          finish d fl p (candidates (candidate_v5 a (cols - 5)) 0 n) meta) in
        if (n == 0) || (cols == 0) then ok [] else decoded

    abbrev pub head_v5 : Elements fl.F d.D → ℕ × ℕ → Objects d fl
    head_v5 els (rows, cols) =
        if ltb rows cols
        then decode_v5 cols rows (at_f d fl els >>= λ e. ok (flipped e cols))
        else decode_v5 rows cols (at_f d fl els >>= λ e. ok (cell e cols))

    unfoldable pub yolo_v5 : Option (List (Tensor fl.F d.D)) → Objects d fl
    unfolding squeeze_batch decode_v5
    yolo_v5 none = ok []
    yolo_v5 (some []) = ok []
    yolo_v5 (some (t ∷ ts)) = as_matrix (squeeze_batch t.shape) t.channels >>= head_v5 t.elements
