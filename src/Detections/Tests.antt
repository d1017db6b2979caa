-- ===== src/Detections/Tests.antt =====
-- Boxes of whole numbers, with overlaps in percent, and the theorems about nms and the decoders.
use neoruntime_sdks.Base.{
  ℕ, ◌+◌, ◌-◌, ◌*◌, ◌/◌, ◌%◌, ◌^◌, ◌≡◌, refl, List, [], ◌∷◌, none, some, true, ltb, leb, ◌==◌,
  arith, ok,
}
use neoruntime_sdks.Base.Double.{Double}
use neoruntime_sdks.Base.Int.{pos, pos_part}
use neoruntime_sdks.Detections.{Float, Box, overlap, nms}
use neoruntime_sdks.Detections.Greedy.Pick.{nms_reference, nms-nms_reference}
use neoruntime_sdks.Detections.Greedy.Sound.{Suppressed, nms-Suppressed}
use neoruntime_sdks.Detections.Heads.{YoloPostprocessorBase, PreprocessMeta}
use neoruntime_sdks.Detections.Heads.Yolo.{yolo_v8, yolo_v5}
use neoruntime_sdks.Detections.Heads.Layout.{batch_of, yolo_layouts}

-- Numbers counted in hundredths where they are quotients of two areas or literals with decimals.
abbrev percent : Double
percent = record {
  D = ℕ;
  eq = ◌==◌;
  lt = ltb;
  le = leb;
  add = ◌+◌;
  sub = ◌-◌;
  mul = ◌*◌;
  div = ◌/◌;
  of_ℤ = pos_part;
  decimal = λ n k. n * 100 / 10 ^ k;
}

abbrev percent_float : Float percent
percent_float = record {
  F = ℕ;
  add = ◌+◌;
  sub = ◌-◌;
  mul = ◌*◌;
  div = λ a b. a * 100 / b;
  lt = ltb;
  literal = λ n. n;
  widen = λ a. a;
  narrow = λ a. a;
}

abbrev box : ℕ → ℕ → ℕ → ℕ → Box ℕ
box a b c d = record { x1 = a; y1 = b; x2 = c; y2 = d }

-- Two boxes that overlap by 81 in 119, one apart, and one of another class on the first.
abbrev four : List (Box ℕ)
four = box 0 0 10 10 ∷ box 1 1 11 11 ∷ box 50 50 60 60 ∷ box 0 0 10 10 ∷ []

abbrev scores_four : List ℕ
scores_four = 70 ∷ 90 ∷ 60 ∷ 80 ∷ []

three_kept :
    nms percent percent_float four scores_four 50 (some (1 ∷ 1 ∷ 1 ∷ 2 ∷ [])) ≡ ok (1 ∷ 3 ∷ 2 ∷ [])
unfolding nms overlap
three_kept = refl

nms-nms_reference_example :
    nms percent percent_float four scores_four 50 (some (1 ∷ 1 ∷ 1 ∷ 2 ∷ []))
    ≡ nms_reference percent percent_float four scores_four 50 (some (1 ∷ 1 ∷ 1 ∷ 2 ∷ []))
nms-nms_reference_example =
    nms-nms_reference percent percent_float four scores_four 50 (some (1 ∷ 1 ∷ 1 ∷ 2 ∷ []))

nms-Suppressed_example :
    Suppressed percent percent_float four 50 none
      (nms percent percent_float four scores_four 50 none)
nms-Suppressed_example = nms-Suppressed percent percent_float four scores_four 50 none

abbrev yolo : YoloPostprocessorBase ℕ
yolo = record {
  labels = "person" ∷ "car" ∷ [];
  score_threshold = 25;
  iou_threshold = 45;
  clip = true;
}

abbrev meta : PreprocessMeta ℕ
meta = record { original_size = (pos 100, pos 100); scale = (1, 1); origin = (pos 0, pos 0) }

-- Six channels by seven anchors: element (r, c) is 10 * r + c, and the transpose.
abbrev head : ℕ → ℕ
head k = 10 * (k / 7) + k % 7

abbrev head_transposed : ℕ → ℕ
head_transposed k = 10 * (k % 6) + k / 6

yolo_layouts_example :
    (yolo_v8 percent percent_float yolo (some meta) (batch_of percent percent_float 6 7 head)
      ≡ yolo_v8 percent percent_float yolo
          (some meta)
          (batch_of percent percent_float 7 6 head_transposed))
    × (yolo_v5 percent percent_float yolo (some meta) (batch_of percent percent_float 6 7 head)
        ≡ yolo_v5 percent percent_float yolo
            (some meta)
            (batch_of percent percent_float 7 6 head_transposed))
yolo_layouts_example =
    yolo_layouts percent percent_float yolo (some meta) 6 7 head head_transposed (omega arith)
      (λ r c l k. omega arith)
