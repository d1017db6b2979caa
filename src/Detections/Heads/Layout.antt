-- ===== src/Detections/Heads/Layout.antt =====
-- The two layouts of a head, for both YOLO decoders.
use neoruntime_sdks.Base.{
  ℕ, zero, suc, ◌+◌, ◌-◌, ◌*◌, ◌<◌, ◌≡◌, ◌≢◌, refl, sym, inl, inr, List, [], ◌∷◌, Option, some,
  true, false, ltb, leb, arith, Bool-cases, ok,
}
use neoruntime_sdks.Base.Double.{Double}
use neoruntime_sdks.Detections.{Float}
use neoruntime_sdks.Detections.Heads.{
  Tensor, floats, PreprocessMeta, YoloPostprocessorBase, Candidate, squeeze_batch,
}
use neoruntime_sdks.Detections.Heads.Yolo.{
  best_class, candidate_v8, candidate_v5, candidates, cell, flipped, decode_v8, head_v8, yolo_v8,
  decode_v5, head_v5, yolo_v5,
}

module _ (d : Double) (fl : Float d) where
  -- `e` holds a matrix of `rows` by `cols`, and `e'` its transpose.
  abbrev pub Transposed : ℕ → ℕ → (ℕ → fl.F) → (ℕ → fl.F) → Type 0
  Transposed rows cols e e' = (r c : ℕ) → r < rows → c < cols → e (r * cols + c) ≡ e' (c * rows + r)

  abbrev pub batch_of : ℕ → ℕ → (ℕ → fl.F) → Option (List (Tensor fl.F d.D))
  batch_of rows cols e =
      some (record { shape = 1 ∷ (rows ∷ (cols ∷ [])); channels = 1; elements = floats e } ∷ [])

  -- Two matrices agree inside of the head.
  abbrev Agree : ℕ → ℕ → (ℕ → ℕ → fl.F) → (ℕ → ℕ → fl.F) → Type 0
  Agree rows cols a b = (r c : ℕ) → r < rows → c < cols → a r c ≡ b r c

  best_class_agrees :
      (s s' : ℕ → fl.F) (c k best : ℕ) (v : fl.F)
      → ((x : ℕ) → x < c + k → s x ≡ s' x)
      → best_class d fl s c k best v ≡ best_class d fl s' c k best v
  unfolding best_class
  best_class_agrees s s' c zero best v h = refl
  best_class_agrees s s' c (suc k) best v h =
      let later : (x : ℕ) → x < c + 1 + k → s x ≡ s' x = λ x l. h x (omega arith) in
      let e : s c ≡ s' c = h c (omega arith) in
      elim (Bool-cases (fl.lt v (s' c))) [
        | inl t ↦ rw (e, t) (best_class_agrees s s' (c + 1) k c (s' c) later)
        | inr t ↦ rw (e, t) (best_class_agrees s s' (c + 1) k best v later)
      ]

  candidates_agree :
      (f g : ℕ → Candidate fl.F) (i k : ℕ)
      → ((x : ℕ) → x < i + k → f x ≡ g x)
      → candidates d fl f i k ≡ candidates d fl g i k
  candidates_agree f g i zero h = refl
  candidates_agree f g i (suc k) h =
      rw (h i (omega arith), candidates_agree f g (i + 1) k (λ x l. h x (omega arith))) refl

  candidate_v8_agrees :
      (a b : ℕ → ℕ → fl.F) (channels n i : ℕ)
      → 4 < channels
      → i < n
      → Agree channels n a b
      → candidate_v8 d fl a (channels - 4) i ≡ candidate_v8 d fl b (channels - 4) i
  unfolding candidate_v8
  candidate_v8_agrees a b channels n i h l g =
      rw
        (
          g 0 i (omega arith) l,
          g 1 i (omega arith) l,
          g 2 i (omega arith) l,
          g 3 i (omega arith) l,
          g 4 i (omega arith) l,
          best_class_agrees (λ c. a (4 + c) i) (λ c. b (4 + c) i) 1 (channels - 4 - 1) 0 (b 4 i)
              (λ x k. g (4 + x) i (omega arith) l),
        )
        refl

  candidate_v5_agrees :
      (a b : ℕ → ℕ → fl.F) (n cols i : ℕ)
      → 5 < cols
      → i < n
      → Agree n cols a b
      → candidate_v5 d fl a (cols - 5) i ≡ candidate_v5 d fl b (cols - 5) i
  unfolding candidate_v5
  candidate_v5_agrees a b n cols i h l g =
      rw
        (
          g i 0 l (omega arith),
          g i 1 l (omega arith),
          g i 2 l (omega arith),
          g i 3 l (omega arith),
          g i 4 l (omega arith),
          g i 5 l (omega arith),
          best_class_agrees (λ c. a i (5 + c)) (λ c. b i (5 + c)) 1 (cols - 5 - 1) 0 (b i 5)
              (λ x k. g i (5 + x) l (omega arith)),
        )
        refl

  module _ (p : YoloPostprocessorBase d.D) (meta : Option (PreprocessMeta d.D)) where
    decode_v8_agrees :
        (channels n : ℕ) (a b : ℕ → ℕ → fl.F)
        → Agree channels n a b
        → decode_v8 d fl p meta channels n (ok a) ≡ decode_v8 d fl p meta channels n (ok b)
    unfolding decode_v8
    decode_v8_agrees channels n a b g = elim (Bool-cases (leb channels 4)) [
      | inl e ↦ rw e refl
      | inr e ↦
          rw
            (candidates_agree (candidate_v8 d fl a (channels - 4))
              (candidate_v8 d fl b (channels - 4)) 0 n
              (λ i l. candidate_v8_agrees a b channels n i (ground arith) (omega arith) g))
            refl
    ]

    decode_v5_agrees :
        (n cols : ℕ) (a b : ℕ → ℕ → fl.F)
        → Agree n cols a b
        → decode_v5 d fl p meta n cols (ok a) ≡ decode_v5 d fl p meta n cols (ok b)
    unfolding decode_v5
    decode_v5_agrees n cols a b g = elim (Bool-cases (ltb cols 6)) [
      | inl e ↦ rw e refl
      | inr e ↦
          rw
            (candidates_agree (candidate_v5 d fl a (cols - 5)) (candidate_v5 d fl b (cols - 5)) 0 n
              (λ i l. candidate_v5_agrees a b n cols i (ground arith) (omega arith) g))
            refl
    ]

    head_v8_flips :
        (rows cols : ℕ) (e e' : ℕ → fl.F)
        → rows < cols
        → Transposed rows cols e e'
        → head_v8 d fl p meta (floats e) (rows, cols) ≡ head_v8 d fl p meta (floats e') (cols, rows)
    head_v8_flips rows cols e e' h t =
        let x : ltb cols rows ≡ false = ground arith in
        let y : ltb rows cols ≡ true = ground arith in
        rw (x, y) (decode_v8_agrees rows cols (cell d fl e cols) (flipped d fl e' rows) t)

    head_v5_flips :
        (rows cols : ℕ) (e e' : ℕ → fl.F)
        → rows < cols
        → Transposed rows cols e e'
        → head_v5 d fl p meta (floats e) (rows, cols) ≡ head_v5 d fl p meta (floats e') (cols, rows)
    head_v5_flips rows cols e e' h t =
        let x : ltb rows cols ≡ true = ground arith in
        let y : ltb cols rows ≡ false = ground arith in
        rw (x, y)
          (decode_v5_agrees cols rows (flipped d fl e cols) (cell d fl e' rows)
            (λ r c l k. t c r k l))

    batch_v8 :
        (rows cols : ℕ) (e : ℕ → fl.F)
        → yolo_v8 d fl p meta (batch_of rows cols e) ≡ head_v8 d fl p meta (floats e) (rows, cols)
    unfolding yolo_v8 squeeze_batch
    batch_v8 rows cols e = let one : cols * 1 ≡ cols = omega arith in rw one refl

    batch_v5 :
        (rows cols : ℕ) (e : ℕ → fl.F)
        → yolo_v5 d fl p meta (batch_of rows cols e) ≡ head_v5 d fl p meta (floats e) (rows, cols)
    unfolding yolo_v5 squeeze_batch
    batch_v5 rows cols e = let one : cols * 1 ≡ cols = omega arith in rw one refl

    -- A head of one batch and its transpose, with sides that differ, are decoded to the same objects
    -- or the same error, by the YOLOv8 decoder and by the YOLOv5 decoder.
    pub yolo_layouts :
        (rows cols : ℕ) (e e' : ℕ → fl.F)
        → rows ≢ cols
        → Transposed rows cols e e'
        → (yolo_v8 d fl p meta (batch_of rows cols e) ≡ yolo_v8 d fl p meta (batch_of cols rows e'))
          × (yolo_v5 d fl p meta (batch_of rows cols e)
              ≡ yolo_v5 d fl p meta (batch_of cols rows e'))
    yolo_layouts rows cols e e' ne t =
        rw
          (batch_v8 rows cols e, batch_v8 cols rows e', batch_v5 rows cols e, batch_v5 cols rows e')
          (elim (Bool-cases (ltb rows cols)) [
            | inl x ↦
                let h : rows < cols = ground arith in
                (head_v8_flips rows cols e e' h t, head_v5_flips rows cols e e' h t)
            | inr x ↦
                let h : cols < rows = ground arith in
                (
                  sym (head_v8_flips cols rows e' e h (λ r c l k. sym (t c r k l))),
                  sym (head_v5_flips cols rows e' e h (λ r c l k. sym (t c r k l))),
                )
          ])
