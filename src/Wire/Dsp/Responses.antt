-- ===== src/Wire/Dsp/Responses.antt =====
-- The DSP responses of detail/dsp_wire.hpp against the layout of the daemon's C structs: what the
-- SDK reads from a response.
use neoruntime_sdks.Base.{
  ℕ, zero, suc, ◌+◌, ◌*◌, ◌^◌, ◌≤◌, ◌<◌, ◌≡◌, refl, ap, ◌∙◌, List, [], ◌∷◌, ◌++◌, ltb, false,
  append_assoc, arith, length, length-append, take, min, ok,
}
use neoruntime_sdks.Base.Int.{of_u32}
use neoruntime_sdks.Wire.Words.{
  get_u32, get_i32, get_u64, u32_le, u64_le, get_u32-field, get_u64-field,
}
use neoruntime_sdks.Wire.Dsp.{
  Triple, AllocResp, parse_alloc_resp, get_ids, get_triple, parse_import_resp,
}
use neoruntime_sdks.Wire.Dsp.Layout.{get_triple-field, triple_le, FitsU32, u64s_le, AllU64}

-- The loop of parse_alloc_resp reads the ids that `count` asks for, of those that the struct holds.
get_ids-field :
    (ids : List ℕ) (left i : ℕ) (xs : List ℕ)
    → length xs ≡ 48 + 8 * i
    → AllU64 ids
    → get_ids (length ids) left i (xs ++ u64s_le ids) ≡ take left ids
unfolding get_ids
get_ids-field [] zero i xs e h = refl
get_ids-field [] (suc left) i xs e h = refl
get_ids-field (x ∷ rest) zero i xs e h = refl
get_ids-field (x ∷ rest) (suc left) i xs e h =
    let here : get_u64 (xs ++ (u64_le x ++ u64s_le rest)) (48 + 8 * i) ≡ x =
      rw (← e) (get_u64-field xs (u64s_le rest) x h.0) in
    let there : get_ids (length rest) left (i + 1) ((xs ++ u64_le x) ++ u64s_le rest)
        ≡ take left rest =
      get_ids-field rest left (i + 1) (xs ++ u64_le x) (omega (arith, length-append xs (u64_le x)))
        h.1 in
    ap (λ (l : List ℕ). get_u64 (xs ++ (u64_le x ++ u64s_le rest)) (48 + 8 * i) ∷ l)
      (rw (← append_assoc xs (u64_le x) (u64s_le rest)) there)
    ∙ ap (λ (y : ℕ). y ∷ take left rest) here

-- FD_PUB_MSG_DSP_ALLOC_RESP as the daemon packs it; `pad` fills the gap before the ids.
abbrev pub alloc_resp_layout : ℕ → ℕ → ℕ → Triple → Triple → ℕ → List ℕ → List ℕ
alloc_resp_layout code count num_planes strides sizes pad ids =
    u32_le 8
    ++ (u32_le 560
        ++ (u32_le code
            ++ (u32_le count
                ++ (u32_le num_planes
                    ++ (triple_le strides ++ (triple_le sizes ++ (u32_le pad ++ u64s_le ids)))))))

length-get_ids : (n left i : ℕ) (p : List ℕ) → length (get_ids n left i p) ≡ min left n
unfolding get_ids
length-get_ids zero left i p = omega arith
length-get_ids (suc n) zero i p = omega arith
length-get_ids (suc n) (suc left) i p = omega (arith, length-get_ids n left (i + 1) p)

parse_import_resp_reads :
    (p : List ℕ) (code i : ℕ)
    → 24 ≤ length p
    → get_u32 p 0 ≡ 11
    → get_u32 p 8 ≡ code
    → get_u64 p 16 ≡ i
    → parse_import_resp p ≡ ok (record { code = of_u32 code; import_id = i })
unfolding parse_import_resp get_i32
parse_import_resp_reads p code i l a b c = rw (long_enough, a, b, c)
  where
    long_enough : ltb (length p) 24 ≡ false
    long_enough = ground arith

length-u64s : (ids : List ℕ) → length (u64s_le ids) ≡ 8 * length ids
length-u64s [] = refl
length-u64s (x ∷ ids) = omega (arith, length-u64s ids)

-- What parse_alloc_resp returns, from what each read of it gives.
parse_alloc_resp_reads :
    (p : List ℕ) (code count num_planes : ℕ) (strides sizes : Triple) (ids : List ℕ)
    → 560 ≤ length p
    → get_u32 p 0 ≡ 8
    → get_u32 p 8 ≡ code
    → get_u32 p 12 ≡ count
    → get_u32 p 16 ≡ num_planes
    → get_triple p 20 ≡ strides
    → get_triple p 32 ≡ sizes
    → get_ids 64 count 0 p ≡ ids
    → parse_alloc_resp p
      ≡ ok (record {
        code = of_u32 code;
        count = count;
        num_planes = num_planes;
        strides = strides;
        sizes = sizes;
        ids = ids;
      })
unfolding parse_alloc_resp get_i32
parse_alloc_resp_reads p code count num_planes strides sizes ids l a b c d e f g =
    rw (long_enough, a, b, c, d, e, f, g)
  where
    long_enough : ltb (length p) 560 ≡ false
    long_enough = ground arith

module _ (code count num_planes : ℕ) (strides sizes : Triple) (pad : ℕ) (ids : List ℕ) where
  resp_head : List ℕ
  resp_head = u32_le 8 ++ (u32_le 560 ++ (u32_le code ++ (u32_le count ++ u32_le num_planes)))

  resp_tail : List ℕ
  resp_tail = u32_le pad ++ u64s_le ids

  -- A response that the daemon packs is parsed to its fields, with the code as a signed word and
  -- the first `count` of the 64 ids.
  pub parse_alloc_resp_layout :
      code < 2 ^ 32
      → count < 2 ^ 32
      → num_planes < 2 ^ 32
      → FitsU32 strides
      → FitsU32 sizes
      → length ids ≡ 64
      → AllU64 ids
      → parse_alloc_resp (alloc_resp_layout code count num_planes strides sizes pad ids)
        ≡ ok (record {
          code = of_u32 code;
          count = count;
          num_planes = num_planes;
          strides = strides;
          sizes = sizes;
          ids = take count ids;
        })
  unfolding resp_head resp_tail
  parse_alloc_resp_layout hc hn hp hs hz hl hi =
      let q = alloc_resp_layout code count num_planes strides sizes pad ids in
      let t = triple_le strides ++ (triple_le sizes ++ resp_tail) in
      parse_alloc_resp_reads q code count num_planes strides sizes (take count ids)
        (omega (arith, length-u64s ids))
        (get_u32-field []
          (u32_le 560 ++ (u32_le code ++ (u32_le count ++ (u32_le num_planes ++ t)))) 8
          (omega arith))
        (get_u32-field (u32_le 8 ++ u32_le 560) (u32_le count ++ (u32_le num_planes ++ t)) code hc)
        (get_u32-field (u32_le 8 ++ (u32_le 560 ++ u32_le code)) (u32_le num_planes ++ t) count hn)
        (get_u32-field (u32_le 8 ++ (u32_le 560 ++ (u32_le code ++ u32_le count))) t num_planes hp)
        (get_triple-field q 20 strides
          (get_u32-field resp_head
            (u32_le strides.second ++ (u32_le strides.third ++ (triple_le sizes ++ resp_tail)))
            strides.first hs.0)
          (get_u32-field (resp_head ++ u32_le strides.first)
            (u32_le strides.third ++ (triple_le sizes ++ resp_tail)) strides.second hs.1)
          (get_u32-field (resp_head ++ (u32_le strides.first ++ u32_le strides.second))
            (triple_le sizes ++ resp_tail) strides.third hs.2))
        (get_triple-field q 32 sizes
          (get_u32-field (resp_head ++ triple_le strides)
            (u32_le sizes.second ++ (u32_le sizes.third ++ resp_tail)) sizes.first hz.0)
          (get_u32-field (resp_head ++ (triple_le strides ++ u32_le sizes.first))
            (u32_le sizes.third ++ resp_tail) sizes.second hz.1)
          (get_u32-field
            (resp_head ++ (triple_le strides ++ (u32_le sizes.first ++ u32_le sizes.second)))
            resp_tail sizes.third hz.2))
        (rw (← hl) (
          get_ids-field ids count 0
            (resp_head ++ (triple_le strides ++ (triple_le sizes ++ u32_le pad))) refl hi))

-- Every response that is accepted is long enough and of the right type, and carries one id for each
-- counted buffer, up to the 64 that the struct holds.
pub parse_alloc_resp-ids :
    (p : List ℕ) {r : AllocResp}
    → parse_alloc_resp p ≡ ok r
    → (560 ≤ length p) × (get_u32 p 0 ≡ 8) × (length r.ids ≡ min r.count 64)
unfolding parse_alloc_resp
parse_alloc_resp-ids p h = ground (arith, length-get_ids 64 (get_u32 p 12) 0 p)

-- An import response that the daemon packs, with its code and its id in the range of their fields, is
-- parsed to them, the code as a signed word.
pub parse_import_resp_layout :
    (code pad import_id : ℕ)
    → code < 2 ^ 32
    → import_id < 2 ^ 64
    → parse_import_resp
        (u32_le 11 ++ (u32_le 24 ++ (u32_le code ++ (u32_le pad ++ u64_le import_id))))
      ≡ ok (record { code = of_u32 code; import_id = import_id })
parse_import_resp_layout code pad i hc hi =
    parse_import_resp_reads _ code i (omega arith)
      (get_u32-field [] (u32_le 24 ++ (u32_le code ++ (u32_le pad ++ u64_le i))) 11 (omega arith))
      (get_u32-field (u32_le 11 ++ u32_le 24) (u32_le pad ++ u64_le i) code hc)
      (get_u64-field (u32_le 11 ++ (u32_le 24 ++ (u32_le code ++ u32_le pad))) [] i hi)
