-- ===== src/Wire/Dsp/Requests.antt =====
-- The DSP requests of detail/dsp_wire.hpp against the layout of the daemon's C structs: what the
-- daemon reads from a request.
use neoruntime_sdks.Base.{ℕ, ◌^◌, ◌<◌, ◌≡◌, refl, sym, List, [], ◌++◌, arith, length}
use neoruntime_sdks.Wire.Words.{
  put_u32, put_u64, get_u32, get_u64, u32_le, u64_le, get_u32-field, get_u64-field,
}
use neoruntime_sdks.Wire.Dsp.{Triple, alloc_request, import_request, get_triple, release_request}
use neoruntime_sdks.Wire.Dsp.Layout.{FitsU32, get_triple-field, triple_le}

-- The alloc request is the packed struct { type, size, width, height, fmt, count }: its size field
-- is its length, and each field is read back at the daemon's offset.
pub alloc_request_fields :
    (w h f c : ℕ)
    → w < 2 ^ 32
    → h < 2 ^ 32
    → f < 2 ^ 32
    → c < 2 ^ 32
    → let b = alloc_request w h f c in
      (length b ≡ get_u32 b 4)
      × (get_u32 b 0 ≡ 7)
      × (get_u32 b 8 ≡ w)
      × (get_u32 b 12 ≡ h)
      × (get_u32 b 16 ≡ f)
      × (get_u32 b 20 ≡ c)
unfolding alloc_request put_u32
alloc_request_fields w h f c hw hh hf hc =
    let head : List ℕ = u32_le 7 ++ u32_le 24 in
    (
      sym (
          get_u32-field (u32_le 7) (u32_le w ++ (u32_le h ++ (u32_le f ++ u32_le c))) 24
            (omega arith)),
      get_u32-field [] (u32_le 24 ++ (u32_le w ++ (u32_le h ++ (u32_le f ++ u32_le c)))) 7
          (omega arith),
      get_u32-field head (u32_le h ++ (u32_le f ++ u32_le c)) w hw,
      get_u32-field (head ++ u32_le w) (u32_le f ++ u32_le c) h hh,
      get_u32-field (head ++ (u32_le w ++ u32_le h)) (u32_le c) f hf,
      get_u32-field (head ++ (u32_le w ++ (u32_le h ++ u32_le f))) [] c hc,
    )

import_head : ℕ → ℕ → ℕ → ℕ → List ℕ
import_head w h f n = u32_le 10 ++ (u32_le 48 ++ (u32_le w ++ (u32_le h ++ (u32_le f ++ u32_le n))))

import_layout : ℕ → ℕ → ℕ → ℕ → Triple → Triple → List ℕ
unfolding import_head
import_layout w h f n s z = import_head w h f n ++ (triple_le s ++ triple_le z)

import_request-layout :
    (w h f n : ℕ) (s z : Triple) → import_request w h f n s z ≡ import_layout w h f n s z
unfolding import_request put_u32 import_layout
import_request-layout w h f n s z = refl

abbrev pub release_layout : ℕ → List ℕ
release_layout i = u32_le 9 ++ (u32_le 16 ++ u64_le i)

pub release_request-layout : (i : ℕ) → release_request i ≡ release_layout i
unfolding release_request put_u32 put_u64
release_request-layout i = refl

-- The release request is { type, size, buffer_id }: the daemon reads back its length and the id.
pub release_request_fields :
    (i : ℕ)
    → i < 2 ^ 64
    → let b = release_request i in (length b ≡ get_u32 b 4) × (get_u32 b 0 ≡ 9) × (get_u64 b 8 ≡ i)
release_request_fields i h = rw (release_request-layout i) (
  sym (get_u32-field (u32_le 9) (u64_le i) 16 (omega arith)),
  get_u32-field [] (u32_le 16 ++ u64_le i) 9 (omega arith),
  get_u64-field (u32_le 9 ++ u32_le 16) [] i h,
)

module _ (w h f n : ℕ) (s z : Triple) where
  -- The import request is { type, size, width, height, fmt, num_planes, strides[3], sizes[3] }: its
  -- size field is its length, and the daemon reads back every field, the arrays in their order.
  pub import_request_fields :
      w < 2 ^ 32
      → h < 2 ^ 32
      → f < 2 ^ 32
      → n < 2 ^ 32
      → FitsU32 s
      → FitsU32 z
      → let b = import_request w h f n s z in
        (length b ≡ get_u32 b 4)
        × (get_u32 b 0 ≡ 10)
        × (get_u32 b 8 ≡ w)
        × (get_u32 b 12 ≡ h)
        × (get_u32 b 16 ≡ f)
        × (get_u32 b 20 ≡ n)
        × (get_triple b 24 ≡ s)
        × (get_triple b 36 ≡ z)
  unfolding import_layout
  import_request_fields hw hh hf hn hs hz =
      let t = triple_le s ++ triple_le z in
      let head : List ℕ = u32_le 10 ++ u32_le 48 in
      let geometry : List ℕ = head ++ (u32_le w ++ (u32_le h ++ (u32_le f ++ u32_le n))) in
      rw (import_request-layout w h f n s z) (
        sym (
            get_u32-field (u32_le 10) (u32_le w ++ (u32_le h ++ (u32_le f ++ (u32_le n ++ t)))) 48
              (omega arith)),
        get_u32-field [] (u32_le 48 ++ (u32_le w ++ (u32_le h ++ (u32_le f ++ (u32_le n ++ t))))) 10
            (omega arith),
        get_u32-field head (u32_le h ++ (u32_le f ++ (u32_le n ++ t))) w hw,
        get_u32-field (head ++ u32_le w) (u32_le f ++ (u32_le n ++ t)) h hh,
        get_u32-field (head ++ (u32_le w ++ u32_le h)) (u32_le n ++ t) f hf,
        get_u32-field (head ++ (u32_le w ++ (u32_le h ++ u32_le f))) t n hn,
        get_triple-field _ 24 s
            (get_u32-field geometry (u32_le s.second ++ (u32_le s.third ++ triple_le z)) s.first
              hs.0)
            (get_u32-field (geometry ++ u32_le s.first) (u32_le s.third ++ triple_le z) s.second
              hs.1)
            (get_u32-field (geometry ++ (u32_le s.first ++ u32_le s.second)) (triple_le z) s.third
              hs.2),
        get_triple-field _ 36 z
            (get_u32-field (geometry ++ triple_le s) (u32_le z.second ++ u32_le z.third) z.first
              hz.0)
            (get_u32-field (geometry ++ (triple_le s ++ u32_le z.first)) (u32_le z.third) z.second
              hz.1)
            (get_u32-field (geometry ++ (triple_le s ++ (u32_le z.first ++ u32_le z.second))) []
              z.third hz.2),
      )
