-- ===== src/Wire/Tests.antt =====
-- The theorems of the wire formats at concrete messages.
use neoruntime_sdks.Base.{ℕ, ◌-◌, ◌^◌, ◌≡◌, refl, List, [], ◌∷◌, arith, replicate, ok}
use neoruntime_sdks.Base.Int.{pos, negsuc}
use neoruntime_sdks.Wire.Dsp.{Triple, parse_alloc_resp, validate_geometry}
use neoruntime_sdks.Wire.Dsp.Responses.{alloc_resp_layout, parse_alloc_resp_layout}

abbrev strides : Triple
strides = record { first = 640; second = 640; third = 0 }

abbrev sizes : Triple
sizes = record { first = 307200; second = 153600; third = 0 }

abbrev ids : List ℕ
ids = 41 ∷ 42 ∷ replicate 62 0

-- A negative code, and the two ids that are counted.
parse_alloc_resp_layout_example :
    parse_alloc_resp (alloc_resp_layout (2 ^ 32 - 3) 2 2 strides sizes 0 ids)
    ≡ ok (record {
      code = negsuc 2;
      count = 2;
      num_planes = 2;
      strides = strides;
      sizes = sizes;
      ids = 41 ∷ 42 ∷ [];
    })
parse_alloc_resp_layout_example =
    parse_alloc_resp_layout (2 ^ 32 - 3) 2 2 strides sizes 0 ids (omega arith) (omega arith)
      (omega arith) (omega arith) (omega arith) refl (omega arith)

accepted : validate_geometry (pos 64) (pos 48) "nv12" "alloc" ≡ ok tt
unfolding validate_geometry
accepted = refl
