-- ===== src/Wire/Dsp.antt =====
-- detail/dsp_wire.hpp: formats, error texts and the messages of the DSP service. A message is the
-- list of its bytes; file descriptors travel beside it and are not part of it.
mod Layout
pub mod Requests
pub mod Responses
pub mod Geometry
use Prim.Native.String.{String}
use text.Mathlib.Text.{◌==◌ as str_eq}
use neoruntime_sdks.Base.{
  ℕ, zero, suc, ◌+◌, ◌*◌, ◌≡◌, Bool, true, false, not, ◌&&◌, ◌||◌, List, [], ◌∷◌, ltb, leb, ◌==◌,
  if◌then◌else◌, Result, ok, err, ◌>>=◌, ◌>>◌, throw_if, length, replicate,
}
use neoruntime_sdks.Base.Int.{ℤ, pos, leb_ℤ, is_odd_ℤ, quot_ℤ, scale_ℤ, to_u32}
use neoruntime_sdks.Wire.Words.{put_u32, put_u64, get_u32, get_i32, get_u64}

-- The texts of the DspError that each `throw` carries, with the values that are printed in them.
pub data DspError : Type 0 where
  unsupported_format unsupported_interpolation unsupported_scaling : String → DspError
  unsupported_priority : String → DspError
  short_alloc_response short_import_response : ℕ → DspError
  unexpected_alloc_type unexpected_import_type : ℕ → DspError
  needs_even dims_outside : String → ℤ → ℤ → DspError

-- kMsgDspAlloc and the message types beside it.
abbrev pub msg_dsp_alloc : ℕ
msg_dsp_alloc = 7

abbrev pub msg_dsp_alloc_resp : ℕ
msg_dsp_alloc_resp = 8

abbrev pub msg_dsp_buf_release : ℕ
msg_dsp_buf_release = 9

abbrev pub msg_dsp_import : ℕ
msg_dsp_import = 10

abbrev pub msg_dsp_import_resp : ℕ
msg_dsp_import_resp = 11

abbrev pub alloc_req_size : ℕ
alloc_req_size = 24

abbrev pub alloc_resp_size : ℕ
alloc_resp_size = 560

abbrev pub release_size : ℕ
release_size = 16

abbrev pub import_req_size : ℕ
import_req_size = 48

abbrev pub import_resp_size : ℕ
import_resp_size = 24

unfoldable pub is_dsp_format : String → Bool
is_dsp_format fmt =
    str_eq fmt "nv12" || str_eq fmt "rgb24" || str_eq fmt "gray8" || str_eq fmt "argb"

unfoldable pub hal_pixel_format : String → Result DspError ℕ
hal_pixel_format fmt =
    if str_eq fmt "nv12"
    then ok 0
    else if str_eq fmt "rgb24"
    then ok 4
    else if str_eq fmt "gray8"
    then ok 8
    else if str_eq fmt "argb"
    then ok 6
    else err (unsupported_format fmt)

pub alloc_request : ℕ → ℕ → ℕ → ℕ → List ℕ
alloc_request width height fmt_wire count =
    let b = replicate alloc_req_size 0 in
    let b = put_u32 b 0 msg_dsp_alloc in
    let b = put_u32 b 4 alloc_req_size in
    let b = put_u32 b 8 width in
    let b = put_u32 b 12 height in let b = put_u32 b 16 fmt_wire in put_u32 b 20 count

-- `std::uint32_t x[3]`.
pub record Triple : Type 0 where
  pub first : ℕ
  pub second : ℕ
  pub third : ℕ

pub record AllocResp : Type 0 where
  pub code : ℤ
  pub count : ℕ
  pub num_planes : ℕ
  pub strides : Triple
  pub sizes : Triple
  pub ids : List ℕ

pub get_triple : List ℕ → ℕ → Triple
get_triple p o = record {
  first = get_u32 p o;
  second = get_u32 p (o + 4);
  third = get_u32 p (o + 8);
}

-- The loop over `i < r.count && i < 64`: `left` is what `count` leaves, `n` what 64 leaves.
get_ids : ℕ → ℕ → ℕ → List ℕ → List ℕ
get_ids zero left i p = []
get_ids (suc n) zero i p = []
get_ids (suc n) (suc left) i p = get_u64 p (48 + 8 * i) ∷ get_ids n left (i + 1) p

pub parse_alloc_resp : List ℕ → Result DspError AllocResp
unfolding get_triple get_ids
parse_alloc_resp p = do
  throw_if (ltb (length p) alloc_resp_size) (short_alloc_response (length p))
  throw_if (not (get_u32 p 0 == msg_dsp_alloc_resp)) (unexpected_alloc_type (get_u32 p 0))
  ok (record {
    code = get_i32 p 8;
    count = get_u32 p 12;
    num_planes = get_u32 p 16;
    strides = get_triple p 20;
    sizes = get_triple p 32;
    ids = get_ids 64 (get_u32 p 12) 0 p;
  })

put_triple : List ℕ → ℕ → Triple → List ℕ
put_triple b o t =
    let b = put_u32 b o t.first in let b = put_u32 b (o + 4) t.second in put_u32 b (o + 8) t.third

pub import_request : ℕ → ℕ → ℕ → ℕ → Triple → Triple → List ℕ
unfolding put_triple
import_request width height fmt_wire num_planes strides sizes =
    let b = replicate import_req_size 0 in
    let b = put_u32 b 0 msg_dsp_import in
    let b = put_u32 b 4 import_req_size in
    let b = put_u32 b 8 width in
    let b = put_u32 b 12 height in
    let b = put_u32 b 16 fmt_wire in
    let b = put_u32 b 20 num_planes in let b = put_triple b 24 strides in put_triple b 36 sizes

pub record ImportResp : Type 0 where
  pub code : ℤ
  pub import_id : ℕ

pub parse_import_resp : List ℕ → Result DspError ImportResp
parse_import_resp p = do
  throw_if (ltb (length p) import_resp_size) (short_import_response (length p))
  throw_if (not (get_u32 p 0 == msg_dsp_import_resp)) (unexpected_import_type (get_u32 p 0))
  ok (record { code = get_i32 p 8; import_id = get_u64 p 16 })

pub release_request : ℕ → List ℕ
release_request buffer_id =
    let b = replicate release_size 0 in
    let b = put_u32 b 0 msg_dsp_buf_release in
    let b = put_u32 b 4 release_size in put_u64 b 8 buffer_id

pub record PlaneRows : Type 0 where
  pub row_bytes : ℕ
  pub rows : ℕ

-- (row_bytes, rows) per plane for a tightly-packed geometry.
pub plane_rows : String → ℤ → ℤ → List PlaneRows
plane_rows fmt width height =
    if str_eq fmt "nv12"
    then (record { row_bytes = to_u32 width; rows = to_u32 height }
        ∷ record { row_bytes = to_u32 width; rows = to_u32 (quot_ℤ height 2) }
        ∷ [])
    else if str_eq fmt "rgb24"
    then (record { row_bytes = to_u32 (scale_ℤ 3 width); rows = to_u32 height } ∷ [])
    else if str_eq fmt "argb"
    then (record { row_bytes = to_u32 (scale_ℤ 4 width); rows = to_u32 height } ∷ [])
    else (record { row_bytes = to_u32 width; rows = to_u32 height } ∷ [])

pub plane_count : String → ℕ
plane_count fmt = if str_eq fmt "nv12" then 2 else 1

-- kMinDim and kMaxDim.
abbrev pub in_daemon_range : ℤ → Bool
in_daemon_range d = leb_ℤ (pos 16) d && leb_ℤ d (pos 8192)

unfoldable pub validate_geometry : ℤ → ℤ → String → String → Result DspError (Unit {0})
unfolding is_dsp_format
validate_geometry width height fmt what = do
  throw_if (not (is_dsp_format fmt)) (unsupported_format fmt)
  throw_if (str_eq fmt "nv12" && (is_odd_ℤ width || is_odd_ℤ height)) (needs_even what width height)
  throw_if (not (in_daemon_range width && in_daemon_range height)) (dims_outside what width height)
