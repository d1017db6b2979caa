-- ===== src/Injection.antt =====
-- detail/injection_logic.hpp: what FramePublisher checks before it calls the camera or the DSP, and
-- how it picks a slot. The child modules are the publisher of injection.cpp.
pub mod Geometry
pub mod Services
pub mod Publisher
pub mod Publish
pub mod Rotation
pub mod Lease
pub mod Wait
pub mod Closed
mod Tests
use Prim.Native.String.{String}
use text.Mathlib.Text.{◌==◌ as str_eq}
use neoruntime_sdks.Base.{
  ℕ, zero, suc, ◌+◌, ◌*◌, ◌/◌, ◌%◌, List, [], ◌∷◌, Option, none, some, Bool, true, false, not, ◌&&◌,
  ◌||◌, ltb, leb, ◌==◌, if◌then◌else◌, Result, ok, err, ◌>>=◌, ◌>>◌, throw_if, length, get_or,
}
use neoruntime_sdks.Base.Int.{
  ℤ, pos, ◌+ℤ◌, ltb_ℤ, leb_ℤ, is_odd_ℤ, quot_ℤ, clear_low_bit, of_u32, add_i32,
}

-- The errors that FramePublisher throws, with the values that their texts print. `service` is an
-- exception of a camera or DSP call; `null_stage` and `polling` are not: the one marks a null
-- pointer that the code follows, and the other a wait for a slot that the model's bound on polls cut
-- off.
pub data PublishError : Type 0 where
  bad_pool_depth no_encoder : PublishError
  bad_mode bad_overlay_format : String → PublishError
  unknown_stream : List String → PublishError
  bad_stream_geometry : (width height : ℕ) → PublishError
  replace_needs_nv12 : PublishError
  bad_inset bad_dest : ℤ → ℤ → PublishError
  inset_outside : (inset_w inset_h dest_x dest_y : ℤ) → (width height : ℤ) → PublishError
  bad_depth bad_length : ℕ → PublishError
  bad_shape : (rows cols channels : ℤ) → PublishError
  exhausted : List ℕ → PublishError
  is_closed replace_only unexpected_form : PublishError
  bad_slot : ℤ → PublishError
  service : String → PublishError
  null_stage polling : PublishError

pub record StreamStatus : Type 0 where
  pub stream_id : String
  pub has_encoder : Bool
  pub width : ℕ
  pub height : ℕ

unfoldable pub validate_pool_depth : ℤ → Result PublishError (Unit {0})
validate_pool_depth depth = throw_if (ltb_ℤ depth (pos 1)) bad_pool_depth

unfoldable pub validate_mode : String → Result PublishError (Unit {0})
validate_mode mode =
    throw_if (not (str_eq mode "replace") && not (str_eq mode "overlay")) (bad_mode mode)

unfoldable pub known_streams : List StreamStatus → List String
known_streams [] = []
known_streams (s ∷ ss) = s.stream_id ∷ known_streams ss

unfoldable pub find_stream : List StreamStatus → String → Option StreamStatus
find_stream [] id = none
find_stream (s ∷ ss) id =
    let rest = find_stream ss id in if str_eq s.stream_id id then some s else rest

pub record PoolGeometry : Type 0 where
  pub pool_w : ℤ
  pub pool_h : ℤ
  pub dest_x : ℤ
  pub dest_y : ℤ

-- `a <= 0 || b <= 0 || (a & 1) || (b & 1)`
abbrev pub not_positive_even : ℤ → ℤ → Bool
not_positive_even a b = leb_ℤ a (pos 0) || leb_ℤ b (pos 0) || is_odd_ℤ a || is_odd_ℤ b

-- An even quarter of the stream.
abbrev pub default_inset : StreamStatus → ℤ × ℤ
default_inset st =
    (clear_low_bit (quot_ℤ (of_u32 st.width) 4), clear_low_bit (quot_ℤ (of_u32 st.height) 4))

abbrev pub inset_or_default : StreamStatus → Option (ℤ × ℤ) → ℤ × ℤ
inset_or_default st (some inset) = inset
inset_or_default st none = default_inset st

unfoldable pub overlay_geometry :
    StreamStatus → String → Option (ℤ × ℤ) → ℤ × ℤ → Result PublishError PoolGeometry
overlay_geometry st fmt inset (x, y) = do
  throw_if (not (str_eq fmt "nv12") && not (str_eq fmt "argb")) (bad_overlay_format fmt)
  let (w, h) = inset_or_default st inset
  throw_if (not_positive_even w h) (bad_inset w h)
  throw_if (is_odd_ℤ x || is_odd_ℤ y) (bad_dest x y)
  throw_if (ltb_ℤ (of_u32 st.width) (add_i32 x w) || ltb_ℤ (of_u32 st.height) (add_i32 y h))
      (inset_outside w h x y (of_u32 st.width) (of_u32 st.height))
  ok (record { pool_w = w; pool_h = h; dest_x = x; dest_y = y })

abbrev pub replace_geometry : StreamStatus → String → Result PublishError PoolGeometry
replace_geometry st fmt = do
  throw_if (not (str_eq fmt "nv12")) replace_needs_nv12
  ok (record {
    pool_w = of_u32 st.width;
    pool_h = of_u32 st.height;
    dest_x = pos 0;
    dest_y = pos 0;
  })

unfoldable pub resolve_geometry :
    StreamStatus → String → String → Option (ℤ × ℤ) → ℤ × ℤ → Result PublishError PoolGeometry
unfolding overlay_geometry
resolve_geometry st mode fmt inset dest = do
  throw_if (not st.has_encoder) no_encoder
  throw_if (st.width == 0 || st.height == 0 || st.width % 2 == 1 || st.height % 2 == 1)
      (bad_stream_geometry st.width st.height)
  if str_eq mode "replace" then replace_geometry st fmt else overlay_geometry st fmt inset dest

-- A cv::Mat: its depth (0 is CV_8U), its shape and its bytes.
pub record Mat : Type 0 where
  pub depth : ℕ
  pub rows : ℤ
  pub cols : ℤ
  pub channels : ℤ
  pub bytes : List ℕ

abbrev pub pool_rows : String → ℤ → ℤ
pool_rows fmt h = if str_eq fmt "nv12" then quot_ℤ (h +ℤ h +ℤ h) 2 else h

abbrev pub pool_channels : String → ℕ
pool_channels fmt = if str_eq fmt "nv12" then 1 else 4

abbrev pub eq_ℤ : ℤ → ℤ → Bool
eq_ℤ a b = leb_ℤ a b && leb_ℤ b a

-- to_pool_array of a Mat.
unfoldable pub mat_to_pool_array : Mat → String → ℤ → ℤ → Result PublishError Mat
mat_to_pool_array frame fmt w h = do
  let channels = pos (pool_channels fmt)
  throw_if (not (frame.depth == 0)) (bad_depth frame.depth)
  throw_if
      (not (eq_ℤ frame.rows (pool_rows fmt h))
        || not (eq_ℤ frame.cols w)
        || not (eq_ℤ frame.channels channels))
      (bad_shape (pool_rows fmt h) w channels)
  ok frame

-- The loop of pick_free_slot at offset `off`, with the offsets left; `none` is -1.
unfoldable pub pick_free_slot_from : ℕ → ℕ → ℕ → List ℕ → (ℕ → Bool) → Option ℕ
pick_free_slot_from zero off cursor ids in_flight = none
pick_free_slot_from (suc left) off cursor ids in_flight =
    let slot = (cursor + off) % length ids in
    let rest = pick_free_slot_from left (off + 1) cursor ids in_flight in
    if not (in_flight (get_or ids slot 0)) then some slot else rest

unfoldable pub pick_free_slot : ℕ → List ℕ → (ℕ → Bool) → Option ℕ
unfolding pick_free_slot_from
pick_free_slot cursor ids in_flight = pick_free_slot_from (length ids) 0 cursor ids in_flight
