-- ===== src/Shapes.antt =====
-- Rectangles and formats: resize_geometry of detail/geometry.hpp, and infer_fmt, src_dims, validated_rect
-- and cv_interp of dsp_format.cpp. Rounding a double to an int is a parameter.
pub mod Crop
mod Tests
use Prim.Native.String.{String}
use text.Mathlib.Text.{◌==◌ as str_eq}
use neoruntime_sdks.Base.{
  ℕ, ◌+◌, Bool, true, false, not, ◌&&◌, ◌||◌, ltb, leb, ◌==◌, if◌then◌else◌, Result, ok, err, ◌>>=◌,
  ◌>>◌, throw_if,
}
use neoruntime_sdks.Base.Int.{
  ℤ, pos, ◌+ℤ◌, ◌-ℤ◌, ltb_ℤ, leb_ℤ, is_odd_ℤ, quot_ℤ, scale_ℤ, clear_low_bit,
}
use neoruntime_sdks.Base.Double.{Double}
use neoruntime_sdks.Wire.Dsp.{is_dsp_format, in_daemon_range}

abbrev pub max_ℤ : ℤ → ℤ → ℤ
max_ℤ a b = if ltb_ℤ a b then b else a

-- `value - value % 2` is twice the half of it, which C++ rounds towards zero.
unfoldable pub even_down : ℤ → ℤ
even_down value = max_ℤ (pos 2) (scale_ℤ 2 (quot_ℤ value 2))

pub record ResizeBox : Type 0 where
  pub rw : ℤ
  pub rh : ℤ
  pub ox : ℤ
  pub oy : ℤ

abbrev pub box : (rw rh ox oy : ℤ) → ResizeBox
box rw rh ox oy = record { rw = rw; rh = rh; ox = ox; oy = oy }

abbrev pub even_if : Bool → ℤ → ℤ
unfolding even_down
even_if yuv n = if yuv then even_down n else n

abbrev pub aligned_if : Bool → ℤ → ℤ
aligned_if yuv n = if yuv then clear_low_bit n else n

-- The letterbox and the crop of a source whose sides are scaled to `lw` and `lh`.
unfoldable pub letterbox : (lw lh dw dh : ℤ) → Bool → ResizeBox
unfolding even_if
letterbox lw lh dw dh yuv =
    let rw = even_if yuv (max_ℤ (pos 1) lw) in
    let rh = even_if yuv (max_ℤ (pos 1) lh) in
    box rw rh (aligned_if yuv (quot_ℤ (dw -ℤ rw) 2)) (aligned_if yuv (quot_ℤ (dh -ℤ rh) 2))

unfoldable pub crop : (lw lh dw dh : ℤ) → Bool → ResizeBox
unfolding even_if
crop lw lh dw dh yuv =
    let rw = even_if yuv (max_ℤ dw lw) in
    let rh = even_if yuv (max_ℤ dh lh) in box rw rh (quot_ℤ (rw -ℤ dw) 2) (quot_ℤ (rh -ℤ dh) 2)

module _ (double : Double) (lround : double.D → ℤ) where
  open double use {D}

  -- The smaller and the larger of the two ratios of the sides.
  abbrev pub ratio : (dst src : ℤ) → D
  ratio dst src = double.div (double.of_ℤ dst) (double.of_ℤ src)

  abbrev pub min_scale : (sw sh dw dh : ℤ) → D
  min_scale sw sh dw dh = if double.lt (ratio dh sh) (ratio dw sw) then ratio dh sh else ratio dw sw

  abbrev pub max_scale : (sw sh dw dh : ℤ) → D
  max_scale sw sh dw dh = if double.lt (ratio dw sw) (ratio dh sh) then ratio dh sh else ratio dw sw

  abbrev pub scaled : ℤ → D → ℤ
  scaled side scale = lround (double.mul (double.of_ℤ side) scale)

  abbrev pub scaled_letterbox : (sw sh dw dh : ℤ) → Bool → ResizeBox
  unfolding letterbox
  scaled_letterbox sw sh dw dh yuv =
      let scale = min_scale sw sh dw dh in letterbox (scaled sw scale) (scaled sh scale) dw dh yuv

  abbrev pub scaled_crop : (sw sh dw dh : ℤ) → Bool → ResizeBox
  unfolding crop
  scaled_crop sw sh dw dh yuv =
      let scale = max_scale sw sh dw dh in crop (scaled sw scale) (scaled sh scale) dw dh yuv

  unfoldable pub resize_geometry : (sw sh dw dh : ℤ) → String → Bool → ResizeBox
  unfolding scaled_letterbox scaled_crop
  resize_geometry sw sh dw dh mode yuv =
      if str_eq mode "stretch"
      then box dw dh (pos 0) (pos 0)
      else if str_eq mode "letterbox"
      then scaled_letterbox sw sh dw dh yuv
      else scaled_crop sw sh dw dh yuv

-- The errors of dsp_format.cpp, with the values that are printed.
pub data FormatError : Type 0 where
  unsupported_format unsupported_interpolation : String → FormatError
  cannot_infer : (rows cols : ℤ) → (channels : ℕ) → FormatError
  bad_shape : String → FormatError
  crop_not_positive : ℤ → ℤ → FormatError
  crop_outside : (x y w h sw sh : ℤ) → FormatError
  crop_odd : FormatError
  destination_outside : ℤ → ℤ → FormatError

-- What the checks read of a cv::Mat.
pub record Shape : Type 0 where
  pub rows : ℤ
  pub cols : ℤ
  pub channels : ℕ
  pub dims : ℕ

abbrev pub is_plane : Shape → Bool
is_plane src = src.channels == 1 && src.dims == 2

unfoldable pub infer_fmt : Shape → String → Result FormatError String
unfolding is_dsp_format
infer_fmt src fmt =
    if not (str_eq fmt "")
    then if is_dsp_format fmt then ok fmt else err (unsupported_format fmt)
    else if src.channels == 3
    then ok "rgb24"
    else if is_plane src
    then ok "gray8"
    else err (cannot_infer src.rows src.cols src.channels)

-- The width and the height of a source.
unfoldable pub src_dims : Shape → String → Result FormatError (ℤ × ℤ)
src_dims src fmt =
    if str_eq fmt "nv12"
    then if is_plane src then ok (src.cols, quot_ℤ (scale_ℤ 2 src.rows) 3) else err (bad_shape fmt)
    else if str_eq fmt "rgb24"
    then if src.channels == 3 then ok (src.cols, src.rows) else err (bad_shape fmt)
    else if is_plane src
    then ok (src.cols, src.rows)
    else err (bad_shape fmt)

pub record CropRect : Type 0 where
  pub x : ℤ
  pub y : ℤ
  pub w : ℤ
  pub h : ℤ
  pub dw : ℤ
  pub dh : ℤ

-- `(x | y | w | h | dw | dh) & 1`
abbrev pub any_odd : CropRect → Bool
any_odd r =
    is_odd_ℤ r.x || is_odd_ℤ r.y || is_odd_ℤ r.w || is_odd_ℤ r.h || is_odd_ℤ r.dw || is_odd_ℤ r.dh

unfoldable pub validated_rect : (sw sh : ℤ) → String → CropRect → Result FormatError CropRect
validated_rect sw sh fmt r = do
  throw_if (ltb_ℤ r.w (pos 1) || ltb_ℤ r.h (pos 1)) (crop_not_positive r.w r.h)
  throw_if
      (ltb_ℤ r.x (pos 0) || ltb_ℤ r.y (pos 0) || ltb_ℤ sw (r.x +ℤ r.w) || ltb_ℤ sh (r.y +ℤ r.h))
      (crop_outside r.x r.y r.w r.h sw sh)
  throw_if (str_eq fmt "nv12" && any_odd r) crop_odd
  throw_if (not (in_daemon_range r.dw && in_daemon_range r.dh)) (destination_outside r.dw r.dh)
  ok r
