-- ===== src/Wire/Dsp/Geometry.antt =====
-- validate_geometry and plane_rows of detail/dsp_wire.hpp: the planes of a frame.
use Prim.Native.String.{String}
use text.Mathlib.Text.{◌==◌ as str_eq}
use text.Mathlib.TextEquality.{eq_iff}
use neoruntime_sdks.Base.{
  ℕ, ◌+◌, ◌*◌, ◌/◌, ◌≤◌, ◌≡◌, ◌≢◌, ◌⊎◌, true, false, List, [], ◌∷◌, arith, if◌then◌else◌, ok,
  length, refl, inl, inr, Bool-cases,
}
use neoruntime_sdks.Base.Int.{ℤ, pos, is_odd_ℤ, ◌≤ℤ◌, to_u32, quot_ℤ, scale_ℤ}
use neoruntime_sdks.Wire.Dsp.{PlaneRows, plane_rows, plane_count, validate_geometry, is_dsp_format}

-- The bytes of all planes.
abbrev pub total_bytes : List PlaneRows → ℕ
total_bytes [] = 0
total_bytes (p ∷ ps) = p.row_bytes * p.rows + total_bytes ps

-- The bytes of a frame without padding, by the format's bits per pixel: 12, 24, 32 or 8.
abbrev pub tight_bytes : String → ℕ → ℕ → ℕ
tight_bytes fmt w h =
    if str_eq fmt "nv12"
    then w * (h * 3 / 2)
    else if str_eq fmt "rgb24"
    then w * 3 * h
    else if str_eq fmt "argb"
    then w * 4 * h
    else w * h

-- A geometry is accepted only if the format is known, its sides lie between 16 and 8192, and both
-- are even where the format is nv12.
pub validate_geometry_sound :
    (w h : ℤ) (fmt what : String)
    → validate_geometry w h fmt what ≡ ok tt
    → (is_dsp_format fmt ≡ true)
      × ((fmt ≢ "nv12") ⊎ ((is_odd_ℤ w ≡ false) × (is_odd_ℤ h ≡ false)))
      × (pos 16 ≤ℤ w)
      × (w ≤ℤ pos 8192)
      × (pos 16 ≤ℤ h)
      × (h ≤ℤ pos 8192)
unfolding validate_geometry
validate_geometry_sound w h fmt what e = ground (arith, eq_iff fmt "nv12")

three_halves : (w h : ℕ) → w * h + w * (h / 2) ≡ w * (h * 3 / 2)
three_halves w h = let e : h * 3 / 2 ≡ h + h / 2 = omega arith in rw e (omega arith)

-- No dimension of at most 8192 wraps at 32 bits.
u32_pos : (n : ℕ) → n ≤ 8192 → to_u32 (pos n) ≡ n
u32_pos n h = omega arith

u32_half : (n : ℕ) → n ≤ 8192 → to_u32 (quot_ℤ (pos n) 2) ≡ n / 2
u32_half n h = ground arith

u32_triple : (n : ℕ) → n ≤ 8192 → to_u32 (scale_ℤ 3 (pos n)) ≡ n * 3
u32_triple n h = ground arith

u32_quadruple : (n : ℕ) → n ≤ 8192 → to_u32 (scale_ℤ 4 (pos n)) ≡ n * 4
u32_quadruple n h = ground arith

plane_rows_small :
    (w h : ℕ) (fmt : String)
    → w ≤ 8192
    → h ≤ 8192
    → (length (plane_rows fmt (pos w) (pos h)) ≡ plane_count fmt)
      × (total_bytes (plane_rows fmt (pos w) (pos h)) ≡ tight_bytes fmt w h)
unfolding plane_rows plane_count
plane_rows_small w h fmt hw hh = elim (Bool-cases (str_eq fmt "nv12")) [
  | inl nv12 ↦
      rw (nv12, u32_pos w hw, u32_pos h hh, u32_half h hh) (refl, omega (arith, three_halves w h))
  | inr other ↦ elim (Bool-cases (str_eq fmt "rgb24")) [
    | inl rgb ↦ rw (other, rgb, u32_triple w hw, u32_pos h hh) (refl, omega arith)
    | inr no_rgb ↦ elim (Bool-cases (str_eq fmt "argb")) [
      | inl argb ↦ rw (other, no_rgb, argb, u32_quadruple w hw, u32_pos h hh) (refl, omega arith)
      | inr gray ↦ rw (other, no_rgb, gray, u32_pos w hw, u32_pos h hh) (refl, omega arith)
    ]
  ]
]

-- The planes of an accepted geometry number plane_count, no dimension wraps at 32 bits, and their
-- bytes are those of the frame without padding.
pub plane_rows_tight :
    (w h : ℕ) (fmt what : String)
    → validate_geometry (pos w) (pos h) fmt what ≡ ok tt
    → (length (plane_rows fmt (pos w) (pos h)) ≡ plane_count fmt)
      × (total_bytes (plane_rows fmt (pos w) (pos h)) ≡ tight_bytes fmt w h)
plane_rows_tight w h fmt what e =
    let (_, _, _, hw, _, hh) = validate_geometry_sound (pos w) (pos h) fmt what e in
    plane_rows_small w h fmt (omega arith) (omega arith)
