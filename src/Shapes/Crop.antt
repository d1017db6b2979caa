-- ===== src/Shapes/Crop.antt =====
-- The rectangles of resize_geometry and validated_rect.
use Prim.Native.String.{String}
use text.Mathlib.Text.{◌==◌ as str_eq}
use neoruntime_sdks.Base.{
  ◌≡◌, ◌⊎◌, inl, inr, refl, Bool, true, false, not, ◌&&◌, ◌||◌, Result, ok, err, arith, Bool-cases,
}
use neoruntime_sdks.Base.Int.{ℤ, pos, ◌+ℤ◌, ◌-ℤ◌, ◌≤ℤ◌, ltb_ℤ, is_odd_ℤ, quot_ℤ, +ℤ_parts, -ℤ_parts}
use neoruntime_sdks.Base.Double.{Double}
use neoruntime_sdks.Wire.Dsp.{in_daemon_range}
use neoruntime_sdks.Shapes.{
  max_ℤ, even_down, even_if, crop, scaled_crop, resize_geometry, scaled, max_scale, FormatError,
  CropRect, any_odd, validated_rect,
}

-- A window of `n` at `o` inside a content of `m`.
abbrev pub Inside : (o n m : ℤ) → Type 0
Inside o n m = (pos 0 ≤ℤ o) × ((o +ℤ n) ≤ℤ m)

max-ge : (a b : ℤ) → a ≤ℤ max_ℤ a b
max-ge a b = ground arith

-- An even size is not made smaller by rounding a larger one down to an even number.
even_down-ge : (n m : ℤ) → is_odd_ℤ n ≡ false → n ≤ℤ m → n ≤ℤ even_down m
unfolding even_down
even_down-ge n m h le = ground arith

middle-Inside : (n m : ℤ) → n ≤ℤ m → Inside (quot_ℤ (m -ℤ n) 2) n m
middle-Inside n m le =
    let s = -ℤ_parts m n in let t = +ℤ_parts (quot_ℤ (m -ℤ n) 2) n in (ground arith, ground arith)

-- A side needs no adjustment, or is even.
abbrev pub Suits : Bool → ℤ → Type 0
Suits yuv n = (yuv ≡ false) ⊎ (is_odd_ℤ n ≡ false)

even_if-ge : (yuv : Bool) (n m : ℤ) → Suits yuv n → n ≤ℤ m → n ≤ℤ even_if yuv m
unfolding even_if
even_if-ge true n m (inl no_yuv) le = absurd cc
even_if-ge true n m (inr even) le = even_down-ge n m even le
even_if-ge false n m s le = le

-- In the mode crop, however doubles are rounded, the window of the destination's size lies inside the
-- scaled content, if the destination's sides are even or the format is not a YUV one.
pub resize_geometry-Inside :
    (double : Double) (lround : double.D → ℤ) (sw sh dw dh : ℤ) (yuv : Bool)
    → Suits yuv dw
    → Suits yuv dh
    → let b = resize_geometry double lround sw sh dw dh "crop" yuv in
      Inside b.ox dw b.rw × Inside b.oy dh b.rh
unfolding resize_geometry scaled_crop crop
resize_geometry-Inside double lround sw sh dw dh yuv ew eh =
    let lw = scaled double lround sw (max_scale double lround sw sh dw dh) in
    let lh = scaled double lround sh (max_scale double lround sw sh dw dh) in
    (
      middle-Inside dw _ (even_if-ge yuv dw _ ew (max-ge dw lw)),
      middle-Inside dh _ (even_if-ge yuv dh _ eh (max-ge dh lh)),
    )

-- A crop inside a source of `sw` by `sh` that the daemon takes.
pub record Accepted (sw sh : ℤ) (fmt : String) (r : CropRect) : Type 0 where
  pub wide : pos 1 ≤ℤ r.w
  pub high : pos 1 ≤ℤ r.h
  pub inside_x : Inside r.x r.w sw
  pub inside_y : Inside r.y r.h sh
  pub even : (str_eq fmt "nv12" ≡ false) ⊎ (any_odd r ≡ false)
  pub destination : (in_daemon_range r.dw ≡ true) × (in_daemon_range r.dh ≡ true)

abbrev pub AcceptedIfOk : ℤ → ℤ → String → CropRect → Result FormatError CropRect → Type 0
AcceptedIfOk sw sh fmt r (ok r') = (r' ≡ r) × Accepted sw sh fmt r
AcceptedIfOk sw sh fmt r (err e) = Unit {0}

and-false : (a b : Bool) → (a && b) ≡ false → (a ≡ false) ⊎ (b ≡ false)
and-false true b h = inr h
and-false false b h = inl refl

range-true : (a b : Bool) → not (a && b) ≡ false → (a ≡ true) × (b ≡ true)
range-true true true h = (refl, refl)
range-true true false h = absurd cc
range-true false b h = absurd cc

accepted :
    (sw sh : ℤ) (fmt : String) (r : CropRect)
    → (ltb_ℤ r.w (pos 1) || ltb_ℤ r.h (pos 1)) ≡ false
    → (ltb_ℤ r.x (pos 0) || ltb_ℤ r.y (pos 0) || ltb_ℤ sw (r.x +ℤ r.w) || ltb_ℤ sh (r.y +ℤ r.h))
      ≡ false
    → (str_eq fmt "nv12" && any_odd r) ≡ false
    → not (in_daemon_range r.dw && in_daemon_range r.dh) ≡ false
    → Accepted sw sh fmt r
accepted sw sh fmt r size place odd range = record {
  wide = ground arith;
  high = ground arith;
  inside_x = (ground arith, ground arith);
  inside_y = (ground arith, ground arith);
  even = and-false (str_eq fmt "nv12") (any_odd r) odd;
  destination = range-true (in_daemon_range r.dw) (in_daemon_range r.dh) range;
}

-- A rectangle that validated_rect accepts is returned as it is; it is not empty, lies inside the source,
-- has even coordinates and sizes where the format is nv12, and goes to a size that the daemon takes.
pub validated_rect-Accepted :
    (sw sh : ℤ) (fmt : String) (r : CropRect)
    → AcceptedIfOk sw sh fmt r (validated_rect sw sh fmt r)
unfolding validated_rect
validated_rect-Accepted sw sh fmt r =
    let place =
      ltb_ℤ r.x (pos 0) || ltb_ℤ r.y (pos 0) || ltb_ℤ sw (r.x +ℤ r.w) || ltb_ℤ sh (r.y +ℤ r.h) in
    elim (Bool-cases (ltb_ℤ r.w (pos 1) || ltb_ℤ r.h (pos 1))) [
      | inl bad ↦ rw bad tt
      | inr size ↦ elim (Bool-cases place) [
        | inl bad ↦ rw (size, bad) tt
        | inr fits ↦ elim (Bool-cases (str_eq fmt "nv12" && any_odd r)) [
          | inl bad ↦ rw (size, fits, bad) tt
          | inr odd ↦ elim (Bool-cases (not (in_daemon_range r.dw && in_daemon_range r.dh))) [
            | inl bad ↦ rw (size, fits, odd, bad) tt
            | inr range ↦
                rw (size, fits, odd, range) (refl, accepted sw sh fmt r size fits odd range)
          ]
        ]
      ]
    ]
