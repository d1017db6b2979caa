-- ===== src/Media/Pixels.antt =====
-- media/frame.cpp: the copy of a frame's planes and its shape as an image. The kernel and OpenCV
-- are a parameter: what a descriptor maps to (none: it cannot be mapped, or is empty), and the
-- clone of a matrix over a buffer (none: it throws).
use neoruntime_sdks.Base.{
  ℕ, zero, suc, ◌+◌, List, [], ◌∷◌, ◌++◌, Option, none, some, take, Result, ok, err,
}
use neoruntime_sdks.Base.Int.{ℤ, quot_ℤ, scale_ℤ}
use neoruntime_sdks.Media.{
  PixelFormat, nv12, nv21, rgba, bgra, gray8, yuyv, MediaError, map_failed, no_planes, bad_image,
}

pub record Mat : Type 0 where
  pub rows : ℤ
  pub cols : ℤ
  pub channels : ℕ
  pub data_bytes : List ℕ

pub record Platform : Type 0 where
  pub mapped : ℕ → Option (List ℕ)
  -- Rows, columns, channels, and the buffer.
  pub clone_mat : ℤ → ℤ → ℕ → List ℕ → Option Mat

-- The size of plane `i`: 0 from the fourth on.
abbrev pub plane_size : ℕ × ℕ × ℕ → ℕ → ℕ
plane_size (a, b, c) zero = a
plane_size (a, b, c) (suc zero) = b
plane_size (a, b, c) (suc (suc zero)) = c
plane_size (a, b, c) (suc (suc (suc i))) = 0

-- The loop over the planes from plane `i` on.
unfoldable pub materialize_from :
    Platform → ℕ × ℕ × ℕ → ℕ → List ℕ → List ℕ → Result MediaError (List ℕ)
materialize_from os sizes i [] raw = ok raw
materialize_from os sizes i (f ∷ fs) raw = elim (os.mapped f) [
  | none ↦ err (map_failed i)
  | some base ↦ materialize_from os sizes (i + 1) fs (raw ++ take (plane_size sizes i) base)
]

abbrev pub not_empty : Result MediaError (List ℕ) → Result MediaError (List ℕ)
not_empty (ok []) = err no_planes
not_empty (ok (b ∷ bs)) = ok (b ∷ bs)
not_empty (err e) = err e

unfoldable pub materialize_frame_handle : Platform → ℕ × ℕ × ℕ → List ℕ → Result MediaError (List ℕ)
unfolding materialize_from
materialize_frame_handle os sizes fds = not_empty (materialize_from os sizes 0 fds [])

unfoldable pub decode_frame_raw : Platform → List ℕ → ℤ → ℤ → PixelFormat → Option Mat
decode_frame_raw os raw w h nv12 = os.clone_mat (quot_ℤ (scale_ℤ 3 h) 2) w 1 raw
decode_frame_raw os raw w h nv21 = os.clone_mat (quot_ℤ (scale_ℤ 3 h) 2) w 1 raw
decode_frame_raw os raw w h rgba = os.clone_mat h w 4 raw
decode_frame_raw os raw w h bgra = os.clone_mat h w 4 raw
decode_frame_raw os raw w h gray8 = os.clone_mat h w 1 raw
decode_frame_raw os raw w h yuyv = os.clone_mat h w 2 raw
decode_frame_raw os raw w h _ = os.clone_mat h w 3 raw

abbrev pub cloned : Option Mat → Result MediaError Mat
cloned none = err bad_image
cloned (some m) = ok m
