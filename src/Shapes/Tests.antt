-- ===== src/Shapes/Tests.antt =====
-- A resize to a square and a crop, for the theorems about them.
use neoruntime_sdks.Base.{refl, true, inr}
use neoruntime_sdks.Base.Int.{pos}
use neoruntime_sdks.Base.Double.{whole}
use neoruntime_sdks.Shapes.{resize_geometry, CropRect}
use neoruntime_sdks.Shapes.Crop.{Inside, resize_geometry-Inside}

resize_geometry-Inside_example :
    let b = resize_geometry whole pos (pos 100) (pos 50) (pos 200) (pos 200) "crop" true in
    Inside b.ox (pos 200) b.rw × Inside b.oy (pos 200) b.rh
resize_geometry-Inside_example =
    resize_geometry-Inside whole pos (pos 100) (pos 50) (pos 200) (pos 200) true (inr refl)
      (inr refl)

abbrev corner : CropRect
corner = record { x = pos 0; y = pos 2; w = pos 64; h = pos 32; dw = pos 128; dh = pos 64 }
