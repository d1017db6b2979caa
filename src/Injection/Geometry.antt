-- ===== src/Injection/Geometry.antt =====
-- resolve_geometry of detail/injection_logic.hpp: the geometries that it returns.
use Prim.Native.String.{String}
use text.Mathlib.Text.{◌==◌ as str_eq}
use neoruntime_sdks.Base.{◌+◌, ◌%◌, ◌≡◌, none, some, Option, ◌==◌, Result, ok, err}
use neoruntime_sdks.Base.Int.{ℤ, pos, ◌+ℤ◌, ◌≤ℤ◌, of_u32, pos_part, neg_part, IsNear}
use neoruntime_sdks.Injection.{PublishError, StreamStatus, PoolGeometry}

abbrev pub IsEven : ℤ → Type 0
IsEven a = (pos_part a + neg_part a) % 2 ≡ 0

-- An even content that ends inside the stream's frame. Nothing keeps its top left corner from being
-- negative.
pub record Placed (st : StreamStatus) (g : PoolGeometry) : Type 0 where
  pub wide : pos 1 ≤ℤ g.pool_w
  pub high : pos 1 ≤ℤ g.pool_h
  pub even_w : IsEven g.pool_w
  pub even_h : IsEven g.pool_h
  pub even_x : IsEven g.dest_x
  pub even_y : IsEven g.dest_y
  pub ends_x : (g.dest_x +ℤ g.pool_w) ≤ℤ of_u32 st.width
  pub ends_y : (g.dest_y +ℤ g.pool_h) ≤ℤ of_u32 st.height

abbrev pub PlacedIfOk : StreamStatus → Result PublishError PoolGeometry → Type 0
PlacedIfOk st (ok g) = Placed st g
PlacedIfOk st (err e) = Unit {0}

abbrev pub AreNear : ℤ × ℤ → Type 0
AreNear (a, b) = IsNear a × IsNear b

abbrev pub NearIfGiven : Option (ℤ × ℤ) → Type 0
NearIfGiven none = Unit
NearIfGiven (some inset) = AreNear inset
