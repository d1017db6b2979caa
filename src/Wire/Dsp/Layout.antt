-- ===== src/Wire/Dsp/Layout.antt =====
-- The daemon's C structs: words and arrays of words, packed and little-endian.
use neoruntime_sdks.Base.{ℕ, ◌+◌, ◌≡◌, arith, ◌^◌, ◌<◌, List, [], ◌∷◌, ◌++◌}
use neoruntime_sdks.Wire.Words.{get_u32, u32_le, u64_le}
use neoruntime_sdks.Wire.Dsp.{Triple, get_triple}

abbrev pub triple_le : Triple → List ℕ
triple_le t = u32_le t.first ++ (u32_le t.second ++ u32_le t.third)

abbrev pub FitsU32 : Triple → Type 0
FitsU32 t = (t.first < 2 ^ 32) × (t.second < 2 ^ 32) × (t.third < 2 ^ 32)

abbrev pub u64s_le : List ℕ → List ℕ
u64s_le [] = []
u64s_le (x ∷ xs) = u64_le x ++ u64s_le xs

abbrev pub AllU64 : List ℕ → Type 0
AllU64 [] = Unit {0}
AllU64 (x ∷ xs) = (x < 2 ^ 64) × AllU64 xs

pub get_triple-field :
    (p : List ℕ) (o : ℕ) (t : Triple)
    → get_u32 p o ≡ t.first
    → get_u32 p (o + 4) ≡ t.second
    → get_u32 p (o + 8) ≡ t.third
    → get_triple p o ≡ t
unfolding get_triple
get_triple-field p o t a b c = ground arith
