-- ===== src/Wire/Words.antt =====
-- put_u32, put_u64, get_u32, get_i32 and get_u64 of detail/dsp_wire.hpp. A buffer is the list of
-- its bytes, and a pointer into it is an offset.
use Prim.Native.Nat.{bit_or}
use neoruntime_sdks.Base.{
  ℕ, zero, suc, ◌+◌, ◌*◌, ◌/◌, ◌%◌, ◌^◌, ◌<◌, ◌≡◌, List, [], ◌∷◌, ◌++◌, arith, get_or, set, length,
  get_or-append, set-append,
}
use neoruntime_sdks.Base.Bits.{bit_or_low_high, bit_or_high_low}
use neoruntime_sdks.Base.Int.{ℤ, of_u32}

-- A store of four bytes at offset `o`, lowest first.
unfoldable pub put_u32 : List ℕ → ℕ → ℕ → List ℕ
put_u32 p o v =
    set
      (set (set (set p (o + 0) (v % 2 ^ 8)) (o + 1) (v / 2 ^ 8 % 2 ^ 8)) (o + 2)
        (v / 2 ^ 16 % 2 ^ 8))
      (o + 3) (v / 2 ^ 24 % 2 ^ 8)

-- The loop of put_u64 from byte `i`, with the rounds left.
unfoldable pub put_u64_from : ℕ → ℕ → List ℕ → ℕ → ℕ → List ℕ
put_u64_from zero i p o v = p
put_u64_from (suc n) i p o v = put_u64_from n (i + 1) (set p (o + i) (v / 2 ^ (8 * i) % 2 ^ 8)) o v

unfoldable pub put_u64 : List ℕ → ℕ → ℕ → List ℕ
unfolding put_u64_from
put_u64 p o v = put_u64_from 8 0 p o v

-- A read past the end of the buffer is no case of the callers, which check the length.
abbrev pub byte_at : List ℕ → ℕ → ℕ
byte_at p i = get_or p i 0

unfoldable pub get_u32 : List ℕ → ℕ → ℕ
get_u32 p o =
    bit_or
      (bit_or (bit_or (byte_at p (o + 0)) (byte_at p (o + 1) * 2 ^ 8 % 2 ^ 32))
        (byte_at p (o + 2) * 2 ^ 16 % 2 ^ 32))
      (byte_at p (o + 3) * 2 ^ 24 % 2 ^ 32)

unfoldable pub get_i32 : List ℕ → ℕ → ℤ
get_i32 p o = of_u32 (get_u32 p o)

-- The loop of get_u64, which goes down from the highest byte: `n` bytes are left.
unfoldable pub get_u64_from : ℕ → List ℕ → ℕ → ℕ → ℕ
get_u64_from zero p o v = v
get_u64_from (suc n) p o v = get_u64_from n p o (bit_or (v * 2 ^ 8 % 2 ^ 64) (byte_at p (o + n)))

unfoldable pub get_u64 : List ℕ → ℕ → ℕ
unfolding get_u64_from
get_u64 p o = get_u64_from 8 p o 0

-- The layout that the daemon documents: the bytes of a word, lowest first.
abbrev pub u32_le : ℕ → List ℕ
u32_le v = v % 2 ^ 8 ∷ v / 2 ^ 8 % 2 ^ 8 ∷ v / 2 ^ 16 % 2 ^ 8 ∷ v / 2 ^ 24 % 2 ^ 8 ∷ []

abbrev pub u64_le : ℕ → List ℕ
u64_le v =
    v / 2 ^ 0 % 2 ^ 8
    ∷ v / 2 ^ 8 % 2 ^ 8
    ∷ v / 2 ^ 16 % 2 ^ 8
    ∷ v / 2 ^ 24 % 2 ^ 8
    ∷ v / 2 ^ 32 % 2 ^ 8
    ∷ v / 2 ^ 40 % 2 ^ 8
    ∷ v / 2 ^ 48 % 2 ^ 8
    ∷ v / 2 ^ 56 % 2 ^ 8
    ∷ []

-- Four bytes joined by shifts and ors are their sum in base 256.
join_u32 :
    (a b c d : ℕ)
    → a < 256
    → b < 256
    → c < 256
    → d < 256
    → bit_or (bit_or (bit_or a (b * 2 ^ 8 % 2 ^ 32)) (c * 2 ^ 16 % 2 ^ 32)) (d * 2 ^ 24 % 2 ^ 32)
      ≡ a + b * 2 ^ 8 + c * 2 ^ 16 + d * 2 ^ 24
join_u32 a b c d ha hb hc hd =
    let eb : b * 2 ^ 8 % 2 ^ 32 ≡ b * 2 ^ 8 = omega arith in
    let ec : c * 2 ^ 16 % 2 ^ 32 ≡ c * 2 ^ 16 = omega arith in
    let ed : d * 2 ^ 24 % 2 ^ 32 ≡ d * 2 ^ 24 = omega arith in
    rw (eb, ec, ed, bit_or_low_high 8 a b ha)
      (rw (bit_or_low_high 16 (a + b * 2 ^ 8) c (omega arith))
        (bit_or_low_high 24 (a + b * 2 ^ 8 + c * 2 ^ 16) d (omega arith)))

-- What put_u32 stores is read back by get_u32, at any place in a buffer.
pub get_u32-field :
    (xs ys : List ℕ) (v : ℕ) → v < 2 ^ 32 → get_u32 (xs ++ (u32_le v ++ ys)) (length xs) ≡ v
unfolding get_u32
get_u32-field xs ys v h =
    rw
      (
        get_or-append xs (u32_le v ++ ys) 0 0,
        get_or-append xs (u32_le v ++ ys) 1 0,
        get_or-append xs (u32_le v ++ ys) 2 0,
        get_or-append xs (u32_le v ++ ys) 3 0,
      )
      (rw
        (join_u32 (v % 2 ^ 8) (v / 2 ^ 8 % 2 ^ 8) (v / 2 ^ 16 % 2 ^ 8) (v / 2 ^ 24 % 2 ^ 8)
          (omega arith) (omega arith) (omega arith) (omega arith))
        (omega arith))

-- One round of get_u64: the bytes above bit `8 * n`, then those from bit `8 * n` on.
push_byte : (a b : ℕ) → a ≡ b / 2 ^ 8 → b < 2 ^ 64 → bit_or (a * 2 ^ 8 % 2 ^ 64) (b % 2 ^ 8) ≡ b
push_byte a b e h =
    let e' : a * 2 ^ 8 % 2 ^ 64 ≡ a * 2 ^ 8 = omega arith in
    rw (e', bit_or_high_low 8 (b % 2 ^ 8) a (omega arith)) (omega arith)

pub get_u64-field :
    (xs ys : List ℕ) (v : ℕ) → v < 2 ^ 64 → get_u64 (xs ++ (u64_le v ++ ys)) (length xs) ≡ v
unfolding get_u64
get_u64-field xs ys v h =
    rw
      (
        get_or-append xs (u64_le v ++ ys) 7 0,
        get_or-append xs (u64_le v ++ ys) 6 0,
        get_or-append xs (u64_le v ++ ys) 5 0,
        get_or-append xs (u64_le v ++ ys) 4 0,
        get_or-append xs (u64_le v ++ ys) 3 0,
        get_or-append xs (u64_le v ++ ys) 2 0,
        get_or-append xs (u64_le v ++ ys) 1 0,
        get_or-append xs (u64_le v ++ ys) 0 0,
      )
      (rw
        (
          push_byte 0 (v / 2 ^ 56) (omega arith) (omega arith),
          push_byte (v / 2 ^ 56) (v / 2 ^ 48) (omega arith) (omega arith),
          push_byte (v / 2 ^ 48) (v / 2 ^ 40) (omega arith) (omega arith),
          push_byte (v / 2 ^ 40) (v / 2 ^ 32) (omega arith) (omega arith),
          push_byte (v / 2 ^ 32) (v / 2 ^ 24) (omega arith) (omega arith),
          push_byte (v / 2 ^ 24) (v / 2 ^ 16) (omega arith) (omega arith),
          push_byte (v / 2 ^ 16) (v / 2 ^ 8) (omega arith) (omega arith),
          push_byte (v / 2 ^ 8) (v / 2 ^ 0) (omega arith) (omega arith),
        )
        (omega arith))

module _ (xs ys : List ℕ) (v : ℕ) where
  put_u32-field :
      (a b c d : ℕ) → put_u32 (xs ++ (a ∷ b ∷ c ∷ d ∷ ys)) (length xs) v ≡ xs ++ (u32_le v ++ ys)
  unfolding put_u32
  put_u32-field a b c d = rw (set-append, set-append, set-append, set-append)

  -- Storing a 32-bit word writes its four bytes, lowest first, and leaves the rest of the buffer
  -- alone; the load at the same offset gives the word back.
  pub put_u32_roundtrip :
      (a b c d : ℕ)
      → v < 2 ^ 32
      → (put_u32 (xs ++ (a ∷ b ∷ c ∷ d ∷ ys)) (length xs) v ≡ xs ++ (u32_le v ++ ys))
        × (get_u32 (put_u32 (xs ++ (a ∷ b ∷ c ∷ d ∷ ys)) (length xs) v) (length xs) ≡ v)
  put_u32_roundtrip a b c d h =
      (put_u32-field a b c d, rw (put_u32-field a b c d) (get_u32-field xs ys v h))

  put_u64-field :
      (a b c d e f g h : ℕ)
      → put_u64 (xs ++ (a ∷ b ∷ c ∷ d ∷ e ∷ f ∷ g ∷ h ∷ ys)) (length xs) v ≡ xs ++ (u64_le v ++ ys)
  unfolding put_u64
  put_u64-field a b c d e f g h = rw (
    set-append, set-append, set-append, set-append, set-append, set-append, set-append, set-append,
  )

  -- Storing a 64-bit word writes its eight bytes, lowest first, and leaves the rest of the buffer
  -- alone; the load at the same offset gives the word back.
  pub put_u64_roundtrip :
      (a b c d e f g h : ℕ)
      → v < 2 ^ 64
      → (put_u64 (xs ++ (a ∷ b ∷ c ∷ d ∷ e ∷ f ∷ g ∷ h ∷ ys)) (length xs) v
          ≡ xs ++ (u64_le v ++ ys))
        × (get_u64 (put_u64 (xs ++ (a ∷ b ∷ c ∷ d ∷ e ∷ f ∷ g ∷ h ∷ ys)) (length xs) v) (length xs)
            ≡ v)
  put_u64_roundtrip a b c d e f g h lt =
      (put_u64-field a b c d e f g h, rw (put_u64-field a b c d e f g h) (get_u64-field xs ys v lt))
