-- ===== src/Simd.antt =====
-- simd/simd_common.go: the Go versions of the packed operations. A lane of an integer vector is its
-- bit pattern, a number below 2 ^ w, so signed and unsigned sums and products are the same function;
-- a vector is the list of its lanes. The lanes of a floating-point vector are a parameter.
pub mod Lanes
pub mod Ops
use gensimd.Common.{
  ℕ, zero, suc, ◌+◌, ◌-◌, ◌*◌, ◌/◌, ◌%◌, ◌^◌, List, [], ◌∷◌, if◌then◌else◌, ltb, ◌==◌, get_or, set,
  replicate,
}

-- `for i := 0; i < n; i++ { val[i] = body(i) }`, where the body can read `val`.
unfoldable pub fill {ℓ} : {A : Type ℓ} → ℕ → ℕ → (ℕ → List A → A) → List A → List A
fill zero i body val = val
fill (suc n) i body val = fill n (suc i) body (set val i (body i val))

-- `val := T{}`, the loop over all lanes, `return val`.
unfoldable pub for_lanes {ℓ} : {A : Type ℓ} → ℕ → A → (ℕ → List A → A) → List A
unfolding fill
for_lanes n none body = fill n 0 body (replicate n none)

-- The widths of an integer lane.
pub data Width : Type 0 where
  w8 w16 w32 w64 : Width

abbrev pub bits : Width → ℕ
bits w8 = 8
bits w16 = 16
bits w32 = 32
bits w64 = 64

-- 2 ^ bits w.
abbrev pub modulus : Width → ℕ
modulus w8 = 256
modulus w16 = 65536
modulus w32 = 4294967296
modulus w64 = 18446744073709551616

abbrev pub add_lane : Width → ℕ → ℕ → ℕ
add_lane w a b = (a + b) % modulus w

abbrev pub sub_lane : Width → ℕ → ℕ → ℕ
sub_lane w a b = (a + modulus w - b) % modulus w

-- Sums and differences, as AddI8x16 and SubI8x16 and the like have them at each type.
unfoldable pub add : Width → ℕ → List ℕ → List ℕ → List ℕ
unfolding for_lanes
add w n x y = for_lanes n 0 (λ i _. add_lane w (get_or x i 0) (get_or y i 0))

unfoldable pub sub : Width → ℕ → List ℕ → List ℕ → List ℕ
unfolding for_lanes
sub w n x y = for_lanes n 0 (λ i _. sub_lane w (get_or x i 0) (get_or y i 0))

unfoldable pub mul : Width → ℕ → List ℕ → List ℕ → List ℕ
unfolding for_lanes
mul w n x y = for_lanes n 0 (λ i _. (get_or x i 0 * get_or y i 0) % modulus w)

-- A Go shift by the lane's width or more gives 0.
unfoldable pub shl : Width → ℕ → List ℕ → ℕ → List ℕ
unfolding for_lanes
shl w n x shift = for_lanes n 0 (λ i _. (get_or x i 0 * 2 ^ shift) % modulus w)

-- The right shift of an unsigned lane.
unfoldable pub shr_unsigned : ℕ → List ℕ → ℕ → List ℕ
unfolding for_lanes
shr_unsigned n x shift = for_lanes n 0 (λ i _. get_or x i 0 / 2 ^ shift)

-- The right shift of a signed lane copies the sign: with the sign set it shifts the complement.
abbrev pub arithmetic_shr : Width → ℕ → ℕ → ℕ
arithmetic_shr w a shift =
    if ltb a (modulus w / 2) then a / 2 ^ shift else modulus w - 1 - (modulus w - 1 - a) / 2 ^ shift

unfoldable pub shr_signed : Width → ℕ → List ℕ → ℕ → List ℕ
unfolding for_lanes
shr_signed w n x shift = for_lanes n 0 (λ i _. arithmetic_shr w (get_or x i 0) shift)

-- ShlI64x2, ShlU64x2 and ShrU64x2 take `x` as a uint8 and shift the lane of the result itself.
unfoldable pub shl_64x2 : ℕ → ℕ → List ℕ
unfolding for_lanes
shl_64x2 x shift = for_lanes 2 0 (λ i val. (get_or val i 0 * 2 ^ shift) % modulus w64)

unfoldable pub shr_64x2 : ℕ → ℕ → List ℕ
unfolding for_lanes
shr_64x2 x shift = for_lanes 2 0 (λ i val. get_or val i 0 / 2 ^ shift)

-- The switch of ShuffleI32x4 and ShuffleU32x4; no case leaves the lane as it is.
abbrev pub choose : List ℕ → ℕ → ℕ → ℕ
choose x zero val = get_or x 0 0
choose x (suc zero) val = get_or x 1 0
choose x (suc (suc zero)) val = get_or x 2 0
choose x (suc (suc (suc zero))) val = get_or x 3 0
choose x (suc (suc (suc (suc n)))) val = val

unfoldable pub shuffle_32x4 : List ℕ → ℕ → List ℕ
unfolding for_lanes
shuffle_32x4 x order = for_lanes 4 0 (λ i val. choose x (order / 2 ^ (2 * i) % 4) (get_or val i 0))

-- What the packed floating-point operations use of Go's float32 or float64.
pub record Floats {ℓ} : Type (ℓ + 1) where
  pub Float : Type ℓ
  pub zero_value : Float
  pub add_float : Float → Float → Float
  pub sub_float : Float → Float → Float
  pub mul_float : Float → Float → Float
  pub div_float : Float → Float → Float

-- The loops over the lanes of F32x4 (n = 4) and F64x2 (n = 2).
module _ {ℓ} (F : Floats {ℓ}) where
  unfoldable pub add_floats :
      ℕ → List (Floats.Float F) → List (Floats.Float F) → List (Floats.Float F)
  unfolding for_lanes
  add_floats n x y =
      for_lanes n F.zero_value
        (λ i _. F.add_float (get_or x i F.zero_value) (get_or y i F.zero_value))

  unfoldable pub sub_floats :
      ℕ → List (Floats.Float F) → List (Floats.Float F) → List (Floats.Float F)
  unfolding for_lanes
  sub_floats n x y =
      for_lanes n F.zero_value
        (λ i _. F.sub_float (get_or x i F.zero_value) (get_or y i F.zero_value))

  unfoldable pub mul_floats :
      ℕ → List (Floats.Float F) → List (Floats.Float F) → List (Floats.Float F)
  unfolding for_lanes
  mul_floats n x y =
      for_lanes n F.zero_value
        (λ i _. F.mul_float (get_or x i F.zero_value) (get_or y i F.zero_value))

  unfoldable pub div_floats :
      ℕ → List (Floats.Float F) → List (Floats.Float F) → List (Floats.Float F)
  unfolding for_lanes
  div_floats n x y =
      for_lanes n F.zero_value
        (λ i _. F.div_float (get_or x i F.zero_value) (get_or y i F.zero_value))
