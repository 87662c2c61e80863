-- ===== src/Simd/Ops.antt =====
-- simd/simd_common.go: the functions of the package, one for each type of vector.
use gensimd.Common.{ℕ, List}
use gensimd.Simd.{
  Floats, w8, w16, w32, w64, add, sub, mul, shl, shr_signed, shr_unsigned, shl_64x2, shr_64x2,
  shuffle_32x4, add_floats, sub_floats, mul_floats, div_floats,
}

abbrev pub add_i8x16 : List ℕ → List ℕ → List ℕ
add_i8x16 x y = add w8 16 x y

abbrev pub sub_i8x16 : List ℕ → List ℕ → List ℕ
sub_i8x16 x y = sub w8 16 x y

abbrev pub add_i16x8 : List ℕ → List ℕ → List ℕ
add_i16x8 x y = add w16 8 x y

abbrev pub sub_i16x8 : List ℕ → List ℕ → List ℕ
sub_i16x8 x y = sub w16 8 x y

abbrev pub mul_i16x8 : List ℕ → List ℕ → List ℕ
mul_i16x8 x y = mul w16 8 x y

abbrev pub shl_i16x8 : List ℕ → ℕ → List ℕ
shl_i16x8 x shift = shl w16 8 x shift

abbrev pub shr_i16x8 : List ℕ → ℕ → List ℕ
shr_i16x8 x shift = shr_signed w16 8 x shift

abbrev pub add_i32x4 : List ℕ → List ℕ → List ℕ
add_i32x4 x y = add w32 4 x y

abbrev pub sub_i32x4 : List ℕ → List ℕ → List ℕ
sub_i32x4 x y = sub w32 4 x y

abbrev pub mul_i32x4 : List ℕ → List ℕ → List ℕ
mul_i32x4 x y = mul w32 4 x y

abbrev pub shl_i32x4 : List ℕ → ℕ → List ℕ
shl_i32x4 x shift = shl w32 4 x shift

abbrev pub shr_i32x4 : List ℕ → ℕ → List ℕ
shr_i32x4 x shift = shr_signed w32 4 x shift

abbrev pub shuffle_i32x4 : List ℕ → ℕ → List ℕ
shuffle_i32x4 x order = shuffle_32x4 x order

abbrev pub add_i64x2 : List ℕ → List ℕ → List ℕ
add_i64x2 x y = add w64 2 x y

abbrev pub sub_i64x2 : List ℕ → List ℕ → List ℕ
sub_i64x2 x y = sub w64 2 x y

abbrev pub shl_i64x2 : ℕ → ℕ → List ℕ
shl_i64x2 x shift = shl_64x2 x shift

abbrev pub add_u8x16 : List ℕ → List ℕ → List ℕ
add_u8x16 x y = add w8 16 x y

abbrev pub sub_u8x16 : List ℕ → List ℕ → List ℕ
sub_u8x16 x y = sub w8 16 x y

abbrev pub add_u16x8 : List ℕ → List ℕ → List ℕ
add_u16x8 x y = add w16 8 x y

abbrev pub sub_u16x8 : List ℕ → List ℕ → List ℕ
sub_u16x8 x y = sub w16 8 x y

abbrev pub mul_u16x8 : List ℕ → List ℕ → List ℕ
mul_u16x8 x y = mul w16 8 x y

abbrev pub shl_u16x8 : List ℕ → ℕ → List ℕ
shl_u16x8 x shift = shl w16 8 x shift

abbrev pub shr_u16x8 : List ℕ → ℕ → List ℕ
shr_u16x8 x shift = shr_unsigned 8 x shift

abbrev pub add_u32x4 : List ℕ → List ℕ → List ℕ
add_u32x4 x y = add w32 4 x y

abbrev pub sub_u32x4 : List ℕ → List ℕ → List ℕ
sub_u32x4 x y = sub w32 4 x y

abbrev pub mul_u32x4 : List ℕ → List ℕ → List ℕ
mul_u32x4 x y = mul w32 4 x y

abbrev pub shl_u32x4 : List ℕ → ℕ → List ℕ
shl_u32x4 x shift = shl w32 4 x shift

abbrev pub shr_u32x4 : List ℕ → ℕ → List ℕ
shr_u32x4 x shift = shr_unsigned 4 x shift

abbrev pub shuffle_u32x4 : List ℕ → ℕ → List ℕ
shuffle_u32x4 x order = shuffle_32x4 x order

abbrev pub add_u64x2 : List ℕ → List ℕ → List ℕ
add_u64x2 x y = add w64 2 x y

abbrev pub sub_u64x2 : List ℕ → List ℕ → List ℕ
sub_u64x2 x y = sub w64 2 x y

abbrev pub shl_u64x2 : ℕ → ℕ → List ℕ
shl_u64x2 x shift = shl_64x2 x shift

abbrev pub shr_u64x2 : ℕ → ℕ → List ℕ
shr_u64x2 x shift = shr_64x2 x shift

module _ {ℓ} (F : Floats {ℓ}) where
  abbrev pub add_f32x4 : List (Floats.Float F) → List (Floats.Float F) → List (Floats.Float F)
  add_f32x4 x y = add_floats F 4 x y

  abbrev pub sub_f32x4 : List (Floats.Float F) → List (Floats.Float F) → List (Floats.Float F)
  sub_f32x4 x y = sub_floats F 4 x y

  abbrev pub mul_f32x4 : List (Floats.Float F) → List (Floats.Float F) → List (Floats.Float F)
  mul_f32x4 x y = mul_floats F 4 x y

  abbrev pub div_f32x4 : List (Floats.Float F) → List (Floats.Float F) → List (Floats.Float F)
  div_f32x4 x y = div_floats F 4 x y

  abbrev pub add_f64x2 : List (Floats.Float F) → List (Floats.Float F) → List (Floats.Float F)
  add_f64x2 x y = add_floats F 2 x y

  abbrev pub sub_f64x2 : List (Floats.Float F) → List (Floats.Float F) → List (Floats.Float F)
  sub_f64x2 x y = sub_floats F 2 x y

  abbrev pub mul_f64x2 : List (Floats.Float F) → List (Floats.Float F) → List (Floats.Float F)
  mul_f64x2 x y = mul_floats F 2 x y

  abbrev pub div_f64x2 : List (Floats.Float F) → List (Floats.Float F) → List (Floats.Float F)
  div_f64x2 x y = div_floats F 2 x y
