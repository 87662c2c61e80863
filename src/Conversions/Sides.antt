-- ===== src/Conversions/Sides.antt =====
-- Convert: the kinds of the two sides, and the registers that they are given.
use gensimd.Common.{
  ◌≡◌, refl, Bool, true, false, not, ◌&&◌, ◌||◌, Result, ok, fault, Fault, internal_error,
  error_message, panics, nil_dereference, out_of_fuel, arith, if◌then◌else◌,
}
use gensimd.Reg.{same_type, data_reg, xmm_reg}
use gensimd.Types.{
  GoType, tuple, other_type, basic, pointer, slice, array, named, bool, int, int8, int16, int32,
  int64, uint, uint8, uint16, uint32, uint64, float32, float64, complex64, complex128, other_kind,
  is_sse2, is_simd, sse2_info, simd_info,
}
use gensimd.Types.Operand.{is_integer, is_float, is_xmm, is_int, is_uint, is_float32, is_float64}
use gensimd.Function.{reg_type}
use gensimd.Emit.Move.{is_op_xmm}
use gensimd.Conversions.{Side, convert_sides}

abbrev pub numeric : GoType → Bool
numeric t = is_integer t || is_float t

-- The operand kind says xmm exactly where a value of the type is given an xmm register.
abbrev pub agrees : GoType → Side → Bool
agrees t side = same_type (reg_type t) (if is_op_xmm side.0 then xmm_reg else data_reg)

abbrev is_error : Fault → Bool
is_error internal_error = false
is_error error_message = true
is_error panics = false
is_error nil_dereference = false
is_error out_of_fuel = false

-- Sides for two numeric types that agree with their registers, and an error message otherwise.
abbrev pub sides_fit : GoType → GoType → Result (Side × Side) → Bool
sides_fit from to (ok s) = numeric from && (numeric to && (agrees from s.0 && agrees to s.1))
sides_fit from to (fault e) = not (numeric from && numeric to) && is_error e

integer_reg : (t : GoType) → is_integer t ≡ true → reg_type t ≡ data_reg
unfolding is_integer is_int is_uint reg_type is_xmm is_sse2 is_simd sse2_info simd_info is_float
    is_float32 is_float64
integer_reg (basic int) h = refl
integer_reg (basic int8) h = refl
integer_reg (basic int16) h = refl
integer_reg (basic int32) h = refl
integer_reg (basic int64) h = refl
integer_reg (basic uint) h = refl
integer_reg (basic uint8) h = refl
integer_reg (basic uint16) h = refl
integer_reg (basic uint32) h = refl
integer_reg (basic uint64) h = refl
integer_reg (basic bool) h = cc
integer_reg (basic complex64) h = cc
integer_reg (basic complex128) h = cc
integer_reg (basic other_kind) h = cc
integer_reg (basic float32) h = cc
integer_reg (basic float64) h = cc
integer_reg tuple h = cc
integer_reg other_type h = cc
integer_reg (pointer t) h = cc
integer_reg (slice t) h = cc
integer_reg (array n t) h = cc
integer_reg (named name) h = cc

float_reg : (t : GoType) → is_float t ≡ true → reg_type t ≡ xmm_reg
unfolding reg_type is_xmm is_sse2 is_simd sse2_info simd_info is_float is_float32 is_float64
float_reg (basic int) h = cc
float_reg (basic int8) h = cc
float_reg (basic int16) h = cc
float_reg (basic int32) h = cc
float_reg (basic int64) h = cc
float_reg (basic uint) h = cc
float_reg (basic uint8) h = cc
float_reg (basic uint16) h = cc
float_reg (basic uint32) h = cc
float_reg (basic uint64) h = cc
float_reg (basic bool) h = cc
float_reg (basic complex64) h = cc
float_reg (basic complex128) h = cc
float_reg (basic other_kind) h = cc
float_reg (basic float32) h = refl
float_reg (basic float64) h = refl
float_reg tuple h = cc
float_reg other_type h = cc
float_reg (pointer t) h = cc
float_reg (slice t) h = cc
float_reg (array n t) h = cc
float_reg (named name) h = cc

-- Convert of two types returns the kinds of its sides exactly where both types are numbers: each says
-- xmm exactly where a value of the type is given an xmm register. For other types it ends in an error
-- message.
pub convert_sides_lem : (from to : GoType) → sides_fit from to (convert_sides from to) ≡ true
unfolding convert_sides
convert_sides_lem from to =
    ground (arith, integer_reg from, integer_reg to, float_reg from, float_reg to)
