-- ===== src/Types/Operand.antt =====
-- codegen/sizeinfo.go: tests on types, signedness, and the operand type of a Go type.
use gensimd.Common.{
  ℕ, Bool, true, false, ◌||◌, Option, none, some, Result, ok, fault, ice, panics, ◌>>=◌,
  if◌then◌else◌,
}
use gensimd.Types.{
  BasicKind, bool, int, int8, int16, int32, int64, uint, uint8, uint16, uint32, uint64, float32,
  float64, complex64, complex128, other_kind, GoType, basic, slice, array, named, op_data, op_xmm,
  xmm_invalid, xmm_f32, xmm_f64, OpDataType, SimdType, simd_info, sse2_info, is_simd, is_sse2,
  sizeof, size_ptr,
}

unfoldable pub is_uint : GoType → Bool
is_uint (basic uint) = true
is_uint (basic uint8) = true
is_uint (basic uint16) = true
is_uint (basic uint32) = true
is_uint (basic uint64) = true
is_uint t = false

unfoldable pub is_int : GoType → Bool
is_int (basic int) = true
is_int (basic int8) = true
is_int (basic int16) = true
is_int (basic int32) = true
is_int (basic int64) = true
is_int t = false

unfoldable pub is_integer : GoType → Bool
unfolding is_uint is_int
is_integer t = is_uint t || is_int t

unfoldable pub is_bool : GoType → Bool
is_bool (basic bool) = true
is_bool t = false

unfoldable pub is_float32 : GoType → Bool
is_float32 (basic float32) = true
is_float32 t = false

unfoldable pub is_float64 : GoType → Bool
is_float64 (basic float64) = true
is_float64 t = false

unfoldable pub is_float : GoType → Bool
unfolding is_float32 is_float64
is_float t = is_float32 t || is_float64 t

unfoldable pub is_complex : GoType → Bool
is_complex (basic complex64) = true
is_complex (basic complex128) = true
is_complex t = false

unfoldable pub is_basic : GoType → Bool
is_basic (basic k) = true
is_basic t = false

unfoldable pub is_slice : GoType → Bool
is_slice (slice t) = true
is_slice t = false

unfoldable pub is_xmm : GoType → Bool
unfolding is_sse2 is_simd is_float
is_xmm t = is_sse2 t || (is_simd t || is_float t)

unfoldable pub signed_basic : BasicKind → Result Bool
signed_basic bool = ok false
signed_basic int = ok true
signed_basic int8 = ok true
signed_basic int16 = ok true
signed_basic int32 = ok true
signed_basic int64 = ok true
signed_basic uint = ok false
signed_basic uint8 = ok false
signed_basic uint16 = ok false
signed_basic uint32 = ok false
signed_basic uint64 = ok false
signed_basic float32 = ok true
signed_basic float64 = ok true
signed_basic complex64 = ice
signed_basic complex128 = ice
signed_basic other_kind = ice

unfoldable pub signed : GoType → Result Bool
unfolding signed_basic
signed (basic k) = signed_basic k
signed t = ice

unfoldable pub sizeof_elem : GoType → Result ℕ
unfolding sizeof simd_info
sizeof_elem (slice t) = sizeof t
sizeof_elem (array n t) = sizeof t
sizeof_elem (named name) = elim (simd_info (named name)) [
  | none ↦ ice
  | some s ↦ ok (SimdType.elem_size s)
]
sizeof_elem t = ice

abbrev pub b_instr_data : OpDataType
b_instr_data = record { op = op_data; size = 1; signed = false; xmmvariant = xmm_invalid }

abbrev pub f32_instr_data : OpDataType
f32_instr_data = record { op = op_xmm; size = 16; signed = false; xmmvariant = xmm_f32 }

abbrev pub f64_instr_data : OpDataType
f64_instr_data = record { op = op_xmm; size = 16; signed = false; xmmvariant = xmm_f64 }

abbrev pub get_integer_op_data_type : Bool → ℕ → OpDataType
get_integer_op_data_type signed size = record {
  op = op_data;
  size = size;
  signed = signed;
  xmmvariant = xmm_invalid;
}

-- The tests of `GetOpDataType` behind those for booleans, floats and complex numbers.
abbrev pub basic_or_slice : GoType → Result OpDataType
basic_or_slice t =
    if is_basic t
    then (signed t >>= λ s. sizeof t >>= λ n. ok (get_integer_op_data_type s n))
    else if is_slice t
    then ok (get_integer_op_data_type false size_ptr)
    else ice

abbrev pub vector_or : Option SimdType → Option SimdType → Result OpDataType → Result OpDataType
vector_or (some s) sse2 other = ok (SimdType.optype s)
vector_or none (some s) other = ok (SimdType.optype s)
vector_or none none other = other

unfoldable pub get_op_data_type : GoType → Result OpDataType
unfolding is_bool is_float32 is_float64 is_complex simd_info sse2_info is_basic signed sizeof
    is_slice
get_op_data_type t =
    if is_bool t
    then ok b_instr_data
    else if is_float32 t
    then ok f32_instr_data
    else if is_float64 t
    then ok f64_instr_data
    else if is_complex t
    then fault panics
    else vector_or (simd_info t) (sse2_info t) (basic_or_slice t)
