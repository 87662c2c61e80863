-- ===== src/Types.antt =====
-- codegen/sizeinfo.go: sizes, alignments and operand types of Go types on amd64. A named type is
-- known by its name alone, as in the source.
pub mod Operand
use text.Mathlib.Text.{◌==◌ as str_eq}
use gensimd.Common.{
  ℕ, suc, ◌*◌, Bool, true, false, ◌||◌, List, [], ◌∷◌, Option, none, some, String, Result, ok,
  fault, ice, Fault, panics, ◌>>=◌, ◌>>◌, if◌then◌else◌,
}

-- The kinds of go/types that the source tells apart; `other_kind` stands for the others (strings,
-- untyped constants, unsafe pointers, uintptr).
pub data BasicKind : Type 0 where
  bool int int8 int16 int32 int64 : BasicKind
  uint uint8 uint16 uint32 uint64 : BasicKind
  float32 float64 complex64 complex128 other_kind : BasicKind

pub data GoType : Type 0 where
  tuple other_type : GoType
  basic : BasicKind → GoType
  pointer : GoType → GoType
  slice : GoType → GoType
  array : ℕ → GoType → GoType
  named : String → GoType

pub data InstrOpType : Type 0 where
  op_invalid op_data op_xmm op_packed : InstrOpType

-- The integer variants (I8X16 and so on) are the same constants in the source.
pub data XmmData : Type 0 where
  xmm_invalid xmm_f32 xmm_f64 xmm_4x_f32 xmm_2x_f64 : XmmData

pub record OpDataType : Type 0 where
  pub op : InstrOpType
  pub size : ℕ
  pub signed : Bool
  pub xmmvariant : XmmData

-- `simdtype` and `sse2type`, whose fields are the same.
pub record SimdType : Type 0 where
  pub name : String
  pub size : ℕ
  pub elem_size : ℕ
  pub align : ℕ
  pub optype : OpDataType

abbrev vector : String → ℕ → InstrOpType → XmmData → SimdType
vector name elem op variant = record {
  name = name;
  size = 16;
  elem_size = elem;
  align = 16;
  optype = record { op = op; size = 16; signed = false; xmmvariant = variant };
}

unfoldable pub simd_types : List SimdType
simd_types =
    vector "I8x16" 1 op_packed xmm_f32
    ∷ vector "I16x8" 2 op_packed xmm_f64
    ∷ vector "I32x4" 4 op_packed xmm_4x_f32
    ∷ vector "I64x2" 8 op_packed xmm_2x_f64
    ∷ vector "U8x16" 1 op_packed xmm_f32
    ∷ vector "U16x8" 2 op_packed xmm_f64
    ∷ vector "U32x4" 4 op_packed xmm_4x_f32
    ∷ vector "U64x2" 8 op_packed xmm_2x_f64
    ∷ vector "F32x4" 4 op_xmm xmm_4x_f32
    ∷ vector "F64x2" 8 op_xmm xmm_2x_f64
    ∷ []

unfoldable pub sse2_types : List SimdType
sse2_types =
    vector "M128" 4 op_xmm xmm_2x_f64
    ∷ vector "M128i" 1 op_packed xmm_2x_f64
    ∷ vector "M128d" 8 op_xmm xmm_2x_f64
    ∷ []

unfoldable pub find_type : String → List SimdType → Option SimdType
find_type name [] = none
find_type name (t ∷ ts) = if str_eq name t.name then some t else find_type name ts

unfoldable pub simd_info : GoType → Option SimdType
unfolding find_type simd_types
simd_info (named name) = find_type name simd_types
simd_info t = none

unfoldable pub sse2_info : GoType → Option SimdType
unfolding find_type sse2_types
sse2_info (named name) = find_type name sse2_types
sse2_info t = none

abbrev pub is_some : Option SimdType → Bool
is_some none = false
is_some (some t) = true

unfoldable pub is_simd : GoType → Bool
unfolding simd_info
is_simd t = is_some (simd_info t)

unfoldable pub is_sse2 : GoType → Bool
unfolding sse2_info
is_sse2 t = is_some (sse2_info t)

-- `reflectBasic(b).Size()`, which is also the alignment.
unfoldable pub reflect_basic : BasicKind → Result ℕ
reflect_basic bool = ok 1
reflect_basic int = ok 8
reflect_basic int8 = ok 1
reflect_basic int16 = ok 2
reflect_basic int32 = ok 4
reflect_basic int64 = ok 8
reflect_basic uint = ok 8
reflect_basic uint8 = ok 1
reflect_basic uint16 = ok 2
reflect_basic uint32 = ok 4
reflect_basic uint64 = ok 8
reflect_basic float32 = ok 4
reflect_basic float64 = ok 8
reflect_basic complex64 = ice
reflect_basic complex128 = ice
reflect_basic other_kind = ice

-- `reflectType(t)`, by its size and alignment: those of an array are its elements'.
pub record ReflectType : Type 0 where
  pub size : ℕ
  pub align : ℕ

abbrev of_simd : SimdType → ReflectType
of_simd s = record { size = s.size; align = s.elem_size }

abbrev reflect_named : Option SimdType → Option SimdType → Result ReflectType
reflect_named (some s) sse2 = ok (of_simd s)
reflect_named none (some s) = ok (of_simd s)
reflect_named none none = ice

unfoldable pub reflect_type : GoType → Result ReflectType
unfolding reflect_basic find_type simd_types sse2_types
reflect_type tuple = ice
reflect_type other_type = ice
reflect_type (basic k) = reflect_basic k >>= λ n. ok (record { size = n; align = n })
reflect_type (pointer t) = reflect_type t >>= λ _. ok (record { size = 8; align = 8 })
reflect_type (slice t) = reflect_type t >>= λ _. ok (record { size = 24; align = 8 })
reflect_type (array n t) = reflect_type t >>= λ e.
    ok (record { size = n * ReflectType.size e; align = ReflectType.align e })
reflect_type (named name) = reflect_named (find_type name simd_types) (find_type name sse2_types)

abbrev size_or_ice : Option SimdType → Option SimdType → Result ℕ
size_or_ice (some s) simd = ok s.size
size_or_ice none (some s) = ok s.size
size_or_ice none none = ice

abbrev align_or_ice : Option SimdType → Option SimdType → Result ℕ
align_or_ice (some s) simd = ok s.align
align_or_ice none (some s) = ok s.align
align_or_ice none none = ice

abbrev pub size_ptr : ℕ
size_ptr = 8

abbrev pub size_int : ℕ
size_int = 8

unfoldable pub sizeof : GoType → Result ℕ
unfolding reflect_basic reflect_type find_type simd_types sse2_types
sizeof tuple = fault panics
sizeof other_type = ice
sizeof (basic k) = reflect_basic k
sizeof (pointer t) = ok size_ptr
sizeof (slice t) = reflect_type (slice t) >>= λ r. ok (ReflectType.size r)
sizeof (array n t) = reflect_type (array n t) >>= λ r. ok (ReflectType.size r)
sizeof (named name) = size_or_ice (find_type name sse2_types) (find_type name simd_types)

unfoldable pub align : GoType → Result ℕ
unfolding reflect_type find_type simd_types sse2_types
align tuple = ok 8
align other_type = ice
align (named name) = align_or_ice (find_type name sse2_types) (find_type name simd_types)
align (basic k) = reflect_type (basic k) >>= λ r. ok (ReflectType.align r)
align (pointer t) = reflect_type (pointer t) >>= λ r. ok (ReflectType.align r)
align (slice t) = reflect_type (slice t) >>= λ r. ok (ReflectType.align r)
align (array n t) = reflect_type (array n t) >>= λ r. ok (ReflectType.align r)
