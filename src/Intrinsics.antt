-- ===== src/Intrinsics.antt =====
-- codegen/codegen.go: calls, of the builtin len and of intrinsics.
use text.Mathlib.Text.{◌==◌ as str_eq}
use gensimd.Common.{
  ℕ, Bool, true, false, not, ◌&&◌, List, [], ◌∷◌, Option, none, some, String, Result, ok, fault,
  ice, panics, unsupported, if◌then◌else◌,
}
use gensimd.Types.{OpDataType}
use gensimd.Types.Operand.{get_op_data_type}
use gensimd.Instr.Forms.{InstructionType}
use gensimd.Function.{Identifier, Location}
use gensimd.State.{Asm, M, ◌>>=◌, ◌>>◌, lift, ice_when}
use gensimd.Storage.{get_ident}
use gensimd.Load.Constant.{Const}
use gensimd.Packed.{get_simd_instr}
use gensimd.Packed.Operations.{packed_op, mul_i32x4, shr_u16x8, shuf_u32x4}
use gensimd.Pointers.{len_instr}
use gensimd.Sse2.Table.{Intrinsic}
use gensimd.Sse2.{get_sse2, sse2_intrinsic}

-- The name of a builtin, and the string of its object.
pub record Builtin : Type 0 where
  pub name : String
  pub object : String

-- What go/ssa says of a call: the builtin or the static callee, and the arguments.
pub record Call : Type 0 where
  pub builtin : Option Builtin
  pub invoke : Bool
  pub callee : Option String
  pub args : List ℕ

-- The functions of the map `intrinsics`.
pub data PackedIntrinsic : Type 0 where
  mul_i32 shuffle_u32 shr_u16 : PackedIntrinsic

unfoldable pub intrinsics : List (String × PackedIntrinsic)
intrinsics =
    ("MulI32x4", mul_i32)
    ∷ ("ShuffleI32x4", shuffle_u32)
    ∷ ("MulU32x4", mul_i32)
    ∷ ("ShrU16x8", shr_u16)
    ∷ ("ShuffleU32x4", shuffle_u32)
    ∷ []

unfoldable pub find_intrinsic : String → List (String × PackedIntrinsic) → Option PackedIntrinsic
find_intrinsic name [] = none
find_intrinsic name (row ∷ rows) =
    if str_eq row.0 name then some row.1 else find_intrinsic name rows

abbrev pub or_error : Option Asm → Result Asm
or_error none = unsupported
or_error (some asm) = ok asm

unfoldable pub is_simd_intrinsic : String → Bool
unfolding get_simd_instr find_intrinsic intrinsics
is_simd_intrinsic name = elim (get_simd_instr name) [
  | some instr ↦ true
  | none ↦ elim (find_intrinsic name intrinsics) [ some intrinsic ↦ true | none ↦ false ]
]

-- `same_type` is whether go/types has one type for two identifiers; `later`, whether the Go version is
-- later than 1.6.
module _ (consts : ℕ → Const) (same_type : ℕ → ℕ → Bool) (later : Bool) where
  -- The arguments have the places that the map's functions have: shufU32x4 takes the result before
  -- the order.
  unfoldable pub call_intrinsic : Option Location → PackedIntrinsic → ℕ → ℕ → ℕ → M Asm
  unfolding mul_i32x4 shuf_u32x4 shr_u16x8
  call_intrinsic loc mul_i32 x y m = mul_i32x4 consts loc x y m
  call_intrinsic loc shuffle_u32 x y m =
      shuf_u32x4 consts loc x y m >>= λ code. lift (or_error code)
  call_intrinsic loc shr_u16 x y m = shr_u16x8 consts later loc x y m

  unfoldable pub simd_op : Option Location → InstructionType → ℕ → ℕ → ℕ → M Asm
  unfolding get_op_data_type packed_op
  simd_op loc instrtype x y m = do
    ice_when (not (same_type m x))
    operand ← get_ident x
    optypes ← lift (get_op_data_type (Identifier.typ operand))
    packed_op consts loc instrtype (OpDataType.xmmvariant optypes) y x m

  unfoldable pub simd_intrinsic : Option Location → String → ℕ → List ℕ → M Asm
  unfolding get_simd_instr simd_op find_intrinsic intrinsics call_intrinsic
  simd_intrinsic loc name m [] = lift (fault panics)
  simd_intrinsic loc name m (x ∷ []) = lift (fault panics)
  simd_intrinsic loc name m (x ∷ y ∷ rest) = elim (get_simd_instr name) [
    | some instrtype ↦ simd_op loc instrtype x y m
    | none ↦ elim (find_intrinsic name intrinsics) [
      | some intrinsic ↦ call_intrinsic loc intrinsic x y m
      | none ↦ lift ice
    ]
  ]

  unfoldable pub call_builtin : Option Location → Builtin → Bool → ℕ → List ℕ → M Asm
  unfolding len_instr
  call_builtin loc b invoke m args =
      if str_eq b.name "len" && str_eq b.object "builtin len"
      then len_instr consts loc invoke m args
      else lift unsupported

  unfoldable pub call_sse2 : Option Location → ℕ → List ℕ → Option Intrinsic → M Asm
  unfolding sse2_intrinsic
  call_sse2 loc m args (some intrinsic) = sse2_intrinsic consts loc m intrinsic args
  call_sse2 loc m args none = lift unsupported

  unfoldable pub call_function : Option Location → String → ℕ → List ℕ → M Asm
  unfolding is_simd_intrinsic simd_intrinsic get_sse2 call_sse2
  call_function loc name m args =
      if is_simd_intrinsic name
      then simd_intrinsic loc name m args
      else call_sse2 loc m args (get_sse2 name)

  unfoldable pub call_target :
      Option Location → Bool → ℕ → List ℕ → Option Builtin → Option String → M Asm
  unfolding call_builtin call_function
  call_target loc invoke m args (some b) callee = call_builtin loc b invoke m args
  call_target loc invoke m args none (some name) = call_function loc name m args
  call_target loc invoke m args none none = lift unsupported

  unfoldable pub call_instr : Option Location → Call → ℕ → M Asm
  unfolding call_target
  call_instr loc c m = call_target loc c.invoke m c.args c.builtin c.callee
