-- ===== src/Packed.antt =====
-- codegen/simdintrinsics.go: from a packed operation of the simd package to its instruction.
pub mod Table
pub mod Operations
pub mod Shuffle
use text.Mathlib.Text.{◌==◌ as str_eq}
use gensimd.Common.{
  Bool, true, false, not, ◌&&◌, List, [], ◌∷◌, Option, none, some, String, Result, ok, fault,
  if◌then◌else◌,
}
use gensimd.Types.{GoType, XmmData, OpDataType}
use gensimd.Types.Operand.{get_op_data_type}
use gensimd.Instr.Entry.{Instruction}
use gensimd.Instr.Forms.{
  InstructionType, i_add, i_div, i_mul, i_padd, i_pimul, i_psll, i_psra, i_psrl, i_psub, i_sub,
}
use gensimd.Instr.Select.{get_xmm_instruction, select}

-- `simdToGoAsm`, with an operation as the name that its String method gives.
unfoldable pub simd_to_go_asm : List (String × InstructionType)
simd_to_go_asm =
    ("AddI8x16", i_padd)
    ∷ ("SubI8x16", i_psub)
    ∷ ("AddI16x8", i_padd)
    ∷ ("SubI16x8", i_psub)
    ∷ ("MulI16x8", i_pimul)
    ∷ ("ShlI16x8", i_psll)
    ∷ ("ShrI16x8", i_psra)
    ∷ ("AddI32x4", i_padd)
    ∷ ("SubI32x4", i_psub)
    ∷ ("ShlI32x4", i_psll)
    ∷ ("ShrI32x4", i_psra)
    ∷ ("AddI64x2", i_padd)
    ∷ ("SubI64x2", i_psub)
    ∷ ("AddU8x16", i_padd)
    ∷ ("SubU8x16", i_psub)
    ∷ ("AddU16x8", i_padd)
    ∷ ("SubU16x8", i_psub)
    ∷ ("MulU16x8", i_pimul)
    ∷ ("ShlU16x8", i_psll)
    ∷ ("AddU32x4", i_padd)
    ∷ ("SubU32x4", i_psub)
    ∷ ("ShlU32x4", i_psll)
    ∷ ("ShrU32x4", i_psrl)
    ∷ ("AddU64x2", i_padd)
    ∷ ("SubU64x2", i_psub)
    ∷ ("AddF32x4", i_add)
    ∷ ("SubF32x4", i_sub)
    ∷ ("MulF32x4", i_mul)
    ∷ ("DivF32x4", i_div)
    ∷ ("AddF64x2", i_add)
    ∷ ("SubF64x2", i_sub)
    ∷ ("MulF64x2", i_mul)
    ∷ ("DivF64x2", i_div)
    ∷ []

unfoldable pub find_simd_instr : String → List (String × InstructionType) → Option InstructionType
find_simd_instr name [] = none
find_simd_instr name (row ∷ rows) =
    if str_eq row.0 name then some row.1 else find_simd_instr name rows

unfoldable pub get_simd_instr : String → Option InstructionType
unfolding find_simd_instr simd_to_go_asm
get_simd_instr name = find_simd_instr name simd_to_go_asm

-- The first line of `packedOp`.
unfoldable pub packed_instr : InstructionType → XmmData → Result Instruction
unfolding get_xmm_instruction select
packed_instr instrtype optypes = elim (get_xmm_instruction instrtype) [
  | fault e ↦ fault e
  | ok x ↦ select x optypes
]

-- The instruction that `SimdIntrinsic` has `packedOp` write for an operand of the type.
unfoldable pub simd_intrinsic_instr : InstructionType → GoType → Result Instruction
unfolding packed_instr get_op_data_type
simd_intrinsic_instr simdinstr typ = elim (get_op_data_type typ) [
  | fault e ↦ fault e
  | ok optypes ↦ packed_instr simdinstr (OpDataType.xmmvariant optypes)
]
