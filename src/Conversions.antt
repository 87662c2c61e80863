-- ===== src/Conversions.antt =====
-- codegen/codegen.go: conversions between integers and floating-point numbers.
pub mod Sides
use gensimd.Common.{
  ℕ, ◌+◌, Bool, true, false, ◌&&◌, List, [], ◌∷◌, ◌++◌, Option, none, some, String, Result, ok, ice,
  unsupported, if◌then◌else◌, ◌==◌,
}
use gensimd.Common.Int.{pos, negsuc}
use gensimd.Reg.{Register, data_reg}
use gensimd.Types.{
  GoType, InstrOpType, op_data, op_xmm, XmmData, xmm_invalid, xmm_f32, xmm_f64, OpDataType,
  size_int,
}
use gensimd.Types.Operand.{is_integer, is_float, is_float32, is_float64, is_uint, signed}
use gensimd.Instr.Entry.{Instruction}
use gensimd.Function.{Function, Identifier, Location}
use gensimd.State.{
  Asm, Label, numbered, reg_reg, imm_reg, reg_int, jump, label, M, pure, ◌>>=◌, ◌>>◌, lift, get_reg,
  slot,
}
use gensimd.Storage.{get_ident}
use gensimd.Alloc.{alloc_reg, free_reg}
use gensimd.Load.{alloc_ident_reg}
use gensimd.Load.Constant.{Const}
use gensimd.Emit.Convert.{convert_op}
use gensimd.Translate.{size_of, load_whole, store_value}

unfoldable pub get_xmm_variant : GoType → XmmData
unfolding is_float32 is_float64
get_xmm_variant t = if is_float32 t then xmm_f32 else if is_float64 t then xmm_f64 else xmm_invalid

-- The kind of a side of a conversion, with its variant.
abbrev pub Side : Type 0
Side = InstrOpType × XmmData

unfoldable pub convert_sides : GoType → GoType → Result (Side × Side)
unfolding is_integer is_float get_xmm_variant
convert_sides from to =
    if is_integer from && is_integer to
    then ok ((op_data, xmm_invalid), (op_data, xmm_invalid))
    else if is_integer from && is_float to
    then ok ((op_data, xmm_invalid), (op_xmm, get_xmm_variant to))
    else if is_float from && is_integer to
    then ok ((op_xmm, get_xmm_variant from), (op_data, xmm_invalid))
    else if is_float from && is_float to
    then ok ((op_xmm, get_xmm_variant from), (op_xmm, get_xmm_variant to))
    else unsupported

unfoldable pub new_jmp_label : M Label
new_jmp_label f =
    ok (numbered (Function.jmp_labels f + 1), record f { jmp_labels = f.jmp_labels + 1 })

-- Registers by name: the number, a copy of it and two scratch ones. A number whose highest bit is
-- set is halved, with its lowest bit kept for the rounding, and the result is doubled.
unfoldable pub round_lines :
    Instruction → Instruction → Label → Label → Label → (u64 i64 tmp xmm : String) → Asm
round_lines cvt add round noround end u64 i64 tmp xmm =
    reg_int "CMPQ" u64 (negsuc 0)
    ∷ jump "JEQ" round
    ∷ reg_int "CMPQ" u64 (negsuc 0)
    ∷ jump "JGE" noround
    ∷ label round
    ∷ reg_reg "MOVQ" u64 i64
    ∷ imm_reg "SHRQ" (pos 1) i64
    ∷ reg_reg "MOVQ" u64 tmp
    ∷ imm_reg "ANDL" (pos 1) tmp
    ∷ reg_reg "ORQ" tmp i64
    ∷ reg_reg cvt i64 xmm
    ∷ reg_reg add xmm xmm
    ∷ jump "JMP" end
    ∷ label noround
    ∷ reg_reg cvt u64 xmm
    ∷ label end
    ∷ []

unfoldable pub convert_uint64_to_float : Option Location → ℕ → ℕ → ℕ → ℕ → M Asm
unfolding alloc_reg new_jmp_label round_lines free_reg
convert_uint64_to_float loc tmp u64 float float_size = do
  i64 ← alloc_reg loc data_reg 8
  round ← new_jmp_label
  noround ← new_jmp_label
  end ← new_jmp_label
  u ← get_reg u64
  i ← get_reg i64.1
  t ← get_reg tmp
  x ← get_reg float
  free_reg i64.1
  pure (
      i64.0
      ++ round_lines (if float_size == 32 then "CVTSQ2SS" else "CVTSQ2SD")
          (if float_size == 32 then "ADDSS" else "ADDSD") round noround end (Register.name u)
          (Register.name i) (Register.name t) (Register.name x))

unfoldable pub float_size : GoType → Result ℕ
unfolding is_float32 is_float64
float_size t = if is_float32 t then ok 32 else if is_float64 t then ok 64 else ice

module _ (consts : ℕ → Const) where
  unfoldable pub convert_from_to : Option Location → ℕ → ℕ → Side → Side → M Asm
  unfolding load_whole size_of alloc_ident_reg alloc_reg signed is_uint is_float float_size
      convert_uint64_to_float convert_op store_value free_reg
  convert_from_to loc m x from_side to_side = do
    from ← load_whole consts loc x
    ident ← get_ident m
    operand ← get_ident x
    size ← size_of m
    to ← alloc_ident_reg loc ident size
    tmp ← alloc_reg loc data_reg size_int
    from_signed ← lift (signed (Identifier.typ operand))
    size_x ← size_of x
    to_signed ← lift (signed (Identifier.typ ident))
    a ←
        (if is_uint (Identifier.typ operand) && size_x == 8 && is_float (Identifier.typ ident)
          then (lift (float_size (Identifier.typ ident)) >>= λ bits.
              convert_uint64_to_float loc tmp.1 from.1 to.1 bits)
          else convert_op loc (slot from.1)
              record {
                op = from_side.0;
                size = size_x;
                signed = from_signed;
                xmmvariant = from_side.1;
              }
              (slot to.1)
              record { op = to_side.0; size = size; signed = to_signed; xmmvariant = to_side.1 }
              (slot tmp.1))
    b ← store_value loc m to.1
    free_reg from.1
    free_reg to.1
    free_reg tmp.1
    pure (from.0 ++ to.0 ++ tmp.0 ++ a ++ b)

  unfoldable pub convert_instr : Option Location → ℕ → ℕ → M Asm
  unfolding convert_sides convert_from_to
  convert_instr loc m x = do
    ident ← get_ident m
    operand ← get_ident x
    sides ← lift (convert_sides (Identifier.typ operand) (Identifier.typ ident))
    convert_from_to loc m x sides.0 sides.1
