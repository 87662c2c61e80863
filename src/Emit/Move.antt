-- ===== src/Emit/Move.antt =====
-- codegen/instramd64.go: moves between registers and memory, constants, and extensions.
use gensimd.Common.{
  ℕ, ◌%◌, Bool, true, false, not, ◌&&◌, ◌||◌, ◌∷◌, ◌++◌, Option, none, String, Result, ok, fault,
  ice, if◌then◌else◌, ◌==◌, leb,
}
use gensimd.Common.Int.{ℤ, pos}
use gensimd.Reg.{Register, xmm_reg, same_type, reg_size}
use gensimd.Types.{
  OpDataType, InstrOpType, op_invalid, op_data, op_xmm, op_packed, xmm_f64, xmm_2x_f64,
}
use gensimd.Types.Operand.{get_integer_op_data_type}
use gensimd.Instr.Entry.{Instruction}
use gensimd.Instr.Forms.{
  InstructionType, i_mov, i_pmov, i_movbzx, i_movwzx, i_movlzx, i_movbsx, i_movwsx, i_movlsx, i_xor,
  i_lea,
}
use gensimd.Instr.Select.{get_instr}
use gensimd.Function.{Location}
use gensimd.State.{imm_reg, Asm, M, pure, ◌>>=◌, ◌>>◌, lift, ice_when, RegRef, get_ref}
use gensimd.Storage.{is_packed, instr_reg_mem}
use gensimd.Emit.Write.{instr_reg_reg, instr_mem_reg, instr_imm_reg, narrow, truncate, data_type}

abbrev pub is_op_data : InstrOpType → Bool
is_op_data op_data = true
is_op_data op_xmm = false
is_op_data op_packed = false
is_op_data op_invalid = false

abbrev pub is_op_xmm : InstrOpType → Bool
is_op_xmm op_xmm = true
is_op_xmm op_data = false
is_op_xmm op_packed = false
is_op_xmm op_invalid = false

abbrev pub in_xmm : Register → Bool
in_xmm r = same_type r.typ xmm_reg

-- What `ZeroReg` clears.
abbrev pub zero_type : Register → OpDataType
zero_type r =
    if in_xmm r
    then record { op = op_xmm; size = 0; signed = false; xmmvariant = xmm_2x_f64 }
    else data_type false (reg_size r)

unfoldable pub zero_reg : Option Location → RegRef → M Asm
unfolding instr_reg_reg
zero_reg loc r = do
  x ← get_ref r
  xor ← lift (get_instr i_xor (zero_type x))
  instr_reg_reg loc xor r r false

abbrev pub mov_choice : OpDataType → Register → Register → Result Instruction
mov_choice datatype src dst =
    if in_xmm src && in_xmm dst
    then ok "MOVO"
    else if in_xmm src || in_xmm dst
    then ok "MOVQ"
    else get_instr i_mov datatype

unfoldable pub mov_reg_reg : Option Location → OpDataType → RegRef → RegRef → Bool → M Asm
unfolding instr_reg_reg
mov_reg_reg loc datatype src dst spills = do
  s ← get_ref src
  d ← get_ref dst
  ice_when (not (s.width == d.width) && same_type s.typ d.typ)
  mov ← lift (mov_choice datatype s d)
  instr_reg_reg loc mov src dst spills

-- The move of `MovMemReg` for an operand that is not packed: values that are smaller than the
-- register are extended with zeros.
unfoldable pub load_type : OpDataType → ℕ → Result InstructionType
load_type datatype dst_size =
    if leb dst_size datatype.size || is_op_xmm datatype.op
    then ok i_mov
    else if datatype.size == 1
    then ok i_movbzx
    else if datatype.size == 2
    then ok i_movwzx
    else if datatype.size == 4
    then ok i_movlzx
    else ice

unfoldable pub load_instr : OpDataType → ℕ → Result Instruction
unfolding load_type
load_instr datatype dst_size =
    if is_packed datatype.op
    then get_instr i_pmov datatype
    else elim (load_type datatype dst_size) [
      | fault e ↦ fault e
      | ok itype ↦ get_instr itype (record datatype { size = dst_size })
    ]

unfoldable pub mov_mem_reg :
    Option Location → OpDataType → String → ℤ → RegRef → RegRef → Bool → M Asm
unfolding load_instr instr_mem_reg
mov_mem_reg loc datatype src_name src_offset src dst spills = do
  d ← get_ref dst
  mov ← lift (load_instr datatype (reg_size d))
  instr_mem_reg loc mov src_name src_offset src dst spills

abbrev pub whole_vector : OpDataType
whole_vector = record { op = op_packed; size = 16; signed = false; xmmvariant = xmm_f64 }

unfoldable pub mov_mem_mem :
    InstrOpType → String → ℤ → RegRef → String → ℤ → RegRef → ℕ → RegRef → M Asm
unfolding instr_mem_reg instr_reg_mem
mov_mem_mem optype src_name src_offset src dst_name dst_offset dst size tmp = do
  s ← get_ref src
  d ← get_ref dst
  ice_when (not (s.width == 64) || not (d.width == 64))
  ice_when (not (size % 8 == 0))
  mov ← lift (
      if is_packed optype
      then get_instr i_pmov whole_vector
      else get_instr i_mov (get_integer_op_data_type false size))
  a ← instr_mem_reg none mov src_name src_offset src tmp false
  b ← instr_reg_mem mov tmp dst dst_name dst_offset
  pure (a ++ b)

unfoldable pub mov_imm_reg : Option Location → ℤ → ℕ → RegRef → Bool → M Asm
unfolding instr_imm_reg
mov_imm_reg loc imm size dst spills = do
  d ← get_ref dst
  ice_when (narrow d size)
  mov ← lift (get_instr i_mov (data_type true size))
  instr_imm_reg loc mov (truncate size imm) size dst spills

abbrev pub mov_imm8_reg : Option Location → ℤ → RegRef → Bool → M Asm
mov_imm8_reg loc imm8 dst spills = mov_imm_reg loc imm8 1 dst spills

abbrev pub mov_imm32_reg : Option Location → ℤ → RegRef → Bool → M Asm
mov_imm32_reg loc imm32 dst spills = mov_imm_reg loc imm32 4 dst spills

-- `instrImmFloatReg`, for the bits that math.Float64bits or math.Float32bits gives: the constant is
-- written to `tmp`, which is not marked as changed, and moved from there.
unfoldable pub instr_imm_float_reg :
    Option Location → Instruction → ℕ → RegRef → RegRef → Bool → M Asm
unfolding instr_reg_reg
instr_imm_float_reg loc instr fbits dst tmp spills = do
  d ← get_ref dst
  t ← get_ref tmp
  ice_when (not (in_xmm d))
  mov ← lift (get_instr i_mov (data_type false 8))
  asm ← instr_reg_reg loc mov tmp dst spills
  pure (imm_reg instr (pos fbits) (Register.name t) ∷ asm)

unfoldable pub mov_imm_float_reg : Option Location → ℕ → RegRef → RegRef → Bool → M Asm
unfolding instr_imm_float_reg
mov_imm_float_reg loc fbits tmp dst spills = do
  t ← get_ref tmp
  mov ← lift (get_instr i_mov (data_type false (reg_size t)))
  instr_imm_float_reg loc mov fbits dst tmp spills

-- A size of none of these is the zero Instruction.
abbrev pub cmov_of : ℕ → Instruction
cmov_of size =
    if size == 1
    then "CMOVWCC"
    else if size == 2
    then "CMOVWCC"
    else if size == 4
    then "CMOVLCC"
    else if size == 8
    then "CMOVQCC"
    else "NONE"

unfoldable pub cmov_cc_reg_reg : Option Location → RegRef → RegRef → ℕ → Bool → M Asm
unfolding instr_reg_reg
cmov_cc_reg_reg loc src dst size spills = instr_reg_reg loc (cmov_of size) src dst spills

unfoldable pub lea : Option Location → String → ℤ → RegRef → RegRef → Bool → M Asm
unfolding instr_mem_reg
lea loc src_name src_offset src dst spills = do
  s ← get_ref src
  d ← get_ref dst
  ice_when (not (s.width == d.width))
  instr ← lift (get_instr i_lea (data_type false (reg_size s)))
  instr_mem_reg loc instr src_name src_offset src dst spills

abbrev pub zero_extend_type : ℕ → Result InstructionType
zero_extend_type size =
    if size == 1
    then ok i_movbzx
    else if size == 2
    then ok i_movwzx
    else if size == 4
    then ok i_movlzx
    else ice

abbrev pub sign_extend_type : ℕ → Result InstructionType
sign_extend_type size =
    if size == 1
    then ok i_movbsx
    else if size == 2
    then ok i_movwsx
    else if size == 4
    then ok i_movlsx
    else ice

abbrev pub is_size : ℕ → Bool
is_size n = (n == 1) || ((n == 2) || ((n == 4) || (n == 8)))

unfoldable pub mov_zero_extend : Option Location → RegRef → RegRef → ℕ → ℕ → Bool → M Asm
unfolding instr_reg_reg
mov_zero_extend loc src dst src_size dst_size spills = do
  movzx ← lift (zero_extend_type src_size)
  ice_when (leb dst_size src_size || not (is_size dst_size))
  instr ← lift (get_instr movzx (data_type false dst_size))
  instr_reg_reg loc instr src dst spills

unfoldable pub mov_sign_extend : Option Location → RegRef → RegRef → ℕ → ℕ → Bool → M Asm
unfolding instr_reg_reg
mov_sign_extend loc src dst src_size dst_size spills = do
  movsx ← lift (sign_extend_type src_size)
  instr ← lift (get_instr movsx (data_type false dst_size))
  instr_reg_reg loc instr src dst spills
