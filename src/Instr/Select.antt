-- ===== src/Instr/Select.antt =====
-- codegen/instramd64.go: from an instruction type and an operand type to the instruction.
use text.Mathlib.Text.{◌==◌ as str_eq}
use gensimd.Common.{
  ℕ, Bool, true, false, ◌&&◌, List, [], ◌∷◌, Result, ok, ice, ◌>>=◌, if◌then◌else◌, ◌==◌, leb,
}
use gensimd.Types.{
  XmmData, xmm_invalid, xmm_f32, xmm_f64, xmm_4x_f32, xmm_2x_f64, OpDataType, InstrOpType,
  op_invalid, op_data, op_xmm, op_packed,
}
use gensimd.Instr.Entry.{Instruction}
use gensimd.Instr.Forms.{
  InstructionType, iota, DataInstruction, XmmInstruction, insts, xmm_insts, i_cvt_float2int,
  i_cvt_int2float, i_cvt_float2float,
}

-- `instr == NONE` is an internal error.
abbrev pub not_none : Instruction → Result Instruction
not_none instr = if str_eq instr "NONE" then ice else ok instr

abbrev form_of_size : DataInstruction → ℕ → Instruction
form_of_size inst size =
    if size == 1
    then inst.byte_sized
    else if size == 2
    then inst.word_sized
    else if size == 4
    then inst.long_sized
    else if size == 8
    then inst.quad_sized
    else if size == 16
    then inst.oct_sized
    else "NONE"

unfoldable pub get_sized : DataInstruction → ℕ → Result Instruction
get_sized inst size = not_none (form_of_size inst size)

abbrev form_of_variant : XmmInstruction → XmmData → Instruction
form_of_variant xinstr xmm_invalid = "NONE"
form_of_variant xinstr xmm_f32 = xinstr.f32
form_of_variant xinstr xmm_f64 = xinstr.f64
form_of_variant xinstr xmm_4x_f32 = xinstr.f32x4
form_of_variant xinstr xmm_2x_f64 = xinstr.f64x2

unfoldable pub select : XmmInstruction → XmmData → Result Instruction
select xinstr variant = not_none (form_of_variant xinstr variant)

unfoldable pub find_inst : InstructionType → List DataInstruction → Result DataInstruction
find_inst tinst [] = ice
find_inst tinst (inst ∷ rest) =
    if iota inst.t_instr == iota tinst then ok inst else find_inst tinst rest

unfoldable pub get_instruction : InstructionType → Result DataInstruction
unfolding find_inst insts
get_instruction tinst = find_inst tinst insts

unfoldable pub find_xmm_inst : InstructionType → List XmmInstruction → Result XmmInstruction
find_xmm_inst tinst [] = ice
find_xmm_inst tinst (inst ∷ rest) =
    if iota inst.xmm_instr == iota tinst then ok inst else find_xmm_inst tinst rest

unfoldable pub get_xmm_instruction : InstructionType → Result XmmInstruction
unfolding find_xmm_inst xmm_insts
get_xmm_instruction tinst = find_xmm_inst tinst xmm_insts

abbrev pub is_xmm_op : InstrOpType → Bool
is_xmm_op op_invalid = false
is_xmm_op op_data = false
is_xmm_op op_xmm = true
is_xmm_op op_packed = true

unfoldable pub get_instr : InstructionType → OpDataType → Result Instruction
unfolding get_xmm_instruction select get_instruction get_sized
get_instr tinst datatype =
    if is_xmm_op datatype.op
    then (get_xmm_instruction tinst >>= λ x. select x datatype.xmmvariant)
    else (get_instruction tinst >>= λ inst. get_sized inst datatype.size)

unfoldable pub float_to_int : ℕ → ℕ → Result Instruction
float_to_int fromsize tosize =
    if (fromsize == 4) && leb tosize 4
    then ok "CVTTSS2SL"
    else if (fromsize == 4) && (tosize == 8)
    then ok "CVTTSS2SQ"
    else if (fromsize == 8) && leb tosize 4
    then ok "CVTTSD2SL"
    else if (fromsize == 8) && (tosize == 8)
    then ok "CVTTSD2SQ"
    else ice

unfoldable pub int_to_float : ℕ → ℕ → Result Instruction
int_to_float fromsize tosize =
    if (fromsize == 4) && (tosize == 4)
    then ok "CVTSL2SS"
    else if (fromsize == 4) && (tosize == 8)
    then ok "CVTSL2SD"
    else if (fromsize == 8) && (tosize == 4)
    then ok "CVTSQ2SS"
    else if (fromsize == 8) && (tosize == 8)
    then ok "CVTSQ2SD"
    else ice

unfoldable pub float_to_float : ℕ → ℕ → Result Instruction
float_to_float fromsize tosize =
    if (fromsize == 4) && (tosize == 8)
    then ok "CVTSS2SD"
    else if (fromsize == 8) && (tosize == 4)
    then ok "CVTSD2SS"
    else ice

unfoldable pub get_convert_instruction : InstructionType → ℕ → ℕ → Result Instruction
unfolding float_to_int int_to_float float_to_float
get_convert_instruction i_cvt_float2int fromsize tosize = float_to_int fromsize tosize
get_convert_instruction i_cvt_int2float fromsize tosize = int_to_float fromsize tosize
get_convert_instruction i_cvt_float2float fromsize tosize = float_to_float fromsize tosize
get_convert_instruction tinst fromsize tosize = ice

unfoldable pub xmm_instr_data_size : XmmData → Result ℕ
xmm_instr_data_size xmm_f32 = ok 4
xmm_instr_data_size xmm_f64 = ok 8
xmm_instr_data_size xmm_4x_f32 = ok 16
xmm_instr_data_size xmm_2x_f64 = ok 16
xmm_instr_data_size xmm_invalid = ice
