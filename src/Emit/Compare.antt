-- ===== src/Emit/Compare.antt =====
-- codegen/instramd64.go: comparisons.
use gensimd.Common.{ℕ, false, not, ◌++◌, Option, Result, ok, ice, if◌then◌else◌, ◌==◌}
use gensimd.Reg.{Register}
use gensimd.Types.{OpDataType}
use gensimd.Instr.Entry.{Instruction}
use gensimd.Instr.Forms.{i_cmp}
use gensimd.Instr.Select.{get_instr}
use gensimd.Function.{Location}
use gensimd.State.{Asm, M, pure, ◌>>=◌, ◌>>◌, lift, ice_when, RegRef, get_ref}
use gensimd.Emit.Write.{instr_reg, instr_reg_imm32, data_type}
use gensimd.Emit.Move.{is_op_xmm}
use gensimd.Emit.Arith.{
  Token, add, sub, mul, quo, rem, and_token, or_token, xor_token, shl, shr, and_not, eql, neq, leq,
  geq, lss, gtr, other_token, same_width, combine_reg_reg,
}

abbrev pub cmp_reg_reg : Option Location → OpDataType → RegRef → RegRef → M Asm
cmp_reg_reg loc odt x y = combine_reg_reg i_cmp loc odt x y false

unfoldable pub cmp_reg_imm32 : Option Location → RegRef → ℕ → ℕ → M Asm
unfolding instr_reg_imm32
cmp_reg_imm32 loc r imm32 size = do
  x ← get_ref r
  ice_when (not (Register.width x == 64))
  cmp ← lift (get_instr i_cmp (data_type false size))
  instr_reg_imm32 loc cmp r imm32 size false

-- The instruction for a floating-point comparison, a signed one and an unsigned one.
abbrev pub by_kind : OpDataType → Instruction → Instruction → Instruction → Instruction
by_kind data_type xmm signed unsigned =
    if is_op_xmm data_type.op then xmm else if data_type.signed then signed else unsigned

unfoldable pub set_instr : OpDataType → Token → Result Instruction
set_instr data_type eql = ok "SETEQ"
set_instr data_type neq = ok "SETNE"
set_instr data_type leq = ok (by_kind data_type "SETCC" "SETLE" "SETLS")
set_instr data_type geq = ok (by_kind data_type "SETLS" "SETGE" "SETCC")
set_instr data_type lss = ok (by_kind data_type "SETHI" "SETLT" "SETCS")
set_instr data_type gtr = ok (by_kind data_type "SETCS" "SETGT" "SETHI")
set_instr data_type add = ice
set_instr data_type sub = ice
set_instr data_type mul = ice
set_instr data_type quo = ice
set_instr data_type rem = ice
set_instr data_type and_token = ice
set_instr data_type or_token = ice
set_instr data_type xor_token = ice
set_instr data_type shl = ice
set_instr data_type shr = ice
set_instr data_type and_not = ice
set_instr data_type other_token = ice

unfoldable pub cmp_op : Option Location → OpDataType → Token → RegRef → RegRef → RegRef → M Asm
unfolding same_width combine_reg_reg instr_reg
cmp_op loc data_type op x y result = do
  same_width y x
  a ← cmp_reg_reg loc data_type x y
  set ← lift (set_instr data_type op)
  b ← instr_reg loc set result false
  pure (a ++ b)
