-- ===== src/Emit/Arith.antt =====
-- codegen/instramd64.go: sums, products and quotients.
use gensimd.Common.{
  ℕ, ◌*◌, Bool, true, false, not, ◌||◌, [], ◌++◌, Option, none, some, ice, if◌then◌else◌, ◌==◌, ltb,
}
use gensimd.Common.Int.{pos}
use gensimd.Reg.Names.{reg_ax, reg_dx}
use gensimd.Types.{OpDataType, InstrOpType, xmm_invalid}
use gensimd.Instr.Forms.{InstructionType, i_add, i_sub, i_mul, i_imul, i_div, i_idiv}
use gensimd.Instr.Select.{get_instr}
use gensimd.Function.{Location}
use gensimd.State.{Asm, M, pure, ◌>>=◌, ◌>>◌, lift, or_nil, ice_when, RegRef, get_ref}
use gensimd.Emit.Write.{instr_reg, instr_reg_reg, instr_imm_reg, instr_imm_reg_reg, fixed}
use gensimd.Emit.Move.{is_op_data, is_op_xmm, zero_reg, mov_reg_reg}

-- The tokens of go/token that the source tells apart.
pub data Token : Type 0 where
  add sub mul quo rem and_token or_token xor_token shl shr and_not eql neq leq geq lss gtr
        other_token :
      Token

unfoldable pub same_width : RegRef → RegRef → M (Unit {0})
same_width src dst = do s ← get_ref src; d ← get_ref dst; ice_when (not (d.width == s.width))

-- `AddRegReg` and `SubRegReg`, by the kind of instruction.
unfoldable pub combine_reg_reg :
    InstructionType → Option Location → OpDataType → RegRef → RegRef → Bool → M Asm
unfolding same_width instr_reg_reg
combine_reg_reg itype loc datatype src dst spills = do
  same_width src dst
  instr ← lift (get_instr itype datatype)
  instr_reg_reg loc instr src dst spills

abbrev pub add_reg_reg : Option Location → OpDataType → RegRef → RegRef → Bool → M Asm
add_reg_reg loc datatype src dst spills = combine_reg_reg i_add loc datatype src dst spills

abbrev pub sub_reg_reg : Option Location → OpDataType → RegRef → RegRef → Bool → M Asm
sub_reg_reg loc datatype src dst spills = combine_reg_reg i_sub loc datatype src dst spills

unfoldable pub add_imm32_reg : Option Location → ℕ → RegRef → Bool → M Asm
unfolding instr_imm_reg
add_imm32_reg loc imm32 dst spills = do
  d ← get_ref dst
  ice_when (ltb d.width 32)
  instr_imm_reg loc "ADDQ" (pos imm32) 8 dst spills

unfoldable pub sub_imm32_reg : Option Location → ℕ → RegRef → Bool → M Asm
unfolding instr_imm_reg
sub_imm32_reg loc imm32 dst spills = do
  d ← get_ref dst
  ice_when (ltb d.width 32)
  instr_imm_reg loc "SUBQ" (pos imm32) 8 dst spills

unfoldable pub mul_imm32_reg_reg : Option Location → ℕ → RegRef → RegRef → Bool → M Asm
unfolding instr_imm_reg_reg
mul_imm32_reg_reg loc imm32 src dst spills = do
  d ← get_ref dst
  ice_when (ltb d.width 32)
  instr_imm_reg_reg loc "IMUL3Q" (pos imm32) 8 src dst spills

-- An integer product goes by way of AX; one of another kind than integer or xmm writes nothing.
unfoldable pub mul_reg_reg : Option Location → OpDataType → RegRef → RegRef → Bool → M Asm
unfolding same_width fixed mov_reg_reg instr_reg instr_reg_reg
mul_reg_reg loc datatype src dst spills = do
  same_width src dst
  if is_op_data datatype.op
      then (do
        rax ← fixed reg_ax
        a ← mov_reg_reg loc datatype dst rax false
        instr ← lift (get_instr (if datatype.signed then i_imul else i_mul) datatype)
        b ← instr_reg loc instr src false
        c ← mov_reg_reg loc datatype rax dst spills
        pure (a ++ b ++ c))
      else if is_op_xmm datatype.op
      then (lift (get_instr i_mul datatype) >>= λ instr. instr_reg_reg loc instr src dst spills)
      else pure []

-- The quotient is left in AX and the remainder in DX; for one byte there is no DX, and the pointer
-- to it stays nil.
unfoldable pub div_reg_reg :
    Option Location → Bool → InstrOpType → RegRef → RegRef → ℕ → M (Asm × RegRef × Option RegRef)
unfolding fixed zero_reg mov_reg_reg instr_reg
div_reg_reg loc signed op dividend divisor size = do
  x ← get_ref dividend
  y ← get_ref divisor
  ice_when (not (x.width == y.width) || ltb y.width (size * 8))
  ice_when (not (is_op_data op))
  rax ← fixed reg_ax
  rdx ← fixed reg_dx
  a ← zero_reg loc rax
  b ← (if ltb 1 size then zero_reg loc rdx else pure [])
  let dt : OpDataType = record { op = op; size = size; signed = signed; xmmvariant = xmm_invalid }
  c ← mov_reg_reg loc dt dividend rax false
  instr ← lift (get_instr (if signed then i_idiv else i_div) dt)
  d ← instr_reg loc instr divisor false
  pure (a ++ b ++ c ++ d, rax, if ltb 1 size then some rdx else none)

unfoldable pub div_float_reg_reg : Option Location → OpDataType → RegRef → RegRef → M Asm
unfolding instr_reg_reg
div_float_reg_reg loc datatype dividend divisor = do
  x ← get_ref dividend
  y ← get_ref divisor
  ice_when (not (x.width == y.width))
  ice_when (not (is_op_xmm datatype.op))
  instr ← lift (get_instr i_div datatype)
  instr_reg_reg loc instr divisor dividend true

-- The case of `ArithOp` for a quotient or a remainder.
unfoldable pub quotient : Option Location → OpDataType → Bool → RegRef → RegRef → RegRef → M Asm
unfolding div_reg_reg mov_reg_reg div_float_reg_reg
quotient loc datatype is_quo x y result =
    if is_op_data datatype.op
    then (do
      r ← div_reg_reg loc datatype.signed datatype.op x y datatype.size
      src ← lift (or_nil (if is_quo then some r.1 else r.2))
      a ← mov_reg_reg loc datatype src result false
      pure (r.0 ++ a))
    else (do
      a ← mov_reg_reg loc datatype x result false
      b ← div_float_reg_reg loc datatype result y
      pure (a ++ b))

abbrev pub after_move : Option Location → OpDataType → RegRef → RegRef → M Asm → M Asm
after_move loc datatype x result rest =
    mov_reg_reg loc datatype x result false >>= λ a. rest >>= λ b. pure (a ++ b)

unfoldable pub arith_case : Option Location → OpDataType → Token → RegRef → RegRef → RegRef → M Asm
unfolding mov_reg_reg combine_reg_reg mul_reg_reg quotient
arith_case loc dt add x y result = after_move loc dt x result (add_reg_reg loc dt y result false)
arith_case loc dt sub x y result = after_move loc dt x result (sub_reg_reg loc dt y result false)
arith_case loc dt mul x y result = after_move loc dt x result (mul_reg_reg loc dt y result false)
arith_case loc dt quo x y result = quotient loc dt true x y result
arith_case loc dt rem x y result = quotient loc dt false x y result
arith_case loc dt and_token x y result = lift ice
arith_case loc dt or_token x y result = lift ice
arith_case loc dt xor_token x y result = lift ice
arith_case loc dt shl x y result = lift ice
arith_case loc dt shr x y result = lift ice
arith_case loc dt and_not x y result = lift ice
arith_case loc dt eql x y result = lift ice
arith_case loc dt neq x y result = lift ice
arith_case loc dt leq x y result = lift ice
arith_case loc dt geq x y result = lift ice
arith_case loc dt lss x y result = lift ice
arith_case loc dt gtr x y result = lift ice
arith_case loc dt other_token x y result = lift ice

abbrev pub three_widths : RegRef → RegRef → RegRef → M (Unit {0})
three_widths x y result = do
  a ← get_ref x
  b ← get_ref y
  c ← get_ref result
  ice_when (not (a.width == b.width) || not (a.width == c.width))

unfoldable pub arith_op : Option Location → OpDataType → Token → RegRef → RegRef → RegRef → M Asm
unfolding arith_case
arith_op loc datatype op x y result =
    three_widths x y result >> arith_case loc datatype op x y result
