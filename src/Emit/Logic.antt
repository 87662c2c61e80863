-- ===== src/Emit/Logic.antt =====
-- codegen/instramd64.go: bitwise operations and shifts.
use gensimd.Common.{
  ℕ, ◌-◌, ◌*◌, Bool, true, false, ◌&&◌, ◌||◌, [], ◌∷◌, ◌++◌, Option, ice, if◌then◌else◌, ◌==◌, leb,
}
use gensimd.Common.Int.{ℤ, pos, negsuc}
use gensimd.Reg.{Register, reg_size}
use gensimd.Reg.Names.{reg_cl, reg_cx}
use gensimd.Instr.Entry.{Instruction}
use gensimd.Instr.Forms.{InstructionType, i_and, i_or, i_xor, i_shl, i_shr, i_sar}
use gensimd.Instr.Select.{get_instr}
use gensimd.Function.{Location}
use gensimd.State.{imm_reg, Asm, M, pure, ◌>>=◌, ◌>>◌, lift, RegRef, get_ref}
use gensimd.Emit.Write.{instr_reg_reg, instr_imm_reg, data_type, fixed}
use gensimd.Emit.Move.{zero_reg, mov_reg_reg, mov_imm32_reg, cmov_cc_reg_reg, mov_zero_extend}
use gensimd.Emit.Compare.{cmp_reg_imm32}
use gensimd.Emit.Arith.{
  Token, add, sub, mul, quo, rem, and_token, or_token, xor_token, shl, shr, and_not, eql, neq, leq,
  geq, lss, gtr, other_token, same_width, combine_reg_reg, after_move, three_widths,
}

abbrev pub and_reg_reg : Option Location → RegRef → RegRef → ℕ → Bool → M Asm
and_reg_reg loc src dst size spills =
    combine_reg_reg i_and loc (data_type false size) src dst spills

-- `OrRegReg` and `XorRegReg`, by the kind of instruction: they work on the whole register.
unfoldable pub whole_reg_reg : InstructionType → Option Location → RegRef → RegRef → Bool → M Asm
unfolding same_width instr_reg_reg
whole_reg_reg itype loc src dst spills = do
  same_width src dst
  s ← get_ref src
  instr ← lift (get_instr itype (data_type false (reg_size s)))
  instr_reg_reg loc instr src dst spills

abbrev pub or_reg_reg : Option Location → RegRef → RegRef → Bool → M Asm
or_reg_reg loc src dst spills = whole_reg_reg i_or loc src dst spills

abbrev pub xor_reg_reg : Option Location → RegRef → RegRef → Bool → M Asm
xor_reg_reg loc src dst spills = whole_reg_reg i_xor loc src dst spills

-- `XorImm32Reg` and `XorImm64Reg`.
unfoldable pub xor_imm_reg : Option Location → ℤ → RegRef → ℕ → Bool → M Asm
unfolding instr_imm_reg
xor_imm_reg loc imm dst size spills = do
  xor ← lift (get_instr i_xor (data_type false size))
  instr_imm_reg loc xor imm size dst spills

abbrev pub not_reg : Option Location → RegRef → ℕ → Bool → M Asm
not_reg loc r size spills = xor_imm_reg loc (negsuc 0) r size spills

unfoldable pub and_not_reg_reg : Option Location → RegRef → RegRef → ℕ → Bool → M Asm
unfolding same_width xor_imm_reg combine_reg_reg
and_not_reg_reg loc src dst size spills = do
  same_width src dst
  a ← not_reg loc dst size spills
  b ← and_reg_reg loc src dst size spills
  pure (a ++ b)

pub data Direction : Type 0 where
  shift_left shift_right : Direction

abbrev pub shift_opcode : Bool → Direction → InstructionType
shift_opcode signed shift_left = i_shl
shift_opcode false shift_right = i_shr
shift_opcode true shift_right = i_sar

abbrev pub wide : ℕ → Bool
wide bits = (bits == 32) || (bits == 64)

-- The count is clamped to `amount`, by way of `tmp`: one comparison of the low byte of `shift_reg`,
-- one conditional move, and the shift by CL.
unfoldable pub clamped_shift :
    Option Location
    → Instruction
    → ℕ
    → RegRef
    → RegRef
    → RegRef
    → RegRef
    → RegRef
    → ℕ
    → Bool
    → M Asm
unfolding cmp_reg_imm32 cmov_cc_reg_reg mov_zero_extend instr_reg_reg
clamped_shift loc shift max_shift src shift_reg tmp cl cx size spills = do
  x ← get_ref cx
  a ← cmp_reg_imm32 loc shift_reg max_shift 1
  b ← cmov_cc_reg_reg loc tmp cx size false
  c ← mov_zero_extend loc cl cx 1 (reg_size x) false
  d ← instr_reg_reg loc shift (if size == 1 then cl else cx) src spills
  pure (a ++ b ++ c ++ d)

unfoldable pub shift_reg_reg :
    Option Location → Bool → Direction → RegRef → RegRef → RegRef → ℕ → Bool → M Asm
unfolding fixed mov_reg_reg instr_imm_reg clamped_shift whole_reg_reg
shift_reg_reg loc signed direction src shift_reg tmp size spills = do
  cl ← fixed reg_cl
  cx ← fixed reg_cx
  shift ← lift (get_instr (shift_opcode signed direction) (data_type false size))
  let max_shift : ℕ = 8 * size
  a ← mov_reg_reg loc (data_type false size) shift_reg cx false
  b ← mov_imm32_reg loc (pos (if wide max_shift then max_shift - 1 else max_shift)) tmp false
  c ← clamped_shift loc shift max_shift src shift_reg tmp cl cx size spills
  d ←
      (if wide max_shift
        then (do
          e ← mov_imm32_reg loc (pos 1) tmp false
          g ← xor_reg_reg loc cx cx false
          h ← clamped_shift loc shift max_shift src shift_reg tmp cl cx size spills
          pure (e ++ g ++ h))
        else pure [])
  pure (a ++ b ++ c ++ d)

-- The line of `ShiftImm8Reg` marks nothing as changed.
unfoldable pub shift_imm8_reg : Option Location → Bool → Direction → ℕ → RegRef → M Asm
unfolding zero_reg
shift_imm8_reg loc signed direction count r = do
  x ← get_ref r
  shift ← lift (get_instr (shift_opcode signed direction) (data_type false (reg_size x)))
  if (Register.width x == 32) && leb 32 count || (Register.width x == 64) && leb 64 count
      then zero_reg loc r
      else pure (imm_reg shift (pos count) (Register.name x) ∷ [])

-- The shifts use `x` as their temporary register.
unfoldable pub bitwise_case : Option Location → Token → Bool → RegRef → RegRef → RegRef → ℕ → M Asm
unfolding mov_reg_reg combine_reg_reg whole_reg_reg shift_reg_reg and_not_reg_reg
bitwise_case loc and_token signed x y result size =
    after_move loc (data_type false size) y result (and_reg_reg loc x result size false)
bitwise_case loc or_token signed x y result size =
    after_move loc (data_type false size) y result (or_reg_reg loc x result false)
bitwise_case loc xor_token signed x y result size =
    after_move loc (data_type false size) y result (xor_reg_reg loc x result false)
bitwise_case loc shl signed x y result size =
    after_move loc (data_type false size) x result
      (shift_reg_reg loc signed shift_left result y x size false)
bitwise_case loc shr signed x y result size =
    after_move loc (data_type false size) x result
      (shift_reg_reg loc signed shift_right result y x size false)
bitwise_case loc and_not signed x y result size =
    after_move loc (data_type false size) y result (and_not_reg_reg loc x result size false)
bitwise_case loc add signed x y result size = lift ice
bitwise_case loc sub signed x y result size = lift ice
bitwise_case loc mul signed x y result size = lift ice
bitwise_case loc quo signed x y result size = lift ice
bitwise_case loc rem signed x y result size = lift ice
bitwise_case loc eql signed x y result size = lift ice
bitwise_case loc neq signed x y result size = lift ice
bitwise_case loc leq signed x y result size = lift ice
bitwise_case loc geq signed x y result size = lift ice
bitwise_case loc lss signed x y result size = lift ice
bitwise_case loc gtr signed x y result size = lift ice
bitwise_case loc other_token signed x y result size = lift ice

unfoldable pub bitwise_op : Option Location → Token → Bool → RegRef → RegRef → RegRef → ℕ → M Asm
unfolding bitwise_case
bitwise_op loc op signed x y result size =
    three_widths x y result >> bitwise_case loc op signed x y result size
