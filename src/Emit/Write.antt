-- ===== src/Emit/Write.antt =====
-- codegen/instramd64.go: single lines, and the registers that each one marks as changed.
use gensimd.Common.{
  ℕ, ◌-◌, ◌*◌, ◌%◌, ◌^◌, Bool, true, false, ◌||◌, [], ◌∷◌, ◌++◌, Option, none, some, String, Result,
  ok, ice, if◌then◌else◌, ◌==◌, ltb,
}
use gensimd.Common.Int.{ℤ, pos, negsuc}
use gensimd.Reg.{Register, get_register}
use gensimd.Reg.Names.{Reg}
use gensimd.Types.{OpDataType, op_data, xmm_invalid}
use gensimd.Instr.Entry.{Instruction}
use gensimd.Instr.Flags.{InstrInfo, InstrFlags, has, left_rdwr, right_rdwr, right_write}
use gensimd.Instr.Table.{instr_table}
use gensimd.Function.{Location}
use gensimd.State.{
  reg, reg_reg, mem_reg, imm_reg, imm_reg_reg, reg_imm, Asm, M, pure, ◌>>=◌, ◌>>◌, lift, ice_when,
  or_nil, get_reg, put_reg, RegRef, slot, copy, get_ref, mark_dirty,
}
use gensimd.Storage.{spill}

-- `register.modified`. A copy has no parent, so there is nothing to spill.
unfoldable pub modified : Option Location → Bool → RegRef → M Asm
unfolding spill mark_dirty
modified loc false r = mark_dirty r >>= λ _. pure []
modified loc true (copy r) = pure []
modified loc true (slot i) = do
  before ← get_reg i
  asm ← spill loc i
  r ← get_reg i
  put_reg i (record r { in_use = Register.in_use before; dirty = true })
  pure asm

-- The look-up of `instrTable`, and its panic.
unfoldable pub flags_of : Instruction → Result InstrFlags
unfolding instr_table
flags_of instr = elim (instr_table instr) [ none ↦ ice | some info ↦ ok (InstrInfo.flags info) ]

abbrev pub writes_right : InstrFlags → Bool
writes_right flags = has flags right_rdwr || has flags right_write

abbrev pub modified_if : Bool → Option Location → Bool → RegRef → M Asm
modified_if false loc spills r = pure []
modified_if true loc spills r = modified loc spills r

unfoldable pub instr_reg : Option Location → Instruction → RegRef → Bool → M Asm
unfolding modified
instr_reg loc instr r spills = do
  flags ← lift (flags_of instr)
  asm ← modified_if (writes_right flags) loc spills r
  x ← get_ref r
  pure (asm ++ reg instr (Register.name x) ∷ [])

unfoldable pub instr_reg_reg : Option Location → Instruction → RegRef → RegRef → Bool → M Asm
unfolding modified
instr_reg_reg loc instr src dst spills = do
  flags ← lift (flags_of instr)
  a ← modified_if (has flags left_rdwr) loc spills src
  b ← modified_if (writes_right flags) loc spills dst
  s ← get_ref src
  d ← get_ref dst
  pure (a ++ b ++ reg_reg instr (Register.name s) (Register.name d) ∷ [])

unfoldable pub instr_mem_reg :
    Option Location → Instruction → String → ℤ → RegRef → RegRef → Bool → M Asm
unfolding modified
instr_mem_reg loc instr src_name src_offset src dst spills = do
  flags ← lift (flags_of instr)
  asm ← modified_if (writes_right flags) loc spills dst
  s ← get_ref src
  d ← get_ref dst
  pure (asm ++ mem_reg instr src_name src_offset (Register.name s) (Register.name d) ∷ [])

-- The remainder modulo 2 ^ w, and the signed number of w bits with that remainder.
abbrev pub wrap : ℕ → ℤ → ℕ
wrap w (pos n) = n % 2 ^ w
wrap w (negsuc n) = 2 ^ w - 1 - n % 2 ^ w

abbrev pub signed_of : ℕ → ℕ → ℤ
signed_of w n = if ltb n (2 ^ (w - 1)) then pos n else negsuc (2 ^ w - 1 - n)

-- `int64(int8(imm))` and the like, by the size in bytes.
abbrev pub truncate : ℕ → ℤ → ℤ
truncate size imm =
    if size == 1
    then signed_of 8 (wrap 8 imm)
    else if size == 2
    then signed_of 16 (wrap 16 imm)
    else if size == 4
    then signed_of 32 (wrap 32 imm)
    else imm

abbrev pub narrow : Register → ℕ → Bool
narrow r size = ltb r.width (8 * size)

unfoldable pub instr_imm_reg : Option Location → Instruction → ℤ → ℕ → RegRef → Bool → M Asm
unfolding modified
instr_imm_reg loc instr imm size dst spills = do
  d ← get_ref dst
  ice_when (narrow d size)
  flags ← lift (flags_of instr)
  asm ← modified_if (writes_right flags) loc spills dst
  pure (asm ++ imm_reg instr (truncate size imm) (Register.name d) ∷ [])

unfoldable pub instr_imm_unsigned_reg :
    Option Location → Instruction → ℕ → ℕ → RegRef → Bool → M Asm
unfolding modified
instr_imm_unsigned_reg loc instr imm64 size r spills = do
  d ← get_ref r
  ice_when (narrow d size)
  flags ← lift (flags_of instr)
  asm ← modified_if (writes_right flags) loc spills r
  pure (asm ++ imm_reg instr (pos imm64) (Register.name d) ∷ [])

unfoldable pub instr_reg_imm32 : Option Location → Instruction → RegRef → ℕ → ℕ → Bool → M Asm
unfolding modified
instr_reg_imm32 loc instr r imm32 size spills = do
  d ← get_ref r
  ice_when (narrow d size)
  flags ← lift (flags_of instr)
  asm ← modified_if (has flags left_rdwr) loc spills r
  pure (asm ++ reg_imm instr (Register.name d) imm32 ∷ [])

-- This one looks no flags up.
unfoldable pub instr_imm_reg_reg :
    Option Location → Instruction → ℤ → ℕ → RegRef → RegRef → Bool → M Asm
unfolding modified
instr_imm_reg_reg loc instr imm size src dst spills = do
  d ← get_ref dst
  ice_when (narrow d size)
  asm ← modified loc spills dst
  s ← get_ref src
  pure (asm ++ imm_reg_reg instr (truncate size imm) (Register.name s) (Register.name d) ∷ [])

abbrev pub data_type : Bool → ℕ → OpDataType
data_type signed size = record {
  op = op_data;
  size = size;
  signed = signed;
  xmmvariant = xmm_invalid;
}

-- `getRegister`, where the result is used.
unfoldable pub fixed : Reg → M RegRef
unfolding get_register
fixed r = lift (or_nil (get_register r)) >>= λ x. pure (copy x)
