-- ===== src/Load.antt =====
-- codegen/storage.go: loading a region of an identifier's memory into a register.
pub mod Hit
pub mod Constant
use gensimd.Common.{
  ℕ, ◌+◌, Bool, true, false, not, ◌&&◌, ◌||◌, List, [], ◌∷◌, ◌++◌, Option, none, some, String,
  Result, ok, fault, ice, if◌then◌else◌, ◌==◌, ltb, leb,
}
use gensimd.Common.Int.{ℤ, pos, ◌+ℤ◌}
use gensimd.Region.{Region}
use gensimd.Reg.{Register, reg_size, data_reg_size, xmm_reg_size}
use gensimd.Types.{OpDataType, InstrOpType, op_invalid, op_data, op_xmm, op_packed}
use gensimd.Types.Operand.{is_xmm, get_op_data_type, get_integer_op_data_type}
use gensimd.Instr.Entry.{Instruction}
use gensimd.Instr.Forms.{InstructionType, i_mov, i_pmov, i_movbzx, i_movwzx, i_movlzx}
use gensimd.Instr.Flags.{InstrInfo, has, right_rdwr, right_write}
use gensimd.Instr.Table.{instr_table}
use gensimd.Instr.Select.{get_instr}
use gensimd.Function.{Function, Identifier, Location, Alias, ident_size, reg_type}
use gensimd.State.{
  Line, mem_reg, Asm, M, pure, ◌>>=◌, ◌>>◌, lift, ice_when, read, get_reg, put_reg, slot, copy,
  mark_dirty,
}
use gensimd.Storage.{fetch, add_alias, addr_reg, is_packed, get_ident}
use gensimd.Alloc.{alloc_reg}
use gensimd.Emit.Move.{mov_mem_reg}

-- `memory.optype`.
unfoldable pub memory_optype : Identifier → Result OpDataType
unfolding is_xmm get_op_data_type ident_size
memory_optype owner =
    if is_xmm (Identifier.typ owner)
    then get_op_data_type (Identifier.typ owner)
    else elim (ident_size owner) [
      | fault e ↦ fault e
      | ok size ↦
          ok (
            get_integer_op_data_type false (if ltb data_reg_size size then data_reg_size else size))
    ]

unfoldable pub alloc_ident_reg : Option Location → Identifier → ℕ → M (Asm × ℕ)
unfolding alloc_reg reg_type is_xmm
alloc_ident_reg loc ident size = do
  found ← alloc_reg loc (reg_type (Identifier.typ ident)) size
  ice_when (ltb 8 size && not (is_xmm (Identifier.typ ident)))
  pure found

unfoldable pub load_new : Option Location → ℕ → Region → M (Asm × ℕ)
unfolding alloc_ident_reg add_alias memory_optype mov_mem_reg
load_new loc m chunk = do
  owner ← get_ident m
  found ← alloc_ident_reg loc owner (Region.size chunk)
  _ ← add_alias m record { dst = found.1; region = chunk }
  ice_when (
      ltb (if is_xmm (Identifier.typ owner) then xmm_reg_size else data_reg_size)
        (Region.size chunk))
  optype ← lift (memory_optype owner)
  base ← lift (addr_reg owner)
  asm ←
      mov_mem_reg loc (record optype { size = Region.size chunk }) (Identifier.name owner)
        (Identifier.offset owner +ℤ pos (Region.offset chunk)) (copy base) (slot found.1) false
  r ← get_reg found.1
  put_reg found.1 (record r { dirty = false })
  pure (found.0 ++ asm, found.1)

abbrev pub hold : ℕ → M (Asm × ℕ)
hold i = get_reg i >>= λ r. put_reg i (record r { in_use = true }) >>= λ _. pure ([], i)

unfoldable pub load : Option Location → ℕ → Region → M (Asm × ℕ)
unfolding fetch load_new
load loc m chunk = do
  cached ← fetch m chunk
  elim cached [ some i ↦ hold i | none ↦ load_new loc m chunk ]
