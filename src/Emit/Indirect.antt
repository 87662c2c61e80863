-- ===== src/Emit/Indirect.antt =====
-- codegen/instramd64.go: copies through a pointer into an identifier's memory, chunk by chunk.
use gensimd.Common.{
  ℕ, zero, suc, ◌/◌, ◌%◌, Bool, false, not, ◌&&◌, [], ◌++◌, Option, String, if◌then◌else◌, ◌==◌,
  ltb, leb,
}
use gensimd.Common.Int.{ℤ, pos, ◌+ℤ◌}
use gensimd.Reg.{reg_size, data_reg_size}
use gensimd.Types.{OpDataType, size_ptr}
use gensimd.Instr.Entry.{Instruction}
use gensimd.Instr.Forms.{InstructionType, i_mov, i_pmov}
use gensimd.Instr.Select.{get_instr}
use gensimd.Function.{Location}
use gensimd.State.{Asm, M, pure, ◌>>=◌, ◌>>◌, lift, ice_when, RegRef, get_ref}
use gensimd.Storage.{instr_reg_mem}
use gensimd.Emit.Write.{instr_reg_reg, instr_mem_reg, data_type}
use gensimd.Emit.Arith.{add_imm32_reg}

-- The iterations of the copying loop that are left; the address moves on but behind the last one.
unfoldable pub copy_chunks :
    ℕ → Option Location → Instruction → String → ℤ → RegRef → ℕ → RegRef → RegRef → M Asm
unfolding instr_mem_reg instr_reg_mem add_imm32_reg
copy_chunks zero loc mov dst_name dst_offset dst chunk tmp_addr tmp_data = pure []
copy_chunks (suc n) loc mov dst_name dst_offset dst chunk tmp_addr tmp_data = do
  a ← instr_mem_reg loc mov "" (pos 0) tmp_addr tmp_data false
  b ← instr_reg_mem mov tmp_data dst dst_name dst_offset
  c ← (if n == 0 then pure [] else add_imm32_reg loc chunk tmp_addr false)
  d ← copy_chunks n loc mov dst_name (dst_offset +ℤ pos chunk) dst chunk tmp_addr tmp_data
  pure (a ++ b ++ c ++ d)

abbrev pub uneven : ℕ → ℕ → Bool
uneven size width = ltb width size && not (size % width == 0)

abbrev pub chunk_of : ℕ → ℕ → ℕ
chunk_of size width = if leb size width then size else width

abbrev pub count_of : ℕ → ℕ → ℕ
count_of size width = if leb size width then 1 else size / width

-- What the three copies of more than one register share: `get_address` writes the address to
-- `tmp_addr`.
unfoldable pub indirect :
    (Instruction → M Asm)
    → InstructionType
    → Option Location
    → OpDataType
    → String
    → ℤ
    → RegRef
    → ℕ
    → RegRef
    → RegRef
    → M Asm
unfolding copy_chunks
indirect get_address itype loc datatype dst_name dst_offset dst size tmp_addr tmp_data = do
  addr ← get_ref tmp_addr
  data_reg ← get_ref tmp_data
  ice_when (ltb (reg_size addr) size_ptr)
  ice_when (uneven size (reg_size data_reg))
  mov ← lift (get_instr itype datatype)
  mov_addr ← lift (get_instr i_mov (data_type false size_ptr))
  let width : ℕ = reg_size data_reg
  let n : ℕ = count_of size width
  if n == 0 then pure [] else (do
    a ← get_address mov_addr
    b ← copy_chunks n loc mov dst_name dst_offset dst (chunk_of size width) tmp_addr tmp_data
    pure (a ++ b))

unfoldable pub mov_mem_indirect_mem :
    Option Location
    → OpDataType
    → String
    → ℤ
    → RegRef
    → String
    → ℤ
    → RegRef
    → ℕ
    → RegRef
    → RegRef
    → M Asm
unfolding indirect instr_mem_reg
mov_mem_indirect_mem loc datatype src_name src_offset src dst_name dst_offset dst size tmp_addr
      tmp_data =
    indirect (λ mov. instr_mem_reg loc mov src_name src_offset src tmp_addr false) i_mov loc
      datatype dst_name dst_offset dst size tmp_addr tmp_data

unfoldable pub mov_integer_simd_mem_indirect_mem :
    Option Location
    → OpDataType
    → String
    → ℤ
    → RegRef
    → String
    → ℤ
    → RegRef
    → ℕ
    → RegRef
    → RegRef
    → M Asm
unfolding indirect instr_mem_reg
mov_integer_simd_mem_indirect_mem loc datatype src_name src_offset src dst_name dst_offset dst size
      tmp1 tmp2 =
    indirect (λ mov. instr_mem_reg loc mov src_name src_offset src tmp1 false) i_pmov loc datatype
      dst_name dst_offset dst size tmp1 tmp2

unfoldable pub mov_reg_indirect_mem_small :
    Option Location → OpDataType → RegRef → String → ℤ → RegRef → ℕ → RegRef → M Asm
unfolding instr_mem_reg instr_reg_mem
mov_reg_indirect_mem_small loc datatype src dst_name dst_offset dst size tmp_data = do
  data_reg ← get_ref tmp_data
  ice_when (uneven size (reg_size data_reg))
  mov ← lift (get_instr i_mov datatype)
  ice_when (ltb (reg_size data_reg) size)
  if size == 0 then pure [] else (do
    a ← instr_mem_reg loc mov "" (pos 0) src tmp_data false
    b ← instr_reg_mem mov tmp_data dst dst_name dst_offset
    pure (a ++ b))

unfoldable pub mov_reg_indirect_mem :
    Option Location → OpDataType → RegRef → String → ℤ → RegRef → ℕ → RegRef → RegRef → M Asm
unfolding mov_reg_indirect_mem_small indirect instr_reg_reg
mov_reg_indirect_mem loc datatype src dst_name dst_offset dst size tmp_addr tmp_data =
    if leb size data_reg_size
    then mov_reg_indirect_mem_small loc datatype src dst_name dst_offset dst size tmp_data
    else indirect (λ mov. instr_reg_reg loc mov src tmp_addr false) i_mov loc datatype dst_name
        dst_offset dst size tmp_addr tmp_data
