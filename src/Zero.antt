-- ===== src/Zero.antt =====
-- `ZeroMemory` of codegen/instramd64.go: zeros for the bytes of a local or of the result.
pub mod Cover
use gensimd.Common.{
  ℕ, zero, suc, ◌+◌, ◌*◌, ◌/◌, ◌%◌, false, List, [], ◌∷◌, String, Result, ok, ◌>>=◌, if◌then◌else◌,
  ◌==◌,
}
use gensimd.Common.Int.{ℤ, pos, ◌+ℤ◌}
use gensimd.Reg.{Register}
use gensimd.Types.{OpDataType, op_data, xmm_invalid}
use gensimd.Instr.Entry.{Instruction}
use gensimd.Instr.Forms.{i_mov}
use gensimd.Instr.Select.{get_instr}
use gensimd.State.{Line, imm_mem, Asm}

-- The largest of 8, 4, 2 and 1 that divides the size.
abbrev pub zero_chunk : ℕ → ℕ
zero_chunk size =
    if size % 8 == 0 then 8 else if size % 4 == 0 then 4 else if size % 2 == 0 then 2 else 1

abbrev pub chunk_data_type : ℕ → OpDataType
chunk_data_type chunk = record {
  op = op_data;
  size = chunk;
  signed = false;
  xmmvariant = xmm_invalid;
}

-- The line that `instrImmMem` writes for chunk `i`.
abbrev pub zero_line : Instruction → String → ℤ → Register → ℕ → ℕ → Line
zero_line mov name offset reg chunk i =
    imm_mem mov (pos 0) name (pos (i * chunk) +ℤ offset) (Register.name reg)

unfoldable pub zero_lines : Instruction → String → ℤ → Register → ℕ → ℕ → ℕ → Asm
zero_lines mov name offset reg chunk i zero = []
zero_lines mov name offset reg chunk i (suc n) =
    zero_line mov name offset reg chunk i ∷ zero_lines mov name offset reg chunk (i + 1) n

abbrev pub count : ℕ → ℕ → ℕ
count size chunk = size / chunk

unfoldable pub zero_memory : String → ℤ → ℕ → Register → Result Asm
unfolding zero_lines get_instr
zero_memory name offset size reg =
    if count size (zero_chunk size) == 0
    then ok []
    else get_instr i_mov (chunk_data_type (zero_chunk size)) >>= λ mov.
        ok (zero_lines mov name offset reg (zero_chunk size) 0 (count size (zero_chunk size)))
