-- ===== src/Copy/Memory.antt =====
-- codegen/storage.go: copyMemMem and copySmallMemMem, copies between the memory of two identifiers.
use gensimd.Common.{ℕ, zero, suc, ◌+◌, ◌*◌, false, [], ◌++◌, none, some, ltb}
use gensimd.Common.Int.{pos, ◌+ℤ◌}
use gensimd.Reg.{data_reg, data_reg_size}
use gensimd.Types.Operand.{get_integer_op_data_type}
use gensimd.Load.{memory_optype}
use gensimd.Function.{Identifier, ident_size}
use gensimd.State.{Asm, M, pure, ◌>>=◌, ◌>>◌, lift, ice_when, slot, copy}
use gensimd.Storage.{addr_reg, fetch, get_ident, mov_reg_mem}
use gensimd.Emit.Move.{mov_mem_mem}
use gensimd.Alloc.{alloc_temp_reg, free_reg}
use gensimd.Copy.{chunk_width, chunk_count, uneven_size}

pub record Transfer : Type 0 where
  pub src_offset : ℕ
  pub dst_offset : ℕ
  pub size : ℕ

unfoldable pub copy_small_mem_mem : Transfer → ℕ → ℕ → ℕ → M Asm
unfolding addr_reg mov_mem_mem
copy_small_mem_mem chunk src dst tmp = do
  from ← get_ident src
  to ← get_ident dst
  to_size ← lift (ident_size to)
  ice_when (ltb to_size (chunk.dst_offset + chunk.size))
  from_size ← lift (ident_size from)
  ice_when (ltb from_size (chunk.src_offset + chunk.size))
  ice_when (ltb data_reg_size chunk.size)
  from_base ← lift (addr_reg from)
  to_base ← lift (addr_reg to)
  optype ← pure (get_integer_op_data_type false chunk.size)
  mov_mem_mem optype.op (Identifier.name from) (Identifier.offset from +ℤ pos chunk.src_offset)
      (copy from_base) (Identifier.name to) (Identifier.offset to +ℤ pos chunk.dst_offset)
      (copy to_base) chunk.size (slot tmp)

abbrev small_chunk : Transfer → ℕ → ℕ → Transfer
small_chunk chunk width i = record {
  src_offset = chunk.src_offset + i * width;
  dst_offset = chunk.dst_offset + i * width;
  size = width;
}

-- A chunk that no register caches goes by way of one.
unfoldable pub copy_uncached : Transfer → ℕ → ℕ → M Asm
unfolding alloc_temp_reg copy_small_mem_mem free_reg
copy_uncached chunk src dst = do
  found ← alloc_temp_reg data_reg chunk.size
  a ← copy_small_mem_mem chunk src dst found.1
  free_reg found.1
  pure (found.0 ++ a)

unfoldable pub copy_cached : Transfer → ℕ → ℕ → ℕ → M Asm
unfolding memory_optype addr_reg mov_reg_mem
copy_cached chunk src dst i = do
  from ← get_ident src
  to ← get_ident dst
  optype ← lift (memory_optype from)
  base ← lift (addr_reg to)
  mov_reg_mem optype (slot i) (Identifier.name to) (copy base)
      (Identifier.offset to +ℤ pos chunk.dst_offset)

-- The loop of `copyMemMem`, from chunk number `i` on.
unfoldable pub copy_chunks : Transfer → ℕ → ℕ → ℕ → ℕ → ℕ → M Asm
unfolding fetch copy_cached copy_uncached
copy_chunks chunk src dst width i zero = pure []
copy_chunks chunk src dst width i (suc n) = do
  found ← fetch src record { offset = chunk.src_offset + i * width; size = width }
  a ← elim found [
    | some r ↦ copy_cached (small_chunk chunk width i) src dst r
    | none ↦ copy_uncached (small_chunk chunk width i) src dst
  ]
  rest ← copy_chunks chunk src dst width (i + 1) n
  pure (a ++ rest)

unfoldable pub copy_mem_mem : ℕ → ℕ → Transfer → M Asm
unfolding chunk_width chunk_count copy_chunks
copy_mem_mem src dst chunk = do
  ice_when (uneven_size chunk.size)
  copy_chunks chunk src dst (chunk_width chunk.size) 0 (chunk_count chunk.size)
