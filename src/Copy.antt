-- ===== src/Copy.antt =====
-- codegen/codegen.go: copying a value into the memory of an identifier, as StoreValAddr, Store and
-- Return do.
pub mod Chunks
pub mod Memory
use gensimd.Common.{
  ℕ, zero, suc, ◌+◌, ◌*◌, ◌/◌, ◌%◌, Bool, true, false, not, ◌&&◌, List, [], ◌∷◌, ◌++◌, Option, none,
  some, Result, ok, unsupported, if◌then◌else◌, ◌==◌, leb, ltb,
}
use gensimd.Region.{Region}
use gensimd.Types.{size_int}
use gensimd.Types.Operand.{is_complex, is_xmm}
use gensimd.Function.{Function, Identifier, Location, is_const, update}
use gensimd.State.{Asm, ret, M, pure, ◌>>=◌, ◌>>◌, lift, ice_when}
use gensimd.Storage.{get_ident}
use gensimd.Alloc.{free_reg}
use gensimd.Load.Constant.{Const}
use gensimd.Store.{new_value, spill_all}
use gensimd.Translate.{size_of, load_part, load_whole, store_value}

-- `datasize` and `iterations`.
unfoldable pub chunk_width : ℕ → ℕ
chunk_width size = if leb 8 size then 8 else if leb 4 size then 4 else if leb 2 size then 2 else 1

unfoldable pub chunk_count : ℕ → ℕ
unfolding chunk_width
chunk_count size = size / chunk_width size

abbrev pub uneven_size : ℕ → Bool
uneven_size size = ltb size_int size && not (size % size_int == 0)

abbrev pub chunk_at : ℕ → ℕ → Region
chunk_at width i = record { offset = i * width; size = width }

abbrev pub error_when : Bool → M (Unit {0})
error_when true f = unsupported
error_when false f = ok (tt, f)

abbrev pub set_spilling : ℕ → Bool → M (Unit {0})
set_spilling m b f = ok (
  tt,
  record f { identifiers = update f.identifiers m (record (f.identifiers m) { spilling = b }) },
)

module _ (consts : ℕ → Const) where
  -- The loop of `StoreValAddr`, from chunk number `i` on.
  unfoldable pub store_chunks : Option Location → ℕ → ℕ → ℕ → ℕ → ℕ → M Asm
  unfolding load_part new_value free_reg
  store_chunks loc val addr width i zero = pure []
  store_chunks loc val addr width i (suc n) = do
    found ← load_part consts loc val (chunk_at width i)
    a ← new_value loc addr found.1 (chunk_at width i)
    free_reg found.1
    rest ← store_chunks loc val addr width (i + 1) n
    pure (found.0 ++ a ++ rest)

  unfoldable pub store_vector : Option Location → ℕ → ℕ → M Asm
  unfolding load_whole store_value free_reg
  store_vector loc val addr = do
    found ← load_whole consts loc val
    a ← store_value loc addr found.1
    free_reg found.1
    pure (found.0 ++ a)

  unfoldable pub store_val_addr : Option Location → ℕ → ℕ → M Asm
  unfolding is_complex is_xmm store_vector size_of chunk_width chunk_count store_chunks
  store_val_addr loc val addr = do
    target ← get_ident addr
    source ← get_ident val
    ice_when (is_const target)
    error_when (is_complex (Identifier.typ source))
    if is_xmm (Identifier.typ source) then store_vector loc val addr else (do
      size ← size_of val
      ice_when (uneven_size size)
      store_chunks loc val addr (chunk_width size) 0 (chunk_count size))

  -- `Store`, whose address is the identifier `addr`.
  unfoldable pub store_instr : Option Location → ℕ → ℕ → M Asm
  unfolding store_val_addr
  store_instr loc val addr = store_val_addr loc val addr

  -- The result is the identifier `to`.
  unfoldable pub copy_to_ret : Option Location → ℕ → List ℕ → M Asm
  unfolding store_val_addr
  copy_to_ret loc to [] = pure []
  copy_to_ret loc to (val ∷ []) = store_val_addr loc val to
  copy_to_ret loc to (val ∷ other ∷ rest) = lift unsupported

  -- The steps between setting and clearing `spilling`.
  unfoldable pub copy_and_spill : Option Location → ℕ → M Asm → M Asm
  unfolding spill_all
  copy_and_spill loc to copy = do
    set_spilling to true
    a ← copy
    b ← spill_all loc to true
    set_spilling to false
    pure (a ++ b)

  unfoldable pub return_instr : Option Location → ℕ → List ℕ → M Asm
  unfolding copy_and_spill copy_to_ret
  return_instr loc to results = do
    a ← copy_and_spill loc to (copy_to_ret loc to results)
    pure (a ++ ret ∷ [])
