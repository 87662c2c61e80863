-- ===== src/Pointers.antt =====
-- codegen/codegen.go: addresses and what is read through them.
use gensimd.Common.{
  ℕ, ◌%◌, ◌^◌, ◌-◌, Bool, true, false, not, ◌&&◌, ◌||◌, List, [], ◌∷◌, ◌++◌, Option, none, some,
  Result, ok, fault, ice, panics, if◌then◌else◌, leb,
}
use gensimd.Common.Int.{pos, negsuc}
use gensimd.Region.{Region}
use gensimd.Reg.{Register, reg_size, data_reg, data_reg_size, xmm_reg_size}
use gensimd.Types.{GoType, basic, int, array, slice, size_ptr, size_int, is_simd, reflect_type}
use gensimd.Types.Operand.{is_complex, is_xmm, is_slice, sizeof_elem, get_integer_op_data_type}
use gensimd.Function.{
  Identifier, Location, Storer, memory, constant, is_ssa_local, is_param, reg_type, update,
}
use gensimd.State.{Asm, M, pure, ◌>>=◌, ◌>>◌, lift, ice_when, read, get_reg, slot, copy}
use gensimd.Storage.{get_ident, addr_reg, set_initialized}
use gensimd.Storage.Dropping.{remove_aliases}
use gensimd.Alloc.{alloc_reg, free_reg}
use gensimd.Load.{load, memory_optype, alloc_ident_reg}
use gensimd.Load.Constant.{Const}
use gensimd.Store.{spill_all, load_ident, new_value}
use gensimd.Emit.Move.{mov_mem_reg, mov_imm32_reg, lea}
use gensimd.Emit.Arith.{add_reg_reg, mul_imm32_reg_reg}
use gensimd.Emit.Indirect.{mov_reg_indirect_mem}
use gensimd.Translate.{
  size_of, is_pointer, load_part, load_whole, store_value, un_op_xor, un_op_sub,
}
use gensimd.Copy.{error_when}

-- The tokens that `UnOp` tells apart: `!`, `^`, `-` and `*`.
pub data UnToken : Type 0 where
  negate_bool negate_bits negate deref other_op : UnToken

abbrev pub is_array : GoType → Bool
is_array (array n t) = true
is_array t = false

abbrev plain_value : Identifier → Bool
plain_value ident = not (is_ssa_local ident) && not (is_param ident)

-- What may be behind a pointer that is neither a local nor a parameter is written to memory.
unfoldable pub spill_target : Option Location → Identifier → M Asm
unfolding spill_all
spill_target loc ident =
    if plain_value ident
    then elim ident.ptr [ none ↦ lift (fault panics) | some p ↦ spill_all loc p true ]
    else pure []

abbrev pub in_memory : ℕ → M (Unit {0})
in_memory m = do
  s ← read λ f. f.storage m
  elim s [ memory aliases regions ↦ pure tt | constant aliases ↦ lift ice ]

abbrev regions_with : Storer → Region → Result Storer
regions_with (constant aliases) rgn = ice
regions_with (memory aliases regions) rgn = elim (set_initialized regions rgn) [
  | ok regions' ↦ ok (memory aliases regions')
  | fault e ↦ fault e
]

-- `setInitialized` of the memory numbered `m`.
unfoldable pub mark_initialized : ℕ → Region → M (Unit {0})
unfolding set_initialized
mark_initialized m rgn = do
  s ← read λ f. f.storage m
  s' ← lift (regions_with s rgn)
  λ f. ok (tt, record f { storage = update f.storage m s' })

-- A local is read by its identifier.
unfoldable pub read_local : Option Location → ℕ → ℕ → M Asm
unfolding load_ident size_of new_value free_reg
read_local loc m x = do
  found ← load_ident loc x
  size ← size_of x
  a ← new_value loc m found.1 record { offset = 0; size = size }
  free_reg found.1
  pure (found.0 ++ a)

unfoldable pub data_width : GoType → ℕ
unfolding is_xmm
data_width t = if is_xmm t then xmm_reg_size else data_reg_size

-- The pointer is loaded, and the bytes that it points to are copied to the memory of `m`.
unfoldable pub read_pointer : Option Location → ℕ → ℕ → ℕ → M Asm
unfolding alloc_reg reg_type data_width remove_aliases load size_of addr_reg memory_optype
    mov_reg_indirect_mem mark_initialized free_reg
read_pointer loc m x size = do
  ident ← get_ident m
  dat ← alloc_reg loc (reg_type (Identifier.typ ident)) (data_width (Identifier.typ ident))
  addr ← alloc_reg loc data_reg data_reg_size
  in_memory x
  in_memory m
  _ ← remove_aliases m
  size_x ← size_of x
  src ← load loc x record { offset = 0; size = size_x }
  base ← lift (addr_reg ident)
  optype ← lift (memory_optype ident)
  a ←
      mov_reg_indirect_mem loc optype (slot src.1) (Identifier.name ident) (Identifier.offset ident)
        (copy base) size (slot addr.1) (slot dat.1)
  mark_initialized m record { offset = 0; size = size }
  free_reg src.1
  free_reg addr.1
  free_reg dat.1
  pure (dat.0 ++ addr.0 ++ src.0 ++ a)

unfoldable pub un_op_pointer : Option Location → ℕ → ℕ → M Asm
unfolding spill_target is_complex size_of read_local read_pointer
un_op_pointer loc m x = do
  ident ← get_ident m
  operand ← get_ident x
  a ← spill_target loc operand
  error_when (is_complex (Identifier.typ ident) || is_complex (Identifier.typ operand))
  ice_when (plain_value operand && not (is_pointer (Identifier.typ operand)))
  size ← size_of m
  b ← (if is_ssa_local operand then read_local loc m x else read_pointer loc m x size)
  pure (a ++ b)

abbrev set_ptr : ℕ → ℕ → M (Unit {0})
set_ptr m x f = ok (
  tt,
  record f { identifiers = update f.identifiers m (record (f.identifiers m) { ptr = some x }) },
)

-- The address of the first element.
unfoldable pub base_address : Option Location → Identifier → Register → ℕ → M Asm
unfolding is_slice is_simd mov_mem_reg lea
base_address loc ident base addr =
    if is_slice ident.typ
    then mov_mem_reg loc (get_integer_op_data_type false size_ptr) ident.name ident.offset
        (copy base) (slot addr) false
    else if is_array ident.typ || is_simd ident.typ
    then lea loc ident.name ident.offset (copy base) (slot addr) false
    else lift ice

abbrev pub is_int_type : GoType → Bool
is_int_type (basic int) = true
is_int_type t = false

-- A length from 2 ^ 31 - 1 on is an internal error.
abbrev pub too_long : ℕ → Bool
too_long n = leb (2 ^ 31 - 1) n

module _ (consts : ℕ → Const) where
  unfoldable pub index_addr : Option Location → ℕ → ℕ → ℕ → M Asm
  unfolding spill_all addr_reg alloc_ident_reg size_of load_whole sizeof_elem mul_imm32_reg_reg
      base_address store_value free_reg
  index_addr loc m x index = do
    set_ptr m x
    operand ← get_ident x
    ident ← get_ident m
    a ← spill_all loc x true
    base ← lift (addr_reg operand)
    size ← size_of m
    addr ← alloc_ident_reg loc ident size
    found ← load_whole consts loc index
    elem ← lift (sizeof_elem (Identifier.typ operand))
    b ← mul_imm32_reg_reg loc (elem % 2 ^ 32) (slot found.1) (slot found.1) true
    c ← base_address loc operand base addr.1
    r ← get_reg found.1
    d ←
        add_reg_reg loc (get_integer_op_data_type false (reg_size r)) (slot found.1) (slot addr.1)
          false
    e ← store_value loc m addr.1
    free_reg found.1
    free_reg addr.1
    pure (a ++ addr.0 ++ found.0 ++ b ++ c ++ d ++ e)

  unfoldable pub slice_len : Option Location → ℕ → ℕ → M Asm
  unfolding load_part store_value free_reg is_slice
  slice_len loc x m = do
    operand ← get_ident x
    ice_when (not (is_slice (Identifier.typ operand)))
    found ← load_part consts loc x record { offset = size_ptr; size = size_int }
    a ← store_value loc m found.1
    free_reg found.1
    pure (found.0 ++ a)

  -- The length is a constant, whose register is not freed.
  unfoldable pub array_len : Option Location → ℕ → ℕ → M Asm
  unfolding size_of alloc_ident_reg store_value
  array_len loc n m = do
    ident ← get_ident m
    size ← size_of m
    found ← alloc_ident_reg loc ident size
    a ← mov_imm32_reg loc (pos n) (slot found.1) false
    b ← store_value loc m found.1
    pure (found.0 ++ a ++ b)

  unfoldable pub len_of : Option Location → GoType → ℕ → ℕ → M Asm
  unfolding array_len slice_len reflect_type
  len_of loc (array n t) x m = do
    _ ← lift (reflect_type (array n t))
    ice_when (too_long n)
    array_len loc n m
  len_of loc (slice t) x m = slice_len loc x m
  len_of loc t x m = lift ice

  -- `Len` of the arguments, of which there must be one; `invoke` is whether the call is one of a
  -- method.
  unfoldable pub len_instr : Option Location → Bool → ℕ → List ℕ → M Asm
  unfolding len_of
  len_instr loc invoke m [] = lift (fault panics)
  len_instr loc invoke m (x ∷ rest) = do
    ice_when invoke
    ice_when (elim rest [ [] ↦ false | y ∷ ys ↦ true ])
    ident ← get_ident m
    operand ← get_ident x
    ice_when (not (is_int_type (Identifier.typ ident)))
    len_of loc (Identifier.typ operand) x m

  unfoldable pub un_op : Option Location → UnToken → ℕ → ℕ → M Asm
  unfolding un_op_xor un_op_sub un_op_pointer
  un_op loc negate_bool m x = un_op_xor consts loc (pos 1) m x
  un_op loc negate_bits m x = un_op_xor consts loc (negsuc 0) m x
  un_op loc negate m x = un_op_sub consts loc m x
  un_op loc deref m x = un_op_pointer loc m x
  un_op loc other_op m x = lift ice

-- `AllocInstr` of a local, which is on the heap or not.
unfoldable pub alloc_instr : Bool → ℕ → M Asm
alloc_instr heap m = do
  error_when heap
  ident ← get_ident m
  ice_when (not (is_ssa_local ident))
  pure []
