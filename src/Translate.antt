-- ===== src/Translate.antt =====
-- codegen/codegen.go: the translation of unary and binary operations. A value of go/ssa is the number
-- of its identifier, which Ident has made before; the debug comments are left out.
pub mod Integers
use gensimd.Common.{
  ℕ, ◌*◌, Bool, true, false, not, List, [], ◌∷◌, ◌++◌, Option, none, some, Result, ok, fault, ice,
  Fault, panics, if◌then◌else◌, ◌==◌, ltb,
}
use gensimd.Common.Int.{ℤ, pos, negsuc}
use gensimd.Region.{Region}
use gensimd.Reg.{Register, reg_size}
use gensimd.Types.{GoType, pointer, OpDataType}
use gensimd.Types.Operand.{get_op_data_type, signed}
use gensimd.Function.{
  Function, Identifier, Location, Storer, memory, constant, ident_size, reg_type,
}
use gensimd.State.{Asm, M, pure, ◌>>=◌, ◌>>◌, lift, ice_when, read, get_reg, put_reg, slot}
use gensimd.Storage.{get_ident}
use gensimd.Alloc.{alloc_reg, free_reg}
use gensimd.Load.{load, alloc_ident_reg}
use gensimd.Load.Constant.{Const, load_constant}
use gensimd.Store.{new_value}
use gensimd.Emit.Move.{zero_reg}
use gensimd.Emit.Arith.{
  Token, add, sub, mul, quo, rem, and_token, or_token, xor_token, shl, shr, and_not, eql, neq, leq,
  geq, lss, gtr, other_token, arith_op,
}
use gensimd.Emit.Logic.{xor_imm_reg, bitwise_op}
use gensimd.Emit.Compare.{cmp_op}

unfoldable pub size_of : ℕ → M ℕ
unfolding ident_size
size_of m = get_ident m >>= λ ident. lift (ident_size ident)

abbrev pub is_pointer : GoType → Bool
is_pointer (pointer t) = true
is_pointer t = false

abbrev panic_when : Bool → M (Unit {0})
panic_when true f = fault panics
panic_when false f = ok (tt, f)

abbrev pub no_pointer : ℕ → M (Unit {0})
no_pointer m = get_ident m >>= λ ident. panic_when (is_pointer (Identifier.typ ident))

-- `AssignRegIdent` of the whole identifier.
unfoldable pub store_value : Option Location → ℕ → ℕ → M Asm
unfolding size_of new_value
store_value loc m i = do
  size ← size_of m
  r ← get_reg i
  ice_when (ltb (reg_size r) size)
  new_value loc m i record { offset = 0; size = size }

pub data OpKind : Type 0 where
  arithmetic bitwise comparison unknown : OpKind

unfoldable pub op_kind : Token → OpKind
op_kind add = arithmetic
op_kind sub = arithmetic
op_kind mul = arithmetic
op_kind quo = arithmetic
op_kind rem = arithmetic
op_kind and_token = bitwise
op_kind or_token = bitwise
op_kind xor_token = bitwise
op_kind shl = bitwise
op_kind shr = bitwise
op_kind and_not = bitwise
op_kind eql = comparison
op_kind neq = comparison
op_kind leq = comparison
op_kind geq = comparison
op_kind lss = comparison
op_kind gtr = comparison
op_kind other_token = unknown

-- `consts` has what go/ssa tells of the constant behind an identifier.
module _ (consts : ℕ → Const) where
  -- `LoadValue`.
  unfoldable pub load_part : Option Location → ℕ → Region → M (Asm × ℕ)
  unfolding load load_constant
  load_part loc m chunk = do
    s ← read λ f. f.storage m
    elim s [
      | memory aliases regions ↦ load loc m chunk
      | constant aliases ↦ load_constant loc (consts m) m chunk
    ]

  -- `LoadValueSimple`.
  unfoldable pub load_whole : Option Location → ℕ → M (Asm × ℕ)
  unfolding load_part size_of
  load_whole loc m = size_of m >>= λ size. load_part loc m record { offset = 0; size = size }

  unfoldable pub load_operand : Option Location → ℕ → M (Asm × ℕ)
  unfolding load_whole
  load_operand loc m = do
    found ← load_whole loc m
    r ← get_reg found.1
    put_reg found.1 (record r { in_use = true })
    pure found

  -- `BinOpLoadXY`.
  unfoldable pub bin_op_load_xy : Option Location → ℕ → ℕ → ℕ → M (Asm × ℕ × ℕ)
  unfolding load_operand
  bin_op_load_xy loc m x y = do
    no_pointer m
    no_pointer x
    a ← load_operand loc x
    no_pointer y
    b ← load_operand loc y
    pure (a.0 ++ b.0, a.1, b.1)

  -- The switch of `BinOp`.
  unfoldable pub emit_bin_op : Option Location → Token → Bool → ℕ → ℕ → ℕ → ℕ → ℕ → ℕ → M Asm
  unfolding size_of op_kind get_op_data_type arith_op bitwise_op cmp_op
  emit_bin_op loc op is_signed m x y reg_x reg_y reg_val = do
    ident ← get_ident m
    left ← get_ident x
    size ← size_of x
    elim (op_kind op) [
      | arithmetic ↦ lift (get_op_data_type (Identifier.typ ident)) >>= λ optypes.
          arith_op loc optypes op (slot reg_x) (slot reg_y) (slot reg_val)
      | bitwise ↦ bitwise_op loc op is_signed (slot reg_x) (slot reg_y) (slot reg_val) size
      | comparison ↦ size_of y >>= λ size_y.
          ice_when (not (size == size_y))
          >> (lift (get_op_data_type (Identifier.typ left)) >>= λ optypes.
              cmp_op loc optypes op (slot reg_x) (slot reg_y) (slot reg_val))
      | unknown ↦ lift ice
    ]

  -- One byte is the size of a comparison's result, for which no register is allocated.
  unfoldable pub bin_op : Option Location → Token → ℕ → ℕ → ℕ → M Asm
  unfolding size_of signed alloc_ident_reg bin_op_load_xy emit_bin_op free_reg store_value
  bin_op loc op m x y = do
    ident ← get_ident m
    left ← get_ident x
    size ← size_of m
    is_signed ← lift (signed (Identifier.typ left))
    val ← alloc_ident_reg loc ident (if size == 1 then 8 * size else size)
    xy ← bin_op_load_xy loc m x y
    c ← emit_bin_op loc op is_signed m x y xy.1 xy.2 val.1
    free_reg xy.1
    free_reg xy.2
    d ← store_value loc m val.1
    free_reg val.1
    pure (val.0 ++ xy.0 ++ c ++ d)

  -- The constant is that of `^` or of `!`.
  unfoldable pub un_op_xor : Option Location → ℤ → ℕ → ℕ → M Asm
  unfolding load_whole xor_imm_reg store_value free_reg
  un_op_xor loc xor_val m x = do
    found ← load_whole loc x
    r ← get_reg found.1
    b ← xor_imm_reg loc xor_val (slot found.1) (reg_size r) true
    c ← store_value loc m found.1
    free_reg found.1
    pure (found.0 ++ b ++ c)

  -- Zero less the operand.
  unfoldable pub un_op_sub : Option Location → ℕ → ℕ → M Asm
  unfolding size_of alloc_reg reg_type load_whole zero_reg get_op_data_type arith_op free_reg
      store_value
  un_op_sub loc m x = do
    ident ← get_ident m
    operand ← get_ident x
    size ← size_of m
    val ← alloc_reg loc (reg_type (Identifier.typ ident)) size
    size_x ← size_of x
    zeroed ← alloc_reg loc (reg_type (Identifier.typ operand)) size_x
    c ← load_whole loc x
    d ← zero_reg loc (slot zeroed.1)
    optypes ← lift (get_op_data_type (Identifier.typ ident))
    e ← arith_op loc optypes sub (slot zeroed.1) (slot c.1) (slot val.1)
    free_reg c.1
    free_reg zeroed.1
    g ← store_value loc m val.1
    free_reg val.1
    pure (val.0 ++ zeroed.0 ++ c.0 ++ d ++ e ++ g)
