-- ===== src/Load/Constant.antt =====
-- codegen/storage.go: loading a constant into a register. What go/ssa tells of the constant's value
-- is a Const; its bits as a floating-point number are what math.Float64bits and math.Float32bits give.
use gensimd.Common.{
  ℕ, ◌%◌, ◌^◌, Bool, false, not, ◌++◌, Option, none, some, Result, ok, ice, if◌then◌else◌,
}
use gensimd.Common.Int.{ℤ, pos}
use gensimd.Region.{Region}
use gensimd.Reg.{Register, data_reg, xmm_reg, same_type}
use gensimd.Types.{GoType, sizeof}
use gensimd.Types.Operand.{is_bool, is_float, is_float32, is_complex, signed}
use gensimd.Function.{Identifier, Location}
use gensimd.State.{Asm, M, pure, ◌>>=◌, ◌>>◌, lift, ice_when, get_reg, put_reg, slot}
use gensimd.Storage.{fetch, add_alias, get_ident}
use gensimd.Alloc.{alloc_temp_reg, free_reg}
use gensimd.Load.{alloc_ident_reg, hold}
use gensimd.Emit.Write.{signed_of}
use gensimd.Emit.Move.{mov_imm_reg, mov_imm8_reg, mov_imm_float_reg}

pub record Const : Type 0 where
  pub is_true : Bool
  pub int64 : ℤ
  pub uint64 : ℕ
  pub bits32 : ℕ
  pub bits64 : ℕ

-- The branches of `size` that print a message agree with the type's size, where it is as they say.
unfoldable pub const_size : GoType → Result ℕ
unfolding is_bool is_float is_float32 is_complex sizeof
const_size t =
    if is_bool t
    then ok 8
    else if is_float t
    then (if is_float32 t then ok 4 else ok 8)
    else if is_complex t
    then ice
    else sizeof t

abbrev pub bool_bits : Const → ℤ
bool_bits c = if c.is_true then pos 1 else pos 0

-- `int64` of a number without sign wraps around.
abbrev pub int_bits : Bool → Const → ℤ
int_bits is_signed c = if is_signed then c.int64 else signed_of 64 (c.uint64 % 2 ^ 64)

unfoldable pub load_float : Option Location → Const → GoType → ℕ → M Asm
unfolding alloc_temp_reg mov_imm_float_reg free_reg is_float32
load_float loc c t i = do
  r ← get_reg i
  ice_when (not (same_type (Register.typ r) xmm_reg))
  tmp ← alloc_temp_reg data_reg 8
  b ←
      mov_imm_float_reg loc (if is_float32 t then Const.bits32 c else Const.bits64 c) (slot tmp.1)
        (slot i) false
  free_reg tmp.1
  pure (tmp.0 ++ b)

unfoldable pub load_value : Option Location → Const → GoType → ℕ → M Asm
unfolding is_bool is_float is_complex sizeof signed mov_imm_reg load_float
load_value loc c t i =
    if is_bool t
    then mov_imm8_reg loc (bool_bits c) (slot i) false
    else if is_float t
    then load_float loc c t i
    else if is_complex t
    then lift ice
    else (do
      size ← lift (sizeof t)
      is_signed ← lift (signed t)
      mov_imm_reg loc (int_bits is_signed c) size (slot i) false)

unfoldable pub load_new_constant : Option Location → Const → ℕ → Region → M (Asm × ℕ)
unfolding alloc_ident_reg add_alias load_value
load_new_constant loc c m chunk = do
  owner ← get_ident m
  found ← alloc_ident_reg loc owner (Region.size chunk)
  _ ← add_alias m record { dst = found.1; region = chunk }
  asm ← load_value loc c (Identifier.typ owner) found.1
  r ← get_reg found.1
  put_reg found.1 (record r { dirty = false })
  pure (found.0 ++ asm, found.1)

unfoldable pub load_constant : Option Location → Const → ℕ → Region → M (Asm × ℕ)
unfolding fetch load_new_constant
load_constant loc c m chunk = do
  cached ← fetch m chunk
  elim cached [ some i ↦ hold i | none ↦ load_new_constant loc c m chunk ]
