-- ===== src/Storage/Scalars.antt =====
-- codegen/storage.go: moves for whole values of the scalar types that the translator takes.
use gensimd.Common.{ℕ, ◌<◌, ◌≡◌, refl, Bool, true, false, ok, arith}
use gensimd.Types.{
  GoType, OpDataType, tuple, other_type, basic, pointer, slice, array, named, other_kind, complex64,
  complex128, sizeof, bool, int, int8, int16, int32, int64, uint, uint8, uint16, uint32, uint64,
  float32, float64,
}
use gensimd.Types.Operand.{is_xmm, get_op_data_type}
use gensimd.Instr.Entry.{Instruction}
use gensimd.Instr.Select.{get_instr}
use gensimd.Function.{Identifier, ident_size}
use gensimd.Storage.Save.{Fits, chunk_type, mov_for}

-- Booleans, integers, floating-point numbers and pointers.
abbrev pub is_scalar : GoType → Bool
is_scalar (basic bool) = true
is_scalar (basic int) = true
is_scalar (basic int8) = true
is_scalar (basic int16) = true
is_scalar (basic int32) = true
is_scalar (basic int64) = true
is_scalar (basic uint) = true
is_scalar (basic uint8) = true
is_scalar (basic uint16) = true
is_scalar (basic uint32) = true
is_scalar (basic uint64) = true
is_scalar (basic float32) = true
is_scalar (basic float64) = true
is_scalar (basic complex64) = false
is_scalar (basic complex128) = false
is_scalar (basic other_kind) = false
is_scalar (pointer t) = true
is_scalar tuple = false
is_scalar other_type = false
is_scalar (slice t) = false
is_scalar (array n t) = false
is_scalar (named name) = false

-- A size, an operand type and a move for a whole value of the type.
pub record Movable (t : GoType) : Type 0 where
  pub size : ℕ
  pub optype : OpDataType
  pub instr : Instruction
  pub has_size : sizeof t ≡ ok size
  pub positive : 0 < size
  pub has_type : chunk_type t size ≡ ok optype
  pub has_mov : mov_for optype ≡ ok instr

movable : (t : GoType) → is_scalar t ≡ true → Movable t
unfolding sizeof is_xmm get_op_data_type get_instr
movable (basic bool) h = record {
  size = 1;
  optype = _;
  instr = _;
  has_size = refl;
  positive = omega arith;
  has_type = refl;
  has_mov = refl;
}
movable (basic int) h = record {
  size = 8;
  optype = _;
  instr = _;
  has_size = refl;
  positive = omega arith;
  has_type = refl;
  has_mov = refl;
}
movable (basic int8) h = record {
  size = 1;
  optype = _;
  instr = _;
  has_size = refl;
  positive = omega arith;
  has_type = refl;
  has_mov = refl;
}
movable (basic int16) h = record {
  size = 2;
  optype = _;
  instr = _;
  has_size = refl;
  positive = omega arith;
  has_type = refl;
  has_mov = refl;
}
movable (basic int32) h = record {
  size = 4;
  optype = _;
  instr = _;
  has_size = refl;
  positive = omega arith;
  has_type = refl;
  has_mov = refl;
}
movable (basic int64) h = record {
  size = 8;
  optype = _;
  instr = _;
  has_size = refl;
  positive = omega arith;
  has_type = refl;
  has_mov = refl;
}
movable (basic uint) h = record {
  size = 8;
  optype = _;
  instr = _;
  has_size = refl;
  positive = omega arith;
  has_type = refl;
  has_mov = refl;
}
movable (basic uint8) h = record {
  size = 1;
  optype = _;
  instr = _;
  has_size = refl;
  positive = omega arith;
  has_type = refl;
  has_mov = refl;
}
movable (basic uint16) h = record {
  size = 2;
  optype = _;
  instr = _;
  has_size = refl;
  positive = omega arith;
  has_type = refl;
  has_mov = refl;
}
movable (basic uint32) h = record {
  size = 4;
  optype = _;
  instr = _;
  has_size = refl;
  positive = omega arith;
  has_type = refl;
  has_mov = refl;
}
movable (basic uint64) h = record {
  size = 8;
  optype = _;
  instr = _;
  has_size = refl;
  positive = omega arith;
  has_type = refl;
  has_mov = refl;
}
movable (basic float32) h = record {
  size = 4;
  optype = _;
  instr = _;
  has_size = refl;
  positive = omega arith;
  has_type = refl;
  has_mov = refl;
}
movable (basic float64) h = record {
  size = 8;
  optype = _;
  instr = _;
  has_size = refl;
  positive = omega arith;
  has_type = refl;
  has_mov = refl;
}
movable (basic complex64) h = cc
movable (basic complex128) h = cc
movable (basic other_kind) h = cc
movable (pointer t) h = record {
  size = 8;
  optype = _;
  instr = _;
  has_size = refl;
  positive = omega arith;
  has_type = refl;
  has_mov = refl;
}
movable tuple h = cc
movable other_type h = cc
movable (slice t) h = cc
movable (array n t) h = cc
movable (named name) h = cc

-- Every identifier of a scalar type has a size, and its whole value fits: there is a move of that
-- size for its type, so that a register with the value can be saved.
pub scalar_fits :
    (ident : Identifier)
    → is_scalar ident.typ ≡ true
    → (size : ℕ) × (ident_size ident ≡ ok size) × Fits ident (record { offset = 0; size = size })
unfolding ident_size
scalar_fits ident h =
    let m = movable ident.typ h in
    (
      m.size,
      m.has_size,
      record {
        total = m.size;
        has_size = m.has_size;
        inside = omega arith;
        positive = m.positive;
        optype = m.optype;
        has_type = m.has_type;
        instr = m.instr;
        has_mov = m.has_mov;
      },
    )
