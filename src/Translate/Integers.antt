-- ===== src/Translate/Integers.antt =====
-- The switch of BinOp on Go's integer types.
use gensimd.Common.{ℕ, ◌%◌, ◌^◌, ◌≡◌, ◌≢◌, refl, Bool, true, false, Option, ok, arith, not, ◌==◌}
use gensimd.Reg.{Register}
use gensimd.Types.{
  BasicKind, basic, int, int8, int16, int32, int64, uint, uint8, uint16, uint32, uint64, sizeof,
}
use gensimd.Types.Operand.{get_op_data_type}
use gensimd.Function.{Function, Location, ident_size}
use gensimd.State.{slot}
use gensimd.Emit.Arith.{arith_op}
use gensimd.Emit.Compare.{cmp_op}
use gensimd.Load.Constant.{Const}
use gensimd.Emit.Write.{data_type}
use gensimd.Emit.Cpu.{Cpu, low, as_byte}
use gensimd.Emit.Lines.{Holds}
use gensimd.Emit.Known.{Width, byte, word, long, quad, bytes, bits}
use gensimd.Emit.Run.{Computes}
use gensimd.Emit.Compute.{Computes-same}
use gensimd.Emit.Sums.{SumOp, plus, minus, sum_token, go_sum, arith_op_lem}
use gensimd.Emit.Order.{
  CompareOp, equals, differs, at_most, at_least, under, over, compare_token, go_compare, cmp_op_lem,
}
use gensimd.Translate.{emit_bin_op, op_kind, size_of}

pub data IntKind : Type 0 where
  signed_int unsigned_int : Width → IntKind
  go_int go_uint : IntKind

abbrev pub width_of : IntKind → Width
width_of (signed_int w) = w
width_of (unsigned_int w) = w
width_of go_int = quad
width_of go_uint = quad

abbrev pub is_signed : IntKind → Bool
is_signed (signed_int w) = true
is_signed (unsigned_int w) = false
is_signed go_int = true
is_signed go_uint = false

abbrev pub basic_kind : IntKind → BasicKind
basic_kind (signed_int byte) = int8
basic_kind (signed_int word) = int16
basic_kind (signed_int long) = int32
basic_kind (signed_int quad) = int64
basic_kind (unsigned_int byte) = uint8
basic_kind (unsigned_int word) = uint16
basic_kind (unsigned_int long) = uint32
basic_kind (unsigned_int quad) = uint64
basic_kind go_int = int
basic_kind go_uint = uint

operand_type :
    (k : IntKind)
    → get_op_data_type (basic (basic_kind k)) ≡ ok (data_type (is_signed k) (bytes (width_of k)))
unfolding get_op_data_type
operand_type (signed_int byte) = refl
operand_type (signed_int word) = refl
operand_type (signed_int long) = refl
operand_type (signed_int quad) = refl
operand_type (unsigned_int byte) = refl
operand_type (unsigned_int word) = refl
operand_type (unsigned_int long) = refl
operand_type (unsigned_int quad) = refl
operand_type go_int = refl
operand_type go_uint = refl

size_of_kind : (k : IntKind) → sizeof (basic (basic_kind k)) ≡ ok (bytes (width_of k))
unfolding sizeof
size_of_kind (signed_int byte) = refl
size_of_kind (signed_int word) = refl
size_of_kind (signed_int long) = refl
size_of_kind (signed_int quad) = refl
size_of_kind (unsigned_int byte) = refl
size_of_kind (unsigned_int word) = refl
size_of_kind (unsigned_int long) = refl
size_of_kind (unsigned_int quad) = refl
size_of_kind go_int = refl
size_of_kind go_uint = refl

module _ (consts : ℕ → Const) (f : Function) (loc : Option Location) (signed : Bool)
    (m vx vy i j k : ℕ) (r x y : Register) (h : Holds f i r) (hx : Holds f j x) (hy : Holds f k y)
    (kind : IntKind) (left : (f.identifiers vx).typ ≡ basic (basic_kind kind)) {Machine : Type 0}
    (cpu : Cpu Machine) where
  size_left : size_of vx f ≡ ok (bytes (width_of kind), f)
  unfolding size_of ident_size
  size_left = ground (arith, left, size_of_kind kind)

  sum_steps :
      (op : SumOp)
      → (f.identifiers m).typ ≡ basic (basic_kind kind)
      → emit_bin_op consts loc (sum_token op) signed m vx vy j k i f
        ≡ arith_op loc
            (data_type (is_signed kind) (bytes (width_of kind)))
            (sum_token op)
            (slot j)
            (slot k)
            (slot i)
            f
  unfolding emit_bin_op op_kind
  sum_steps plus t = ground (arith, size_left, t, operand_type kind)
  sum_steps minus t = ground (arith, size_left, t, operand_type kind)

  -- For three general registers in slots, the result's of another name than the operands', the switch of
  -- BinOp for + and - on two values of one of Go's integer types returns code and only marks the result's
  -- register as changed. On every processor that meets the laws of Cpu, the code leaves the sum or
  -- difference of the operands, modulo 2 ^ w for the width w of the type, in the low w bits of the
  -- result's register, and every other general register as it was.
  pub emit_bin_op-sum :
      (op : SumOp)
      → (f.identifiers m).typ ≡ basic (basic_kind kind)
      → x.name ≢ r.name
      → y.name ≢ r.name
      → Computes cpu
          (emit_bin_op consts loc (sum_token op) signed m vx vy j k i f)
          f
          i
          r
          (width_of kind)
          (λ s.
            go_sum op
              (bits (width_of kind))
              (low cpu (bits (width_of kind)) s x.name)
              (low cpu (bits (width_of kind)) s y.name)
            % 2 ^ bits (width_of kind))
  emit_bin_op-sum op t nx ny =
      Computes-same (sum_steps op t) (λ s. refl)
        (arith_op_lem f loc i j k r x y h hx hy nx ny cpu op (is_signed kind) (width_of kind))

  module _ (right : (f.identifiers vy).typ ≡ basic (basic_kind kind)) where
    size_right : size_of vy f ≡ ok (bytes (width_of kind), f)
    unfolding size_of ident_size
    size_right = ground (arith, right, size_of_kind kind)

    same_size : not (bytes (width_of kind) == bytes (width_of kind)) ≡ false
    same_size = ground arith

    compare_steps :
        (op : CompareOp)
        → emit_bin_op consts loc (compare_token op) signed m vx vy j k i f
          ≡ cmp_op loc
              (data_type (is_signed kind) (bytes (width_of kind)))
              (compare_token op)
              (slot j)
              (slot k)
              (slot i)
              f
    unfolding emit_bin_op op_kind
    compare_steps equals = ground (arith, size_left, size_right, same_size, left, operand_type kind)
    compare_steps differs =
        ground (arith, size_left, size_right, same_size, left, operand_type kind)
    compare_steps at_most =
        ground (arith, size_left, size_right, same_size, left, operand_type kind)
    compare_steps at_least =
        ground (arith, size_left, size_right, same_size, left, operand_type kind)
    compare_steps under = ground (arith, size_left, size_right, same_size, left, operand_type kind)
    compare_steps over = ground (arith, size_left, size_right, same_size, left, operand_type kind)

    -- For three general registers in slots, the switch of BinOp for a comparison of two values of one of
    -- Go's integer types returns code and only marks the result's register as changed. On every processor
    -- that meets the laws of Cpu, the code leaves one or zero in the low byte of the result's register, as
    -- the comparison holds or not, with sign exactly for the types that have one, and every other general
    -- register as it was.
    pub emit_bin_op-compare :
        (op : CompareOp)
        → Computes cpu
            (emit_bin_op consts loc (compare_token op) signed m vx vy j k i f)
            f
            i
            r
            byte
            (λ s. as_byte (
              go_compare op
                (is_signed kind)
                (bits (width_of kind))
                (low cpu (bits (width_of kind)) s x.name)
                (low cpu (bits (width_of kind)) s y.name)))
    emit_bin_op-compare op =
        Computes-same (compare_steps op) (λ s. refl)
          (cmp_op_lem f loc i j k r x y h hx hy cpu op (is_signed kind) (width_of kind))
