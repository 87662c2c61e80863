-- ===== src/Checks/Machine.antt =====
-- Emitted code, run on a processor.
use text.Mathlib.TextEquality.{eq_iff}
use gensimd.Common.{
  fault, nil_dereference, ℕ, ◌+◌, ◌-◌, ◌%◌, ◌^◌, ◌≡◌, ◌≢◌, refl, true, false, [], ◌∷◌, none, String,
  arith,
}
use gensimd.Reg.{Register, data_reg, quad_sizes}
use gensimd.Reg.Names.{Reg, reg_r8, reg_r9, reg_r10}
use Prim.Native.Nat.{bit_and}
use gensimd.State.{slot}
use gensimd.Function.{Function, Identifier}
use gensimd.Emit.Write.{data_type}
use gensimd.Emit.Cpu.{is_general, as_byte, low}
use gensimd.Emit.Arith.{arith_op, sub, rem, and_not, leq}
use gensimd.Emit.Logic.{bitwise_op}
use gensimd.Emit.Lines.{Holds}
use gensimd.Emit.Known.{byte, word, long}
use gensimd.Emit.Run.{Computes, complement}
use gensimd.Emit.Sums.{minus}
use gensimd.Emit.Bits.{without_of, bitwise_op_lem}
use gensimd.Emit.Divide.{rem_of_byte_error}
use gensimd.Emit.Quotient.{Free, of_long}
use gensimd.Emit.Unsigned.{Divides, rest, arith_op-Divides}
use gensimd.Emit.Order.{at_most, go_compare}
use gensimd.Checks.State.{state, x}
use gensimd.Types.{BasicKind, basic, int16, uint8}
use gensimd.Load.Constant.{Const}
use gensimd.Common.Int.{pos}
use gensimd.Packed.Operations.{shuf_u32x4}
use gensimd.Packed.Shuffle.{no_code, shuf_u32x4_error}
use gensimd.Translate.{emit_bin_op}
use gensimd.Translate.Integers.{signed_int, unsigned_int, emit_bin_op-sum, emit_bin_op-compare}
use gensimd.Checks.Processor.{cpu}

abbrev general : String → Reg → Register
general name regconst = record {
  name = name;
  in_use = true;
  regconst = regconst;
  typ = data_reg;
  width = 64;
  datasizes = quad_sizes;
  dirty = false;
  parent = none;
}

abbrev three : Function
three = record state {
  registers = general "R8" reg_r8 ∷ general "R9" reg_r9 ∷ general "R10" reg_r10 ∷ [];
}

r8-Holds : Holds three 0 (general "R8" reg_r8)
unfolding is_general
r8-Holds = record { at_slot = refl; integer = refl; wide = refl; general = refl }

r9-Holds : Holds three 1 (general "R9" reg_r9)
unfolding is_general
r9-Holds = record { at_slot = refl; integer = refl; wide = refl; general = refl }

r10-Holds : Holds three 2 (general "R10" reg_r10)
unfolding is_general
r10-Holds = record { at_slot = refl; integer = refl; wide = refl; general = refl }

apart_8_10 : ◌≢◌ {A = String} "R8" "R10"
apart_8_10 = ground (arith, eq_iff "R8" "R10")

apart_9_10 : ◌≢◌ {A = String} "R9" "R10"
apart_9_10 = ground (arith, eq_iff "R9" "R10")

bitwise_op_lem_example :
    Computes cpu
      (bitwise_op none and_not true (slot 0) (slot 1) (slot 2) 2 three)
      three
      2
      (general "R10" reg_r10)
      word
      (λ m. bit_and (low cpu 16 m "R8") (complement 16 (low cpu 16 m "R9")) % 2 ^ 16)
bitwise_op_lem_example =
    bitwise_op_lem three none 2 0 1 (general "R10" reg_r10) (general "R8" reg_r8)
      (general "R9" reg_r9) r10-Holds r8-Holds r9-Holds apart_8_10 apart_9_10 cpu word without_of
      true

r8-Free : Free "R8"
unfolding is_general
r8-Free = record {
  general = refl;
  not_ax = ground (arith, eq_iff "R8" "AX");
  not_dx = ground (arith, eq_iff "R8" "DX");
}

r9-Free : Free "R9"
unfolding is_general
r9-Free = record {
  general = refl;
  not_ax = ground (arith, eq_iff "R9" "AX");
  not_dx = ground (arith, eq_iff "R9" "DX");
}

r10-Free : Free "R10"
unfolding is_general
r10-Free = record {
  general = refl;
  not_ax = ground (arith, eq_iff "R10" "AX");
  not_dx = ground (arith, eq_iff "R10" "DX");
}

arith_op-Divides_example :
    Divides cpu
      (arith_op none (data_type false 4) rem (slot 0) (slot 1) (slot 2) three)
      three
      2
      (general "R10" reg_r10)
      (general "R8" reg_r8)
      (general "R9" reg_r9)
      long
      rest
arith_op-Divides_example =
    arith_op-Divides three none 2 0 1 (general "R10" reg_r10) (general "R8" reg_r8)
      (general "R9" reg_r9) r10-Holds r8-Holds r9-Holds r10-Free r8-Free r9-Free cpu long of_long
      rest

rem_of_byte_error_example :
    arith_op none (data_type true 1) rem (slot 0) (slot 1) (slot 2) three ≡ fault nil_dereference
rem_of_byte_error_example =
    rem_of_byte_error three none 2 0 1 (general "R10" reg_r10) (general "R8" reg_r8)
      (general "R9" reg_r9) r10-Holds r8-Holds r9-Holds true

abbrev value_of : BasicKind → Identifier
value_of kind = record x { typ = basic kind }

-- Every value has the type `kind`.
abbrev typed : BasicKind → Function
typed kind = record three { identifiers = λ m. value_of kind }

abbrev no_consts : ℕ → Const
no_consts m = record { is_true = false; int64 = pos 0; uint64 = 0; bits32 = 0; bits64 = 0 }

-- The registers are those of `three`.
held-Holds : {i : ℕ} {r : Register} (kind : BasicKind) → Holds three i r → Holds (typed kind) i r
held-Holds kind h = record {
  at_slot = h.at_slot;
  integer = h.integer;
  wide = h.wide;
  general = h.general;
}

emit_bin_op-sum_example :
    Computes cpu
      (emit_bin_op no_consts none sub true 2 0 1 0 1 2 (typed int16))
      (typed int16)
      2
      (general "R10" reg_r10)
      word
      (λ s. (low cpu 16 s "R8" + (2 ^ 16 - low cpu 16 s "R9")) % 2 ^ 16)
emit_bin_op-sum_example =
    emit_bin_op-sum no_consts (typed int16) none true 2 0 1 2 0 1 (general "R10" reg_r10)
      (general "R8" reg_r8) (general "R9" reg_r9) (held-Holds int16 r10-Holds)
      (held-Holds int16 r8-Holds) (held-Holds int16 r9-Holds) (signed_int word) refl cpu minus refl
      apart_8_10 apart_9_10

emit_bin_op-compare_example :
    Computes cpu
      (emit_bin_op no_consts none leq false 2 0 1 0 1 2 (typed uint8))
      (typed uint8)
      2
      (general "R10" reg_r10)
      byte
      (λ s. as_byte (go_compare at_most false 8 (low cpu 8 s "R8") (low cpu 8 s "R9")))
emit_bin_op-compare_example =
    emit_bin_op-compare no_consts (typed uint8) none false 2 0 1 2 0 1 (general "R10" reg_r10)
      (general "R8" reg_r8) (general "R9" reg_r9) (held-Holds uint8 r10-Holds)
      (held-Holds uint8 r8-Holds) (held-Holds uint8 r9-Holds) (unsigned_int byte) refl cpu refl
      at_most

-- The order is a constant of eight bits.
shuf_u32x4_error_example : no_code (shuf_u32x4 no_consts none 0 1 2 (typed int16)) ≡ true
shuf_u32x4_error_example = shuf_u32x4_error no_consts none 0 1 2 (typed int16)
