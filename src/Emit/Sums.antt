-- ===== src/Emit/Sums.antt =====
-- The sums and differences of ArithOp on integers in general registers, against Go's operators.
use gensimd.Common.{ℕ, ◌+◌, ◌-◌, ◌%◌, ◌^◌, ◌≡◌, ◌≢◌, refl, Bool, false, Option}
use gensimd.Reg.{Register}
use gensimd.Instr.Forms.{InstructionType, i_add, i_sub}
use gensimd.Function.{Function, Location}
use gensimd.State.{slot}
use gensimd.Types.{OpDataType}
use gensimd.Emit.Write.{data_type}
use gensimd.Emit.Arith.{
  Token, add, sub, combine_reg_reg, three_widths, after_move, arith_case, arith_op,
}
use gensimd.Emit.Cpu.{Cpu, WordOp, low, added, subtracted}
use gensimd.Emit.Lines.{Holds}
use gensimd.Emit.Known.{Width, bytes, bits, on_words, Chosen, chosen_add, chosen_sub}
use gensimd.Emit.Run.{Computes, mod_mod}
use gensimd.Emit.Compute.{three_widths_lem, after_move_lem, Computes-same, then_lem}

-- The operators of ArithOp without a quotient or a product, and what Go makes of two words by them,
-- to be taken modulo 2 ^ w.
pub data SumOp : Type 0 where
  plus minus : SumOp

abbrev pub sum_token : SumOp → Token
sum_token plus = add
sum_token minus = sub

abbrev pub go_sum : SumOp → WordOp
go_sum plus w x y = x + y
go_sum minus w x y = x + (2 ^ w - y)

module _ (f : Function) (loc : Option Location) (i j k : ℕ) (r x y : Register) (h : Holds f i r)
    (hx : Holds f j x) (hy : Holds f k y) (nx : x.name ≢ r.name) (ny : y.name ≢ r.name)
    {Machine : Type 0} (cpu : Cpu Machine) where
  module _ (signed : Bool) (w : Width) where
    -- The code that moves the left operand to the result and works on it.
    arith_two :
        (itype : InstructionType) (op : WordOp)
        (c : Chosen itype (data_type signed (bytes w)) (on_words op w))
        → Computes cpu
            (after_move loc
              (data_type signed (bytes w))
              (slot j)
              (slot i)
              (combine_reg_reg itype loc (data_type signed (bytes w)) (slot k) (slot i) false)
              f)
            f
            i
            r
            w
            (λ m. op (bits w) (low cpu (bits w) m y.name) (low cpu (bits w) m x.name) % 2 ^ bits w)
    arith_two itype op c =
        after_move_lem f loc i j k r x y h hx hy nx ny signed w itype op c cpu
          (combine_reg_reg itype loc (data_type signed (bytes w)) (slot k) (slot i) false) refl

  arith_op_steps :
      (dt : OpDataType) (op : Token)
      → arith_op loc dt op (slot j) (slot k) (slot i) f
        ≡ arith_case loc dt op (slot j) (slot k) (slot i) f
  unfolding arith_op
  arith_op_steps dt op =
      then_lem (three_widths (slot j) (slot k) (slot i))
        (arith_case loc dt op (slot j) (slot k) (slot i)) f
        (three_widths_lem f loc i j k r x y h hx hy)

  -- For three general registers in slots, the result's of another name than the operands', and an
  -- integer type of one, two, four or eight bytes, ArithOp for + and - returns code and only marks the
  -- result's register as changed. On every processor that meets the laws of Cpu, the code leaves the sum
  -- or difference of the operands, modulo 2 ^ w, in the low w bits of the result's register, and every
  -- other general register as it was.
  pub arith_op_lem :
      (op : SumOp) (signed : Bool) (w : Width)
      → Computes cpu
          (arith_op loc (data_type signed (bytes w)) (sum_token op) (slot j) (slot k) (slot i) f)
          f
          i
          r
          w
          (λ m.
            go_sum op (bits w) (low cpu (bits w) m x.name) (low cpu (bits w) m y.name) % 2 ^ bits w)
  unfolding arith_case
  arith_op_lem plus signed w =
      Computes-same (arith_op_steps (data_type signed (bytes w)) add)
        (λ m. mod_mod w (low cpu (bits w) m x.name + low cpu (bits w) m y.name))
        (arith_two signed w i_add added (chosen_add signed w))
  arith_op_lem minus signed w =
      Computes-same (arith_op_steps (data_type signed (bytes w)) sub)
        (λ m. mod_mod w (low cpu (bits w) m x.name + (2 ^ bits w - low cpu (bits w) m y.name)))
        (arith_two signed w i_sub subtracted (chosen_sub signed w))
