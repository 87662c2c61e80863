-- ===== src/Emit/Unsigned.antt =====
-- ArithOp for / and % on integers without sign in general registers, against Go's operators.
use gensimd.Common.{
  ℕ, ◌/◌, ◌%◌, ◌^◌, ◌≡◌, ◌≢◌, ◌∙◌, false, [], ◌∷◌, ◌++◌, Option, some, String, Result, ok,
}
use gensimd.Reg.{Register}
use gensimd.Function.{Function, Location}
use gensimd.State.{Asm, slot, reg_reg}
use gensimd.Instr.Forms.{i_mov}
use gensimd.Emit.Write.{data_type}
use gensimd.Emit.Arith.{Token, quo, rem, arith_op}
use gensimd.Emit.Cpu.{Cpu, divides, meaning, moved, run_all, low}
use gensimd.Emit.Lines.{Holds, marked}
use gensimd.Emit.Known.{Width, bytes, bits, on_words, Chosen, chosen_mov}
use gensimd.Emit.DivideSteps.{chosen_div, Division, division}
use gensimd.Emit.Divide.{arith_op-quo, arith_op-rem}
use gensimd.Emit.Quotient.{
  Wider, Free, chosen_div-meaning, remainder_in-Wider, divided, code-result, code-others,
}

pub data QuotientOp : Type 0 where
  whole rest : QuotientOp

abbrev pub quotient_token : QuotientOp → Token
quotient_token whole = quo
quotient_token rest = rem

-- Go's quotient and remainder of words without sign.
abbrev pub go_quotient : QuotientOp → ℕ → ℕ → ℕ
go_quotient whole x y = x / y
go_quotient rest x y = x % y

abbrev left_in : QuotientOp → String
left_in whole = "AX"
left_in rest = "DX"

-- `res` is a normal return of code that only marks the register `r` of slot `i` as changed. Run on
-- the processor with a divisor that is not zero, the code leaves the answer in the low bits of `r`;
-- other general registers but AX and DX stay as they were.
pub record Divides {Machine : Type 0} (cpu : Cpu Machine) (res : Result (Asm × Function))
    (f : Function) (i : ℕ) (r x y : Register) (w : Width) (op : QuotientOp) : Type 0 where
  pub asm : Asm
  pub returns : res ≡ ok (asm, marked i r f)
  pub result :
      (m : Machine)
      → low cpu (bits w) m y.name ≢ 0
      → low cpu (bits w) (run_all cpu asm m) r.name
        ≡ go_quotient op (low cpu (bits w) m x.name) (low cpu (bits w) m y.name) % 2 ^ bits w
  pub others :
      (m : Machine) (name : String)
      → Free name
      → name ≢ r.name
      → cpu.read (run_all cpu asm m) name ≡ cpu.read m name

module _ (f : Function) (loc : Option Location) (i j k : ℕ) (r x y : Register) (h : Holds f i r)
    (hx : Holds f j x) (hy : Holds f k y) (fr : Free r.name) (fx : Free x.name) (fy : Free y.name)
    {Machine : Type 0} (cpu : Cpu Machine) (w : Width) (wider : Wider w) where
  -- For three general registers in slots, none of them AX or DX, and integers without sign of two, four
  -- or eight bytes, ArithOp for / and % returns code and only marks the result's register as changed.
  -- On every processor that meets the laws of Cpu, where the divisor is not zero, the code leaves the
  -- quotient or the remainder in the low w bits of the result's register, and every other general
  -- register but AX and DX as it was.
  pub arith_op-Divides :
      (op : QuotientOp)
      → Divides cpu
          (arith_op loc
            (data_type false (bytes w))
            (quotient_token op)
            (slot j)
            (slot k)
            (slot i)
            f)
          f
          i
          r
          x
          y
          w
          op
  arith_op-Divides whole =
      let mov : Chosen i_mov (data_type false (bytes w)) (on_words moved w) = chosen_mov false w in
      let div : Division false w = chosen_div false w in
      let ed : meaning div.instr ≡ some (divides (bits w)) = chosen_div-meaning w wider in
      record {
        asm = division w mov.instr div.instr x.name y.name ++ reg_reg mov.instr "AX" r.name ∷ [];
        returns = arith_op-quo f loc i j k r x y h hx hy false w;
        result = λ m n.
            code-result cpu w mov.instr div.instr x.name y.name mov.means ed fx fy "AX" r.name fr
              wider m
            ∙ (divided cpu w mov.instr div.instr x.name y.name mov.means ed fx fy m n).0;
        others =
            code-others cpu w mov.instr div.instr x.name y.name mov.means ed fx fy "AX" r.name fr
              wider;
      }
  arith_op-Divides rest =
      let mov : Chosen i_mov (data_type false (bytes w)) (on_words moved w) = chosen_mov false w in
      let div : Division false w = chosen_div false w in
      let ed : meaning div.instr ≡ some (divides (bits w)) = chosen_div-meaning w wider in
      record {
        asm = division w mov.instr div.instr x.name y.name ++ reg_reg mov.instr "DX" r.name ∷ [];
        returns = arith_op-rem f loc i j k r x y h hx hy false w (remainder_in-Wider w wider);
        result = λ m n.
            code-result cpu w mov.instr div.instr x.name y.name mov.means ed fx fy "DX" r.name fr
              wider m
            ∙ (divided cpu w mov.instr div.instr x.name y.name mov.means ed fx fy m n).1;
        others =
            code-others cpu w mov.instr div.instr x.name y.name mov.means ed fx fy "DX" r.name fr
              wider;
      }
