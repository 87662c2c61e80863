-- ===== src/Emit/Compute.antt =====
-- A move to the result and an operation on it: the code that ArithOp and BitwiseOp have in common.
use gensimd.Common.{
  ℕ, ◌%◌, ◌^◌, ◌≡◌, ◌≢◌, ap, ◌∙◌, Bool, true, false, [], ◌∷◌, Option, Result, ok, fault, arith,
}
use gensimd.Reg.{Register}
use gensimd.Instr.Forms.{InstructionType}
use gensimd.Function.{Function, Location}
use gensimd.State.{reg_reg, Asm, slot, M, ◌>>◌}
use gensimd.Emit.Write.{data_type}
use gensimd.Emit.Move.{mov_reg_reg}
use gensimd.Emit.Arith.{combine_reg_reg, three_widths, after_move}
use gensimd.Emit.Cpu.{Cpu, WordOp, low}
use gensimd.Emit.Lines.{Holds, marked, marked-Holds, marked-Holds-same, marked-marked}
use gensimd.Emit.Known.{Width, bytes, bits, on_words, Chosen, chosen_mov}
use gensimd.Emit.Word.{mov_reg_reg_lem, combine_reg_reg_lem}
use gensimd.Emit.Run.{Computes, move_then-value, move_then-others}

-- Registers of different names stand in different slots.
pub slots_apart :
    (f : Function) (i j : ℕ) (r q : Register) → Holds f i r → Holds f j q → q.name ≢ r.name → j ≢ i
slots_apart f i j r q h k n e = n (ground (arith, e, Holds.at_slot h, Holds.at_slot k))

module _ (f : Function) (loc : Option Location) (i j k : ℕ) (r x y : Register) (h : Holds f i r)
    (hx : Holds f j x) (hy : Holds f k y) where
  pub three_widths_lem : three_widths (slot j) (slot k) (slot i) f ≡ ok (tt, f)
  three_widths_lem = ground (
    arith,
    Holds.at_slot h,
    Holds.at_slot hx,
    Holds.at_slot hy,
    Holds.wide h,
    Holds.wide hx,
    Holds.wide hy,
  )

  module _ (nx : x.name ≢ r.name) (ny : y.name ≢ r.name) (signed : Bool) (w : Width) where
    pub moves :
        mov_reg_reg loc (data_type signed (bytes w)) (slot j) (slot i) false f
        ≡ ok (reg_reg (Chosen.instr (chosen_mov signed w)) x.name r.name ∷ [], marked i r f)
    moves =
        mov_reg_reg_lem f loc i j r x (slots_apart f i j r x h hx nx) h hx signed w
          (Chosen.instr (chosen_mov signed w)) (Chosen.selected (chosen_mov signed w))
          (Chosen.table (chosen_mov signed w))

    -- A move to the result and an operation of the other operand on it.
    module _ (itype : InstructionType) (op : WordOp)
        (c : Chosen itype (data_type signed (bytes w)) (on_words op w)) where
      pub combines :
          combine_reg_reg itype loc
            (data_type signed (bytes w))
            (slot k)
            (slot i)
            false
            (marked i r f)
          ≡ ok (reg_reg (Chosen.instr c) y.name r.name ∷ [], marked i r f)
      combines =
          combine_reg_reg_lem (marked i r f) loc i k (record r { dirty = true }) y apart
            (marked-Holds-same f i r h) (marked-Holds f i r h k y apart hy) itype signed w
            (Chosen.instr c) (Chosen.selected c) (Chosen.table c)
          ∙ ap (λ g. ok (reg_reg (Chosen.instr c) y.name r.name ∷ [], g)) (marked-marked f i r h)
        where
          apart : k ≢ i
          apart = slots_apart f i k r y h hy ny

      pub after_move_lem :
          {Machine : Type 0} (cpu : Cpu Machine) (rest : M Asm)
          → rest (marked i r f)
            ≡ combine_reg_reg itype loc
                (data_type signed (bytes w))
                (slot k)
                (slot i)
                false
                (marked i r f)
          → Computes cpu
              (after_move loc (data_type signed (bytes w)) (slot j) (slot i) rest f)
              f
              i
              r
              w
              (λ m.
                op (bits w) (low cpu (bits w) m y.name) (low cpu (bits w) m x.name) % 2 ^ bits w)
      after_move_lem cpu rest e = record {
        asm =
            reg_reg (Chosen.instr (chosen_mov signed w)) x.name r.name
            ∷ reg_reg (Chosen.instr c) y.name r.name
            ∷ [];
        returns = ground (arith, moves, e, combines);
        result =
            move_then-value cpu w r.name (Holds.general h) op (Chosen.instr (chosen_mov signed w))
              (Chosen.instr c) x.name y.name (Chosen.means (chosen_mov signed w)) (Chosen.means c)
              (Holds.general hy) ny;
        others =
            move_then-others cpu w r.name (Holds.general h) op (Chosen.instr (chosen_mov signed w))
              (Chosen.instr c) x.name y.name (Chosen.means (chosen_mov signed w)) (Chosen.means c)
              (Holds.general hy) ny;
      }

-- Equal results compute equal values.
pub Computes-same :
    {Machine : Type 0} {cpu : Cpu Machine} {res res' : Result (Asm × Function)} {f : Function}
    {i : ℕ} {r : Register} {w : Width} {value value' : Machine → ℕ}
    → res' ≡ res
    → ((m : Machine) → value m ≡ value' m)
    → Computes cpu res f i r w value
    → Computes cpu res' f i r w value'
Computes-same p e c = record {
  asm = c.asm;
  returns = p ∙ c.returns;
  result = λ m. c.result m ∙ e m;
  others = c.others;
}

-- A step that changes nothing.
pub then_lem :
    (m : M (Unit {0})) (rest : M Asm) (f : Function) → m f ≡ ok (tt, f) → (m >> rest) f ≡ rest f
then_lem m rest f h = ap (λ res. elim res [ ok (a, f') ↦ rest f' | fault e ↦ fault e ]) h
