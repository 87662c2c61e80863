-- ===== src/Emit/Divide.antt =====
-- The quotients and remainders of ArithOp on integers in general registers.
use gensimd.Common.{
  ℕ, ◌≡◌, refl, ◌∙◌, Bool, true, false, [], ◌∷◌, ◌++◌, Option, some, ok, fault, nil_dereference,
  arith, if◌then◌else◌,
}
use gensimd.Reg.{Register}
use gensimd.Types.{op_data}
use gensimd.Instr.Entry.{Instruction}
use gensimd.Instr.Forms.{i_mov}
use gensimd.Function.{Function, Location}
use gensimd.State.{reg, reg_reg, slot, copy, mark_dirty}
use gensimd.Emit.Write.{data_type, instr_reg, instr_reg_reg, modified}
use gensimd.Emit.Move.{mov_reg_reg, in_xmm}
use gensimd.Emit.Arith.{quo, rem, arith_op, arith_case, quotient, div_reg_reg, three_widths}
use gensimd.Emit.Lines.{Holds, Known, marked, marked-Holds-same, modified_lem}
use gensimd.Emit.Known.{Width, byte, bytes, on_words, Chosen, chosen_mov}
use gensimd.Emit.Cpu.{moved}
use gensimd.Emit.Word.{mov_choice_lem}
use gensimd.Emit.Compute.{three_widths_lem, then_lem}
use gensimd.Emit.DivideSteps.{
  rax, rdx, fixed_ax, fixed_dx, Division, chosen_div, zero_rax, division, remainder_in, fits_64,
  clear_step, remainder_step,
}

module _ (f : Function) (loc : Option Location) (i j k : ℕ) (r x y : Register) (h : Holds f i r)
    (hx : Holds f j x) (hy : Holds f k y) (signed : Bool) (w : Width) where
  abbrev pub instr : Instruction
  instr = Division.instr (chosen_div signed w)

  mov_to_rax :
      mov_reg_reg loc (data_type signed (bytes w)) (slot j) (copy rax) false f
      ≡ ok (reg_reg (Chosen.instr (chosen_mov signed w)) x.name "AX" ∷ [], f)
  unfolding mov_reg_reg instr_reg_reg modified mark_dirty
  mov_to_rax =
      let c : Chosen i_mov (data_type signed (bytes w)) (on_words moved w) = chosen_mov signed w in
      ground (
        arith,
        hx.at_slot,
        hx.wide,
        mov_choice_lem signed w x rax c.instr hx.integer refl c.selected,
        Known.known c.table,
        Known.left c.table,
        Known.changes c.table,
      )

  divide : instr_reg loc instr (slot k) false f ≡ ok (reg instr y.name ∷ [], f)
  unfolding instr_reg
  divide =
      let t : Known instr false = Division.table (chosen_div signed w) in
      ground (arith, hy.at_slot, t.known, t.changes)

  mov_from :
      (c : Register)
      → c.width ≡ 64
      → in_xmm c ≡ false
      → mov_reg_reg loc (data_type signed (bytes w)) (copy c) (slot i) false f
        ≡ ok (reg_reg (Chosen.instr (chosen_mov signed w)) c.name r.name ∷ [], marked i r f)
  unfolding mov_reg_reg instr_reg_reg
  mov_from c e n =
      let mov : Chosen i_mov (data_type signed (bytes w)) (on_words moved w) =
        chosen_mov signed w in
      let t : Known mov.instr true = mov.table in
      ground (
        arith,
        h.at_slot,
        h.wide,
        e,
        n,
        mov_choice_lem signed w c r mov.instr n h.integer mov.selected,
        t.known,
        t.left,
        t.changes,
        modified_lem f i r h loc,
        Holds.at_slot (marked-Holds-same f i r h),
      )

  div_reg_reg_lem :
      div_reg_reg loc signed op_data (slot j) (slot k) (bytes w) f
      ≡ ok (
        (
          division w (Chosen.instr (chosen_mov signed w)) instr x.name y.name,
          copy rax,
          remainder_in w,
        ),
        f,
      )
  unfolding div_reg_reg
  div_reg_reg_lem = ground (
    arith,
    hx.at_slot,
    hy.at_slot,
    hx.wide,
    hy.wide,
    fits_64 w,
    fixed_ax f,
    fixed_dx f,
    zero_rax f loc,
    clear_step f loc w,
    remainder_step w,
    mov_to_rax,
    Division.selected (chosen_div signed w),
    divide,
  )

  abbrev pub mov : Instruction
  mov = Chosen.instr (chosen_mov signed w)

  quotient_from :
      (is_quo : Bool) (c : Register)
      → c.width ≡ 64
      → in_xmm c ≡ false
      → (if is_quo then some (copy rax) else remainder_in w) ≡ some (copy c)
      → quotient loc (data_type signed (bytes w)) is_quo (slot j) (slot k) (slot i) f
        ≡ ok (division w mov instr x.name y.name ++ reg_reg mov c.name r.name ∷ [], marked i r f)
  unfolding quotient
  quotient_from is_quo c e n s = ground (arith, div_reg_reg_lem, s, mov_from c e n)

  -- The quotient of integers of any size.
  pub arith_op-quo :
      arith_op loc (data_type signed (bytes w)) quo (slot j) (slot k) (slot i) f
      ≡ ok (division w mov instr x.name y.name ++ reg_reg mov "AX" r.name ∷ [], marked i r f)
  unfolding arith_op arith_case
  arith_op-quo =
      then_lem (three_widths (slot j) (slot k) (slot i))
        (quotient loc (data_type signed (bytes w)) true (slot j) (slot k) (slot i)) f
        (three_widths_lem f loc i j k r x y h hx hy)
      ∙ quotient_from true rax refl refl refl

  pub arith_op-rem :
      remainder_in w ≡ some (copy rdx)
      → arith_op loc (data_type signed (bytes w)) rem (slot j) (slot k) (slot i) f
        ≡ ok (division w mov instr x.name y.name ++ reg_reg mov "DX" r.name ∷ [], marked i r f)
  unfolding arith_op arith_case
  arith_op-rem s =
      then_lem (three_widths (slot j) (slot k) (slot i))
        (quotient loc (data_type signed (bytes w)) false (slot j) (slot k) (slot i)) f
        (three_widths_lem f loc i j k r x y h hx hy)
      ∙ quotient_from false rdx refl refl s

-- A remainder of one byte.
module _ (f : Function) (loc : Option Location) (i j k : ℕ) (r x y : Register) (h : Holds f i r)
    (hx : Holds f j x) (hy : Holds f k y) (signed : Bool) where
  -- For three general registers in slots, ArithOp for % on integers of one byte, with sign or without,
  -- dereferences the nil pointer that DivRegReg returns for the remainder.
  pub rem_of_byte_error :
      arith_op loc (data_type signed 1) rem (slot j) (slot k) (slot i) f ≡ fault nil_dereference
  unfolding arith_op arith_case quotient
  rem_of_byte_error =
      then_lem (three_widths (slot j) (slot k) (slot i))
        (quotient loc (data_type signed 1) false (slot j) (slot k) (slot i)) f
        (three_widths_lem f loc i j k r x y h hx hy)
      ∙ ground (arith, div_reg_reg_lem f loc i j k r x y h hx hy signed byte)
