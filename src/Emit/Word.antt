-- ===== src/Emit/Word.antt =====
-- The code of ArithOp and BitwiseOp for integers in general registers, run on the processor.
use gensimd.Common.{ℕ, ◌≡◌, ◌≢◌, refl, Bool, true, false, [], ◌∷◌, Option, ok, arith}
use gensimd.Common.Int.{negsuc}
use gensimd.Reg.{Register}
use gensimd.Instr.Entry.{Instruction}
use gensimd.Instr.Forms.{InstructionType, i_mov, i_cmp, i_xor}
use gensimd.Instr.Select.{get_instr}
use gensimd.Function.{Function, Location}
use gensimd.State.{reg_reg, imm_reg, slot}
use gensimd.Emit.Write.{data_type, instr_imm_reg, instr_reg_reg, narrow, truncate}
use gensimd.Emit.Move.{mov_reg_reg, mov_choice, in_xmm}
use gensimd.Emit.Arith.{same_width, combine_reg_reg}
use gensimd.Emit.Logic.{xor_imm_reg}
use gensimd.Emit.Lines.{Holds, Known, marked, marked-Holds-same, modified_lem, instr_reg_reg_lem}
use gensimd.Emit.Known.{Width, byte, word, long, quad, bytes}

pub mov_choice_lem :
    (signed : Bool) (w : Width) (q r : Register) (instr : Instruction)
    → in_xmm q ≡ false
    → in_xmm r ≡ false
    → get_instr i_mov (data_type signed (bytes w)) ≡ ok instr
    → mov_choice (data_type signed (bytes w)) q r ≡ ok instr
mov_choice_lem signed w q r instr a b h = rw (a, b, h)

module _ (f : Function) (loc : Option Location) (i j : ℕ) (r q : Register) (n : j ≢ i)
    (h : Holds f i r) (hj : Holds f j q) where
  pub mov_reg_reg_lem :
      (signed : Bool) (w : Width) (instr : Instruction)
      → get_instr i_mov (data_type signed (bytes w)) ≡ ok instr
      → Known instr true
      → mov_reg_reg loc (data_type signed (bytes w)) (slot j) (slot i) false f
        ≡ ok (reg_reg instr q.name r.name ∷ [], marked i r f)
  unfolding mov_reg_reg
  mov_reg_reg_lem signed w instr s k = ground (
    arith,
    Holds.at_slot h,
    Holds.at_slot hj,
    Holds.wide h,
    Holds.wide hj,
    mov_choice_lem signed w q r instr (Holds.integer hj) (Holds.integer h) s,
    instr_reg_reg_lem f loc instr i r h j q n hj k,
  )

  pub combine_reg_reg_lem :
      (itype : InstructionType) (signed : Bool) (w : Width) (instr : Instruction)
      → get_instr itype (data_type signed (bytes w)) ≡ ok instr
      → Known instr true
      → combine_reg_reg itype loc (data_type signed (bytes w)) (slot j) (slot i) false f
        ≡ ok (reg_reg instr q.name r.name ∷ [], marked i r f)
  unfolding combine_reg_reg same_width
  combine_reg_reg_lem itype signed w instr s k = ground (
    arith,
    s,
    Holds.at_slot h,
    Holds.at_slot hj,
    Holds.wide h,
    Holds.wide hj,
    instr_reg_reg_lem f loc instr i r h j q n hj k,
  )

module _ (f : Function) (loc : Option Location) (i j : ℕ) (r q : Register) (h : Holds f i r)
    (hj : Holds f j q) where
  pub cmp_reg_reg_lem :
      (signed : Bool) (w : Width) (instr : Instruction)
      → get_instr i_cmp (data_type signed (bytes w)) ≡ ok instr
      → Known instr false
      → combine_reg_reg i_cmp loc (data_type signed (bytes w)) (slot j) (slot i) false f
        ≡ ok (reg_reg instr q.name r.name ∷ [], f)
  unfolding combine_reg_reg same_width instr_reg_reg
  cmp_reg_reg_lem signed w instr s k = ground (
    arith,
    s,
    Holds.at_slot h,
    Holds.at_slot hj,
    Holds.wide h,
    Holds.wide hj,
    Known.known k,
    Known.left k,
    Known.changes k,
  )

module _ (f : Function) (loc : Option Location) (i : ℕ) (r : Register) (h : Holds f i r) where
  wide_enough : (w : Width) → narrow r (bytes w) ≡ false
  wide_enough byte = ground (arith, Holds.wide h)
  wide_enough word = ground (arith, Holds.wide h)
  wide_enough long = ground (arith, Holds.wide h)
  wide_enough quad = ground (arith, Holds.wide h)

  truncate_minus_one : (w : Width) → truncate (bytes w) (negsuc 0) ≡ negsuc 0
  truncate_minus_one byte = refl
  truncate_minus_one word = refl
  truncate_minus_one long = refl
  truncate_minus_one quad = refl

  pub not_reg_lem :
      (w : Width) (instr : Instruction)
      → get_instr i_xor (data_type false (bytes w)) ≡ ok instr
      → Known instr true
      → xor_imm_reg loc (negsuc 0) (slot i) (bytes w) false f
        ≡ ok (imm_reg instr (negsuc 0) r.name ∷ [], marked i r f)
  unfolding xor_imm_reg instr_imm_reg
  not_reg_lem w instr s k = ground (
    arith,
    s,
    Holds.at_slot h,
    wide_enough w,
    truncate_minus_one w,
    Known.known k,
    Known.changes k,
    modified_lem f i r h loc,
    Holds.at_slot (marked-Holds-same f i r h),
  )
