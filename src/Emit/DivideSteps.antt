-- ===== src/Emit/DivideSteps.antt =====
-- The steps of DivRegReg that touch AX and DX only, and the instruction that divides.
use gensimd.Common.{
  ◌≡◌, refl, Bool, true, false, [], ◌∷◌, ◌++◌, Option, none, some, String, ok, ◌*◌, ltb,
  if◌then◌else◌,
}
use gensimd.Reg.{Register, data_reg, quad_sizes, get_register}
use gensimd.Reg.Names.{Reg, reg_ax, reg_dx}
use gensimd.Instr.Entry.{Instruction}
use gensimd.Instr.Forms.{i_div, i_idiv}
use gensimd.Instr.Select.{get_instr}
use gensimd.Function.{Function, Location}
use gensimd.State.{reg, reg_reg, Asm, RegRef, copy, mark_dirty, pure}
use gensimd.Emit.Write.{data_type, flags_of, fixed, instr_reg_reg, modified}
use gensimd.Emit.Move.{zero_reg}
use gensimd.Emit.Lines.{Known}
use gensimd.Emit.Known.{Width, byte, word, long, quad, bytes, known, tells_of}

abbrev pub fixed_register : String → Reg → Register
fixed_register name regconst = record {
  name = name;
  in_use = false;
  regconst = regconst;
  typ = data_reg;
  width = 64;
  datasizes = quad_sizes;
  dirty = false;
  parent = none;
}

abbrev pub rax : Register
rax = fixed_register "AX" reg_ax

abbrev pub rdx : Register
rdx = fixed_register "DX" reg_dx

pub fixed_ax : (f : Function) → fixed reg_ax f ≡ ok (copy rax, f)
unfolding fixed get_register
fixed_ax f = refl

pub fixed_dx : (f : Function) → fixed reg_dx f ≡ ok (copy rdx, f)
unfolding fixed get_register
fixed_dx f = refl

-- The instruction of a quotient, which writes neither operand of the table.
pub record Division (signed : Bool) (w : Width) : Type 0 where
  pub instr : Instruction
  pub selected :
      get_instr (if signed then i_idiv else i_div) (data_type signed (bytes w)) ≡ ok instr
  pub table : Known instr false

unfoldable pub chosen_div : (signed : Bool) (w : Width) → Division signed w
unfolding get_instr tells_of
chosen_div false byte = record { instr = "DIVB"; selected = refl; table = known false "DIVB" refl }
chosen_div false word = record { instr = "DIVW"; selected = refl; table = known false "DIVW" refl }
chosen_div false long = record { instr = "DIVL"; selected = refl; table = known false "DIVL" refl }
chosen_div false quad = record { instr = "DIVQ"; selected = refl; table = known false "DIVQ" refl }
chosen_div true byte = record { instr = "IDIVB"; selected = refl; table = known false "IDIVB" refl }
chosen_div true word = record { instr = "IDIVW"; selected = refl; table = known false "IDIVW" refl }
chosen_div true long = record { instr = "IDIVL"; selected = refl; table = known false "IDIVL" refl }
chosen_div true quad = record { instr = "IDIVQ"; selected = refl; table = known false "IDIVQ" refl }

-- Clearing a copy of a register changes no slot.
pub zero_rax :
    (f : Function) (loc : Option Location)
    → zero_reg loc (copy rax) f ≡ ok (reg_reg "XORQ" "AX" "AX" ∷ [], f)
unfolding zero_reg instr_reg_reg modified mark_dirty get_instr flags_of
zero_rax f loc = refl

pub zero_rdx :
    (f : Function) (loc : Option Location)
    → zero_reg loc (copy rdx) f ≡ ok (reg_reg "XORQ" "DX" "DX" ∷ [], f)
unfolding zero_reg instr_reg_reg modified mark_dirty get_instr flags_of
zero_rdx f loc = refl

-- The lines before the result is moved: DX is cleared but for one byte.
abbrev pub clear_dx : Width → Asm
clear_dx byte = []
clear_dx word = reg_reg "XORQ" "DX" "DX" ∷ []
clear_dx long = reg_reg "XORQ" "DX" "DX" ∷ []
clear_dx quad = reg_reg "XORQ" "DX" "DX" ∷ []

abbrev pub division : Width → Instruction → Instruction → String → String → Asm
division w mov div x y =
    reg_reg "XORQ" "AX" "AX" ∷ clear_dx w ++ reg_reg mov x "AX" ∷ reg div y ∷ []

abbrev pub remainder_in : Width → Option RegRef
remainder_in byte = none
remainder_in word = some (copy rdx)
remainder_in long = some (copy rdx)
remainder_in quad = some (copy rdx)

pub fits_64 : (w : Width) → ltb 64 (bytes w * 8) ≡ false
fits_64 byte = refl
fits_64 word = refl
fits_64 long = refl
fits_64 quad = refl

-- The step that clears DX, and the pointer to the remainder.
pub clear_step :
    (f : Function) (loc : Option Location) (w : Width)
    → (if ltb 1 (bytes w) then zero_reg loc (copy rdx) else pure []) f ≡ ok (clear_dx w, f)
clear_step f loc byte = refl
clear_step f loc word = zero_rdx f loc
clear_step f loc long = zero_rdx f loc
clear_step f loc quad = zero_rdx f loc

pub remainder_step :
    (w : Width) → (if ltb 1 (bytes w) then some (copy rdx) else none) ≡ remainder_in w
remainder_step byte = refl
remainder_step word = refl
remainder_step long = refl
remainder_step quad = refl
