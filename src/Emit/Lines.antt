-- ===== src/Emit/Lines.antt =====
-- The functions of Emit on registers that are slots of Function.registers, without spilling.
use gensimd.Common.{
  ℕ, ◌≡◌, ◌≢◌, ap, Bool, true, false, [], ◌∷◌, Option, some, ok, arith, get_elem?, set, set-set,
}
use gensimd.Reg.{Register}
use gensimd.Instr.Entry.{Instruction}
use gensimd.Instr.Flags.{InstrFlags, has, left_rdwr}
use gensimd.Function.{Function, Location}
use gensimd.State.{reg, reg_reg, slot, mark_dirty}
use gensimd.Storage.Aliases.{get_elem?-set}
use gensimd.Emit.Write.{flags_of, writes_right, modified, instr_reg, instr_reg_reg}
use gensimd.Emit.Move.{in_xmm}
use gensimd.Emit.Cpu.{is_general}

-- The state in which the register `r` of slot `i` is marked as changed.
abbrev pub marked : ℕ → Register → Function → Function
marked i r f = record f { registers = set f.registers i (record r { dirty = true }) }

-- Slot `i` has `r`, a general register.
pub record Holds (f : Function) (i : ℕ) (r : Register) : Type 0 where
  pub at_slot : get_elem? f.registers i ≡ some r
  pub integer : in_xmm r ≡ false
  pub wide : r.width ≡ 64
  pub general : is_general r.name ≡ true

module _ (f : Function) (i : ℕ) (r : Register) (h : Holds f i r) where
  pub marked-Holds-same : Holds (marked i r f) i (record r { dirty = true })
  marked-Holds-same = record {
    at_slot = ground (arith, get_elem?-set f.registers i i (record r { dirty = true }) r h.at_slot);
    integer = h.integer;
    wide = h.wide;
    general = h.general;
  }

  pub marked-Holds : (j : ℕ) (q : Register) → j ≢ i → Holds f j q → Holds (marked i r f) j q
  marked-Holds j q n k = record {
    at_slot =
        ground
          (arith, k.at_slot, get_elem?-set f.registers i j (record r { dirty = true }) r h.at_slot);
    integer = k.integer;
    wide = k.wide;
    general = k.general;
  }

  pub marked-marked : marked i (record r { dirty = true }) (marked i r f) ≡ marked i r f
  marked-marked =
      ap (λ rs. record f { registers = rs })
        (set-set f.registers i (record r { dirty = true }) (record r { dirty = true }))

  pub modified_lem : (loc : Option Location) → modified loc false (slot i) f ≡ ok ([], marked i r f)
  unfolding modified mark_dirty
  modified_lem loc = ground (arith, h.at_slot)

-- What `instrTable` says of an instruction that writes its right operand, and of one that writes none.
pub record Known (instr : Instruction) (right : Bool) : Type 0 where
  pub operands : InstrFlags
  pub known : flags_of instr ≡ ok operands
  pub left : has operands left_rdwr ≡ false
  pub changes : writes_right operands ≡ right

module _ (f : Function) (loc : Option Location) (instr : Instruction) (i : ℕ) (r : Register)
    (h : Holds f i r) where
  pub instr_reg_lem :
      Known instr true
      → instr_reg loc instr (slot i) false f ≡ ok (reg instr r.name ∷ [], marked i r f)
  unfolding instr_reg
  instr_reg_lem k = ground (
    arith,
    k.known,
    k.changes,
    modified_lem f i r h loc,
    Holds.at_slot (marked-Holds-same f i r h),
  )

  pub instr_reg_reg_lem :
      (j : ℕ) (q : Register)
      → j ≢ i
      → Holds f j q
      → Known instr true
      → instr_reg_reg loc instr (slot j) (slot i) false f
        ≡ ok (reg_reg instr q.name r.name ∷ [], marked i r f)
  unfolding instr_reg_reg
  instr_reg_reg_lem j q n hj k = ground (
    arith,
    k.known,
    k.left,
    k.changes,
    modified_lem f i r h loc,
    Holds.at_slot (marked-Holds-same f i r h),
    Holds.at_slot (marked-Holds f i r h j q n hj),
  )
