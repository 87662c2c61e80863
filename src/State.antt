-- ===== src/State.antt =====
-- Code generation as a state monad over Function, and the lines of assembly that it returns. A
-- `*register` is a slot of Function.registers, or the copy that getRegister returns, whose changes
-- nobody sees.
use gensimd.Common.{
  ℕ, Bool, true, false, List, Option, none, some, String, Result, ok, fault, ice, nil_dereference,
  get_elem?, set, ap, ◌≡◌,
}
use gensimd.Common.Int.{ℤ}
use gensimd.Function.{Function}
use gensimd.Reg.{Register}
use gensimd.Instr.Entry.{Instruction}

-- A block of go/ssa, or a label that newJmpLabel has made.
pub data Label : Type 0 where
  block numbered : ℕ → Label

-- An operand of an intrinsic: a register's name, which a constant may stand right before.
pub record TextOperand : Type 0 where
  pub imm : Option ℤ
  pub name : String

-- A line of assembly, by the form of its operands; registers are written by their names. `loose` is
-- a constant that no instruction comes before.
pub data Line : Type 0 where
  reg : Instruction → String → Line
  reg_reg : Instruction → String → String → Line
  reg_mem : Instruction → String → String → ℤ → String → Line
  mem_reg : Instruction → String → ℤ → String → String → Line
  imm_reg : Instruction → ℤ → String → Line
  imm_reg_reg : Instruction → ℤ → String → String → Line
  imm_mem : Instruction → ℤ → String → ℤ → String → Line
  reg_imm : Instruction → String → ℕ → Line
  reg_int : Instruction → String → ℤ → Line
  jump : Instruction → Label → Line
  label : Label → Line
  ret : Line
  written : Instruction → List TextOperand → Line
  loose : ℤ → Line

abbrev pub Asm : Type 0
Asm = List Line

abbrev pub M : Type 0 → Type 0
M A = Function → Result (A × Function)

abbrev pub pure : {A : Type 0} → A → M A
pure a f = ok (a, f)

infixl 5 ◌>>=◌ ◌>>◌
abbrev pub ◌>>=◌ : {A B : Type 0} → M A → (A → M B) → M B
◌>>=◌ m k f = elim (m f) [ ok (a, f') ↦ k a f' | fault e ↦ fault e ]

abbrev pub ◌>>◌ : {B : Type 0} → M (Unit {0}) → M B → M B
m >> k = m >>= λ _. k

abbrev pub lift : {A : Type 0} → Result A → M A
lift (ok a) f = ok (a, f)
lift (fault e) f = fault e

abbrev pub ice_when : Bool → M (Unit {0})
ice_when true f = ice
ice_when false f = ok (tt, f)

abbrev pub read : {A : Type 0} → (Function → A) → M A
read g f = ok (g f, f)

abbrev pub or_nil : {A : Type 0} → Option A → Result A
or_nil none = fault nil_dereference
or_nil (some a) = ok a

abbrev pub get_reg : ℕ → M Register
get_reg i f = lift (or_nil (get_elem? f.registers i)) f

abbrev pub put_reg : ℕ → Register → M (Unit {0})
put_reg i r f = ok (tt, record f { registers = set f.registers i r })

pub data RegRef : Type 0 where
  slot : ℕ → RegRef
  copy : Register → RegRef

abbrev pub get_ref : RegRef → M Register
get_ref (slot i) = get_reg i
get_ref (copy r) = pure r

-- `register.modified` with `spill` false.
unfoldable pub mark_dirty : RegRef → M (Unit {0})
mark_dirty (slot i) = get_reg i >>= λ r. put_reg i (record r { dirty = true })
mark_dirty (copy r) = pure tt

-- The rest, where the first step returns.
pub bind_ok :
    {A B : Type 0} (m : M A) (k : A → M B) (f g : Function) (a : A)
    → m f ≡ ok (a, g)
    → (m >>= k) f ≡ k a g
bind_ok {A = A} m k f g a h =
    ap (λ (r : Result (A × Function)). elim r [ ok (b, f') ↦ k b f' | fault e ↦ fault e ]) h
