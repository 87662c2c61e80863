-- ===== src/Emit/Cpu.antt =====
-- What the emitted code relies on of the processor: for each instruction of a kind, what it does to
-- the low bits of the general registers and to the flags, and that it leaves the others alone.
use text.Mathlib.Text.{◌==◌ as str_eq}
use Prim.Native.Nat.{bit_and, bit_or, bit_xor}
use gensimd.Common.{
  ℕ, ◌+◌, ◌-◌, ◌/◌, ◌%◌, ◌^◌, ◌≡◌, ◌≢◌, Bool, true, false, not, ◌||◌, List, [], ◌∷◌, Option, none,
  some, String, if◌then◌else◌, ◌==◌, ltb,
}
use gensimd.Common.Int.{ℤ, ltb_ℤ}
use gensimd.Instr.Entry.{Instruction}
use gensimd.State.{Line, reg, reg_reg, imm_reg, Asm}
use gensimd.Emit.Write.{wrap, signed_of}

-- An operation on words of the given number of bits: of the left operand and the right one.
abbrev pub WordOp : Type 0
WordOp = ℕ → ℕ → ℕ → ℕ

abbrev pub moved : WordOp
moved w s d = s

abbrev pub added : WordOp
added w s d = (d + s) % 2 ^ w

abbrev pub subtracted : WordOp
subtracted w s d = (d + (2 ^ w - s)) % 2 ^ w

abbrev pub anded : WordOp
anded w s d = bit_and s d

abbrev pub ored : WordOp
ored w s d = bit_or s d

abbrev pub xored : WordOp
xored w s d = bit_xor s d

-- The width that an instruction works on, and what it makes of its operands.
pub record Effect : Type 0 where
  pub bits : ℕ
  pub op : WordOp

-- The flags after a comparison: equal, below without sign, below with sign.
pub record Flags : Type 0 where
  pub equal : Bool
  pub below : Bool
  pub less : Bool

abbrev pub compared : ℕ → ℕ → ℕ → Flags
compared w a b = record {
  equal = a == b;
  below = ltb a b;
  less = ltb_ℤ (signed_of w a) (signed_of w b);
}

-- An instruction writes its right operand, or compares words of a width, or sets a byte by a
-- condition on the flags, or divides words without sign.
pub data Meaning : Type 0 where
  writes : Effect → Meaning
  compares : ℕ → Meaning
  sets : (Flags → Bool) → Meaning
  divides : ℕ → Meaning

abbrev Meanings : Type 0
Meanings = List (Instruction × Meaning)

abbrev sized : Instruction → Instruction → Instruction → Instruction → WordOp → Meanings → Meanings
sized b w l q f rest =
    (b, writes record { bits = 8; op = f })
    ∷ (w, writes record { bits = 16; op = f })
    ∷ (l, writes record { bits = 32; op = f })
    ∷ (q, writes record { bits = 64; op = f })
    ∷ rest

abbrev writing : Meanings → Meanings
writing rest = sized "MOVB" "MOVW" "MOVL" "MOVQ" moved (
    sized "ADDB" "ADDW" "ADDL" "ADDQ" added (
      sized "SUBB" "SUBW" "SUBL" "SUBQ" subtracted (
        sized "ANDB" "ANDW" "ANDL" "ANDQ" anded
          (sized "ORB" "ORW" "ORL" "ORQ" ored (sized "XORB" "XORW" "XORL" "XORQ" xored rest)))))

abbrev comparing : Meanings
comparing =
    ("CMPB", compares 8)
    ∷ ("CMPW", compares 16)
    ∷ ("CMPL", compares 32)
    ∷ ("CMPQ", compares 64)
    ∷ ("SETEQ", sets λ f. f.equal)
    ∷ ("SETNE", sets λ f. not f.equal)
    ∷ ("SETLS", sets λ f. f.below || f.equal)
    ∷ ("SETCC", sets λ f. not f.below)
    ∷ ("SETCS", sets λ f. f.below)
    ∷ ("SETHI", sets λ f. not (f.below || f.equal))
    ∷ ("SETLE", sets λ f. f.less || f.equal)
    ∷ ("SETGE", sets λ f. not f.less)
    ∷ ("SETLT", sets λ f. f.less)
    ∷ ("SETGT", sets λ f. not (f.less || f.equal))
    ∷ ("DIVW", divides 16)
    ∷ ("DIVL", divides 32)
    ∷ ("DIVQ", divides 64)
    ∷ []

abbrev find : Instruction → Meanings → Option Meaning
find instr [] = none
find instr ((name, e) ∷ rest) = if str_eq name instr then some e else find instr rest

unfoldable pub meaning : Instruction → Option Meaning
meaning instr = find instr (writing comparing)

-- The general registers, of which none is a part of another.
abbrev general_names : List String
general_names =
    "AX" ∷ "BX" ∷ "CX" ∷ "DX" ∷ "SI" ∷ "DI" ∷ "BP" ∷ "R8" ∷ "R9" ∷ "R10" ∷ "R11" ∷ "R12" ∷ "R13"
    ∷ "R14" ∷ "R15" ∷ []

abbrev names_any : String → List String → Bool
names_any name [] = false
names_any name (n ∷ ns) = str_eq n name || names_any name ns

unfoldable pub is_general : String → Bool
is_general name = names_any name general_names

abbrev pub as_byte : Bool → ℕ
as_byte true = 1
as_byte false = 0

pub record Cpu (Machine : Type 0) : Type 0 where
  pub read : Machine → String → ℕ
  pub flags : Machine → Flags
  pub run : Line → Machine → Machine
  pub value :
      (instr : Instruction) (e : Effect) (s d : String) (m : Machine)
      → meaning instr ≡ some (writes e)
      → read (run (reg_reg instr s d) m) d % 2 ^ e.bits
        ≡ e.op e.bits (read m s % 2 ^ e.bits) (read m d % 2 ^ e.bits) % 2 ^ e.bits
  pub value_of_constant :
      (instr : Instruction) (e : Effect) (c : ℤ) (d : String) (m : Machine)
      → meaning instr ≡ some (writes e)
      → read (run (imm_reg instr c d) m) d % 2 ^ e.bits
        ≡ e.op e.bits (wrap e.bits c) (read m d % 2 ^ e.bits) % 2 ^ e.bits
  pub others :
      (instr : Instruction) (e : Effect) (s d r : String) (m : Machine)
      → meaning instr ≡ some (writes e)
      → is_general d ≡ true
      → is_general r ≡ true
      → r ≢ d
      → read (run (reg_reg instr s d) m) r ≡ read m r
  pub others_of_constant :
      (instr : Instruction) (e : Effect) (c : ℤ) (d r : String) (m : Machine)
      → meaning instr ≡ some (writes e)
      → is_general d ≡ true
      → is_general r ≡ true
      → r ≢ d
      → read (run (imm_reg instr c d) m) r ≡ read m r
  pub comparison :
      (instr : Instruction) (w : ℕ) (a b : String) (m : Machine)
      → meaning instr ≡ some (compares w)
      → flags (run (reg_reg instr a b) m) ≡ compared w (read m a % 2 ^ w) (read m b % 2 ^ w)
  pub kept :
      (instr : Instruction) (w : ℕ) (a b r : String) (m : Machine)
      → meaning instr ≡ some (compares w)
      → read (run (reg_reg instr a b) m) r ≡ read m r
  pub byte :
      (instr : Instruction) (c : Flags → Bool) (r : String) (m : Machine)
      → meaning instr ≡ some (sets c)
      → read (run (reg instr r) m) r % 2 ^ 8 ≡ as_byte (c (flags m))
  pub others_of_byte :
      (instr : Instruction) (c : Flags → Bool) (d r : String) (m : Machine)
      → meaning instr ≡ some (sets c)
      → is_general d ≡ true
      → is_general r ≡ true
      → r ≢ d
      → read (run (reg instr d) m) r ≡ read m r
  pub quotient :
      (instr : Instruction) (w : ℕ) (s : String) (m : Machine)
      → meaning instr ≡ some (divides w)
      → read m "DX" % 2 ^ w ≡ 0
      → read m s % 2 ^ w ≢ 0
      → (read (run (reg instr s) m) "AX" % 2 ^ w
          ≡ (read m "AX" % 2 ^ w) / (read m s % 2 ^ w) % 2 ^ w)
        × (read (run (reg instr s) m) "DX" % 2 ^ w
            ≡ (read m "AX" % 2 ^ w) % (read m s % 2 ^ w) % 2 ^ w)
  pub others_of_quotient :
      (instr : Instruction) (w : ℕ) (s r : String) (m : Machine)
      → meaning instr ≡ some (divides w)
      → is_general r ≡ true
      → r ≢ "AX"
      → r ≢ "DX"
      → read (run (reg instr s) m) r ≡ read m r

module _ {Machine : Type 0} (cpu : Cpu Machine) where
  abbrev pub run_all : Asm → Machine → Machine
  run_all [] m = m
  run_all (line ∷ rest) m = run_all rest (cpu.run line m)

  -- The low bits of a register.
  abbrev pub low : ℕ → Machine → String → ℕ
  low w m r = cpu.read m r % 2 ^ w
