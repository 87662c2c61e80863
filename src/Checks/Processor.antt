-- ===== src/Checks/Processor.antt =====
-- A processor with its registers by name and its flags.
use text.Mathlib.Text.{◌==◌ as str_eq}
use text.Mathlib.TextEquality.{eq_iff}
use gensimd.Common.{
  ℕ, ◌/◌, ◌%◌, ◌^◌, ◌≡◌, ◌≢◌, refl, ap, ◌∙◌, Bool, true, false, Option, none, some, String, arith,
  if◌then◌else◌,
}
use gensimd.Common.Int.{ℤ}
use gensimd.State.{
  Line, reg, reg_reg, reg_mem, mem_reg, imm_reg, imm_reg_reg, imm_mem, reg_imm, reg_int, jump,
  label, ret, written, loose,
}
use gensimd.Emit.Write.{wrap}
use gensimd.Emit.Cpu.{
  Cpu, Flags, Meaning, writes, compares, sets, divides, meaning, compared, as_byte,
}

abbrev pub Machine : Type 0
Machine = (String → ℕ) × Flags

abbrev pub put : String → ℕ → Machine → Machine
put d v m = (λ name. if str_eq name d then v else m.0 name, m.1)

abbrev pub apply : Option Meaning → (s d : ℕ) → String → Machine → Machine
apply none s d name m = m
apply (some (writes e)) s d name m = put name (e.op e.bits (s % 2 ^ e.bits) (d % 2 ^ e.bits)) m
apply (some (compares w)) s d name m = (m.0, compared w (s % 2 ^ w) (d % 2 ^ w))
apply (some (sets c)) s d name m = m
apply (some (divides w)) s d name m = m

abbrev pub apply_byte : Option Meaning → String → Machine → Machine
apply_byte none name m = m
apply_byte (some (sets c)) name m = put name (as_byte (c m.1)) m
apply_byte (some (writes e)) name m = m
apply_byte (some (compares w)) name m = m
apply_byte (some (divides w)) name m =
    put "AX" ((m.0 "AX" % 2 ^ w) / (m.0 name % 2 ^ w))
      (put "DX" ((m.0 "AX" % 2 ^ w) % (m.0 name % 2 ^ w)) m)

abbrev pub apply_constant : Option Meaning → ℤ → String → Machine → Machine
apply_constant none c name m = m
apply_constant (some (sets t)) c name m = m
apply_constant (some (writes e)) c name m =
    put name (e.op e.bits (wrap e.bits c) (m.0 name % 2 ^ e.bits)) m
apply_constant (some (compares w)) c name m = m
apply_constant (some (divides w)) c name m = m

abbrev pub run : Line → Machine → Machine
run (reg instr r) m = apply_byte (meaning instr) r m
run (reg_reg instr s d) m = apply (meaning instr) (m.0 s) (m.0 d) d m
run (imm_reg instr c d) m = apply_constant (meaning instr) c d m
run (reg_mem instr s name offset d) m = m
run (mem_reg instr name offset s d) m = m
run (imm_reg_reg instr c s d) m = m
run (imm_mem instr c name offset d) m = m
run (reg_imm instr r c) m = m
run (reg_int instr r c) m = m
run (jump instr to) m = m
run (label here) m = m
run ret m = m
run (written instr operands) m = m
run (loose c) m = m

put-same : (d : String) (v : ℕ) (m : Machine) → (put d v m).0 d ≡ v
put-same d v m = ground (arith, eq_iff d d)

put-other : (d r : String) (v : ℕ) (m : Machine) → r ≢ d → (put d v m).0 r ≡ m.0 r
put-other d r v m n = ground (arith, eq_iff r d)

byte_small : (b : Bool) → as_byte b % 2 ^ 8 ≡ as_byte b
byte_small true = refl
byte_small false = refl

pub cpu : Cpu Machine
cpu = record {
  read = λ m. m.0;
  flags = λ m. m.1;
  run = run;
  value = λ instr e s d m h.
      ap (λ o. (apply o (m.0 s) (m.0 d) d m).0 d % 2 ^ e.bits) h
      ∙ ap (λ v. v % 2 ^ e.bits)
          (put-same d (e.op e.bits (m.0 s % 2 ^ e.bits) (m.0 d % 2 ^ e.bits)) m);
  value_of_constant = λ instr e c d m h.
      ap (λ o. (apply_constant o c d m).0 d % 2 ^ e.bits) h
      ∙ ap (λ v. v % 2 ^ e.bits) (put-same d (e.op e.bits (wrap e.bits c) (m.0 d % 2 ^ e.bits)) m);
  others = λ instr e s d r m h g k n.
      ap (λ o. (apply o (m.0 s) (m.0 d) d m).0 r) h
      ∙ put-other d r (e.op e.bits (m.0 s % 2 ^ e.bits) (m.0 d % 2 ^ e.bits)) m n;
  others_of_constant = λ instr e c d r m h g k n.
      ap (λ o. (apply_constant o c d m).0 r) h
      ∙ put-other d r (e.op e.bits (wrap e.bits c) (m.0 d % 2 ^ e.bits)) m n;
  comparison = λ instr w a b m h. ap (λ o. (apply o (m.0 a) (m.0 b) b m).1) h;
  kept = λ instr w a b r m h. ap (λ o. (apply o (m.0 a) (m.0 b) b m).0 r) h;
  byte = λ instr c r m h.
      ap (λ o. (apply_byte o r m).0 r % 2 ^ 8) h
      ∙ ap (λ v. v % 2 ^ 8) (put-same r (as_byte (c m.1)) m)
      ∙ byte_small (c m.1);
  others_of_byte = λ instr c d r m h g k n.
      ap (λ o. (apply_byte o d m).0 r) h ∙ put-other d r (as_byte (c m.1)) m n;
  quotient = λ instr w s m h z p. (
    ap (λ o. (apply_byte o s m).0 "AX" % 2 ^ w) h,
    ap (λ o. (apply_byte o s m).0 "DX" % 2 ^ w) h,
  );
  others_of_quotient = λ instr w s r m h g a d.
      ap (λ o. (apply_byte o s m).0 r) h
      ∙ put-other "AX" r ((m.0 "AX" % 2 ^ w) / (m.0 s % 2 ^ w))
          (put "DX" ((m.0 "AX" % 2 ^ w) % (m.0 s % 2 ^ w)) m) a
      ∙ put-other "DX" r ((m.0 "AX" % 2 ^ w) % (m.0 s % 2 ^ w)) m d;
}
