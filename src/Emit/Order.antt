-- ===== src/Emit/Order.antt =====
-- CmpOp on integers in general registers, against Go's comparisons.
use gensimd.Common.{
  ℕ, ◌%◌, ◌^◌, ◌<◌, ◌≡◌, refl, ap, ◌∙◌, Bool, true, false, not, ◌||◌, [], ◌∷◌, Option, some, ok,
  arith, ◌==◌, ltb,
}
use gensimd.Common.Int.{ltb_ℤ}
use gensimd.Reg.{Register}
use gensimd.Instr.Entry.{Instruction}
use gensimd.Function.{Function, Location}
use gensimd.State.{reg, reg_reg, slot}
use gensimd.Emit.Write.{data_type, signed_of}
use gensimd.Emit.Arith.{Token, eql, neq, leq, geq, lss, gtr, same_width}
use gensimd.Emit.Compare.{set_instr, cmp_op}
use gensimd.Emit.Cpu.{Cpu, Flags, low, sets, meaning, compared, as_byte}
use gensimd.Emit.Lines.{Holds, Known, instr_reg_lem}
use gensimd.Emit.Known.{
  Width, byte, word, long, quad, bytes, bits, Comparison, chosen_cmp, known, tells_of,
}
use gensimd.Emit.Word.{cmp_reg_reg_lem}
use gensimd.Emit.Run.{Computes}

pub data CompareOp : Type 0 where
  equals differs at_most at_least under over : CompareOp

abbrev pub compare_token : CompareOp → Token
compare_token equals = eql
compare_token differs = neq
compare_token at_most = leq
compare_token at_least = geq
compare_token under = lss
compare_token over = gtr

-- `<` on words, as signed numbers or not.
abbrev pub lesser : Bool → ℕ → ℕ → ℕ → Bool
lesser true w a b = ltb_ℤ (signed_of w a) (signed_of w b)
lesser false w a b = ltb a b

-- Go's comparisons of two words.
abbrev pub go_compare : CompareOp → Bool → ℕ → ℕ → ℕ → Bool
go_compare equals signed w a b = a == b
go_compare differs signed w a b = not (a == b)
go_compare at_most signed w a b = not (lesser signed w b a)
go_compare at_least signed w a b = not (lesser signed w a b)
go_compare under signed w a b = lesser signed w a b
go_compare over signed w a b = lesser signed w b a

-- The smaller or equal of two words is not the greater one.
not_over :
    (signed : Bool) (w : Width) (a b : ℕ)
    → a < 2 ^ bits w
    → b < 2 ^ bits w
    → lesser signed (bits w) a b || (a == b) ≡ not (lesser signed (bits w) b a)
not_over false w a b p q = ground arith
not_over true byte a b p q = ground arith
not_over true word a b p q = ground arith
not_over true long a b p q = ground arith
not_over true quad a b p q = ground arith

is_over :
    (signed : Bool) (w : Width) (a b : ℕ)
    → a < 2 ^ bits w
    → b < 2 ^ bits w
    → not (lesser signed (bits w) a b || (a == b)) ≡ lesser signed (bits w) b a
is_over signed w a b p q = ground (arith, not_over signed w a b p q)

below_power : (w : Width) (n : ℕ) → n % 2 ^ bits w < 2 ^ bits w
below_power byte n = omega arith
below_power word n = omega arith
below_power long n = omega arith
below_power quad n = omega arith

-- The instruction that reads the flags of the comparison of two words.
record Reads (signed : Bool) (w : Width) (op : CompareOp) : Type 0 where
  set : Instruction
  selected : set_instr (data_type signed (bytes w)) (compare_token op) ≡ ok set
  table : Known set true
  test : Flags → Bool
  means : meaning set ≡ some (sets test)
  right :
      (a b : ℕ)
      → a < 2 ^ bits w
      → b < 2 ^ bits w
      → test (compared (bits w) a b) ≡ go_compare op signed (bits w) a b

reads : (signed : Bool) (w : Width) (op : CompareOp) → Reads signed w op
unfolding set_instr tells_of meaning
reads signed w equals = record {
  set = "SETEQ";
  selected = refl;
  table = known true "SETEQ" refl;
  test = λ f. f.equal;
  means = refl;
  right = λ a b p q. refl;
}
reads signed w differs = record {
  set = "SETNE";
  selected = refl;
  table = known true "SETNE" refl;
  test = λ f. not f.equal;
  means = refl;
  right = λ a b p q. refl;
}
reads true w at_most = record {
  set = "SETLE";
  selected = refl;
  table = known true "SETLE" refl;
  test = λ f. f.less || f.equal;
  means = refl;
  right = λ a b p q. not_over true w a b p q;
}
reads false w at_most = record {
  set = "SETLS";
  selected = refl;
  table = known true "SETLS" refl;
  test = λ f. f.below || f.equal;
  means = refl;
  right = λ a b p q. not_over false w a b p q;
}
reads true w at_least = record {
  set = "SETGE";
  selected = refl;
  table = known true "SETGE" refl;
  test = λ f. not f.less;
  means = refl;
  right = λ a b p q. refl;
}
reads false w at_least = record {
  set = "SETCC";
  selected = refl;
  table = known true "SETCC" refl;
  test = λ f. not f.below;
  means = refl;
  right = λ a b p q. refl;
}
reads true w under = record {
  set = "SETLT";
  selected = refl;
  table = known true "SETLT" refl;
  test = λ f. f.less;
  means = refl;
  right = λ a b p q. refl;
}
reads false w under = record {
  set = "SETCS";
  selected = refl;
  table = known true "SETCS" refl;
  test = λ f. f.below;
  means = refl;
  right = λ a b p q. refl;
}
reads true w over = record {
  set = "SETGT";
  selected = refl;
  table = known true "SETGT" refl;
  test = λ f. not (f.less || f.equal);
  means = refl;
  right = λ a b p q. is_over true w a b p q;
}
reads false w over = record {
  set = "SETHI";
  selected = refl;
  table = known true "SETHI" refl;
  test = λ f. not (f.below || f.equal);
  means = refl;
  right = λ a b p q. is_over false w a b p q;
}

module _ (f : Function) (loc : Option Location) (i j k : ℕ) (r x y : Register) (h : Holds f i r)
    (hx : Holds f j x) (hy : Holds f k y) {Machine : Type 0} (cpu : Cpu Machine) where
  -- For three general registers in slots and an integer type, with sign or without, CmpOp for each of the
  -- six comparisons returns code and only marks the result's register as changed. On every processor that
  -- meets the laws of Cpu, the code leaves one or zero in the low byte of the result's register, as Go's
  -- comparison of the operands holds or not, and every other general register as it was.
  pub cmp_op_lem :
      (op : CompareOp) (signed : Bool) (w : Width)
      → Computes cpu
          (cmp_op loc (data_type signed (bytes w)) (compare_token op) (slot j) (slot k) (slot i) f)
          f
          i
          r
          byte
          (λ m.
            as_byte (
              go_compare op signed
                (bits w)
                (low cpu (bits w) m x.name)
                (low cpu (bits w) m y.name)))
  unfolding cmp_op same_width
  cmp_op_lem op signed w =
      let c : Comparison (data_type signed (bytes w)) (bits w) = chosen_cmp signed w in
      let s : Reads signed w op = reads signed w op in
      record {
        asm = reg_reg c.instr x.name y.name ∷ reg s.set r.name ∷ [];
        returns = ground (
          arith,
          h.at_slot,
          hx.at_slot,
          hy.at_slot,
          hx.wide,
          hy.wide,
          cmp_reg_reg_lem f loc k j y x hy hx signed w c.instr c.selected c.table,
          s.selected,
          instr_reg_lem f loc s.set i r h s.table,
        );
        result = λ m.
            cpu.byte s.set s.test r.name (cpu.run (reg_reg c.instr x.name y.name) m) s.means
            ∙ ap (λ g. as_byte (s.test g)) (cpu.comparison c.instr (bits w) x.name y.name m c.means)
            ∙ ap as_byte (
                s.right (low cpu (bits w) m x.name) (low cpu (bits w) m y.name)
                  (below_power w (cpu.read m x.name)) (below_power w (cpu.read m y.name)));
        others = λ m name g n.
            cpu.others_of_byte s.set s.test r.name name (cpu.run (reg_reg c.instr x.name y.name) m)
              s.means h.general g n
            ∙ cpu.kept c.instr (bits w) x.name y.name name m c.means;
      }
