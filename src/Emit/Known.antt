-- ===== src/Emit/Known.antt =====
-- The instructions that GetInstr selects for integers, against instrTable and the processor.
use gensimd.Common.{
  ℕ, ◌≡◌, refl, Bool, true, false, not, ◌&&◌, Option, none, some, Result, ok, ice, arith,
}
use gensimd.Types.{OpDataType}
use gensimd.Instr.Entry.{Instruction}
use gensimd.Instr.Flags.{InstrInfo, InstrFlags, has, left_rdwr}
use gensimd.Instr.Table.{instr_table}
use gensimd.Instr.Forms.{InstructionType, i_mov, i_add, i_sub, i_and, i_or, i_xor, i_cmp}
use gensimd.Instr.Select.{get_instr}
use gensimd.Emit.Write.{flags_of, writes_right, data_type}
use gensimd.Emit.Cpu.{
  WordOp, Effect, writes, compares, meaning, moved, added, subtracted, anded, ored, xored,
}
use gensimd.Emit.Lines.{Known}

-- The sizes of integers.
pub data Width : Type 0 where
  byte word long quad : Width

abbrev pub bytes : Width → ℕ
bytes byte = 1
bytes word = 2
bytes long = 4
bytes quad = 8

abbrev pub bits : Width → ℕ
bits byte = 8
bits word = 16
bits long = 32
bits quad = 64

abbrev same : Bool → Bool → Bool
same true b = b
same false b = not b

abbrev tells : Bool → Option InstrInfo → Bool
tells right none = false
tells right (some info) =
    not (has (InstrInfo.flags info) left_rdwr) && same right (writes_right (InstrInfo.flags info))

unfoldable pub tells_of : Bool → Instruction → Bool
unfolding instr_table
tells_of right instr = tells right (instr_table instr)

-- What the tests on two answers show.
both : (a b right : Bool) → not a && same right b ≡ true → (a ≡ false) × (b ≡ right)
both false b true h = (refl, h)
both false b false h = (refl, ground arith)
both true b right h = ground arith

abbrev operands_of : Option InstrInfo → Result InstrFlags
operands_of o = elim o [ none ↦ ice | some info ↦ ok (InstrInfo.flags info) ]

Known-from :
    (right : Bool) (instr : Instruction) (o : Option InstrInfo)
    → flags_of instr ≡ operands_of o
    → tells right o ≡ true
    → Known instr right
Known-from right instr none e h = ground arith
Known-from right instr (some info) e h =
    let p =
      both (has (InstrInfo.flags info) left_rdwr) (writes_right (InstrInfo.flags info)) right h in
    record { operands = InstrInfo.flags info; known = e; left = p.0; changes = p.1 }

pub known : (right : Bool) (instr : Instruction) → tells_of right instr ≡ true → Known instr right
unfolding tells_of flags_of
known right instr h = Known-from right instr (instr_table instr) refl h

-- The instruction that is selected has this effect.
pub record Chosen (itype : InstructionType) (datatype : OpDataType) (e : Effect) : Type 0 where
  pub instr : Instruction
  pub selected : get_instr itype datatype ≡ ok instr
  pub table : Known instr true
  pub means : meaning instr ≡ some (writes e)

choose :
    {itype : InstructionType} {datatype : OpDataType} {e : Effect} (instr : Instruction)
    → get_instr itype datatype ≡ ok instr
    → tells_of true instr ≡ true
    → meaning instr ≡ some (writes e)
    → Chosen itype datatype e
choose instr s t m = record { instr = instr; selected = s; table = known true instr t; means = m }

abbrev pub on_words : WordOp → Width → Effect
on_words op w = record { bits = bits w; op = op }

module _ (signed : Bool) where
  pub chosen_mov : (w : Width) → Chosen i_mov (data_type signed (bytes w)) (on_words moved w)
  unfolding get_instr tells_of meaning
  chosen_mov byte = choose "MOVB" refl refl refl
  chosen_mov word = choose "MOVW" refl refl refl
  chosen_mov long = choose "MOVL" refl refl refl
  chosen_mov quad = choose "MOVQ" refl refl refl

  pub chosen_add : (w : Width) → Chosen i_add (data_type signed (bytes w)) (on_words added w)
  unfolding get_instr tells_of meaning
  chosen_add byte = choose "ADDB" refl refl refl
  chosen_add word = choose "ADDW" refl refl refl
  chosen_add long = choose "ADDL" refl refl refl
  chosen_add quad = choose "ADDQ" refl refl refl

  pub chosen_sub : (w : Width) → Chosen i_sub (data_type signed (bytes w)) (on_words subtracted w)
  unfolding get_instr tells_of meaning
  chosen_sub byte = choose "SUBB" refl refl refl
  chosen_sub word = choose "SUBW" refl refl refl
  chosen_sub long = choose "SUBL" refl refl refl
  chosen_sub quad = choose "SUBQ" refl refl refl

  pub chosen_and : (w : Width) → Chosen i_and (data_type signed (bytes w)) (on_words anded w)
  unfolding get_instr tells_of meaning
  chosen_and byte = choose "ANDB" refl refl refl
  chosen_and word = choose "ANDW" refl refl refl
  chosen_and long = choose "ANDL" refl refl refl
  chosen_and quad = choose "ANDQ" refl refl refl

  pub chosen_xor : (w : Width) → Chosen i_xor (data_type signed (bytes w)) (on_words xored w)
  unfolding get_instr tells_of meaning
  chosen_xor byte = choose "XORB" refl refl refl
  chosen_xor word = choose "XORW" refl refl refl
  chosen_xor long = choose "XORL" refl refl refl
  chosen_xor quad = choose "XORQ" refl refl refl

pub chosen_or : Chosen i_or (data_type false 8) (on_words ored quad)
unfolding get_instr tells_of meaning
chosen_or = choose "ORQ" refl refl refl

-- The comparison that is selected writes no register.
pub record Comparison (datatype : OpDataType) (w : ℕ) : Type 0 where
  pub instr : Instruction
  pub selected : get_instr i_cmp datatype ≡ ok instr
  pub table : Known instr false
  pub means : meaning instr ≡ some (compares w)

pub chosen_cmp : (signed : Bool) (w : Width) → Comparison (data_type signed (bytes w)) (bits w)
unfolding get_instr tells_of meaning
chosen_cmp signed byte = record {
  instr = "CMPB";
  selected = refl;
  table = known false "CMPB" refl;
  means = refl;
}
chosen_cmp signed word = record {
  instr = "CMPW";
  selected = refl;
  table = known false "CMPW" refl;
  means = refl;
}
chosen_cmp signed long = record {
  instr = "CMPL";
  selected = refl;
  table = known false "CMPL" refl;
  means = refl;
}
chosen_cmp signed quad = record {
  instr = "CMPQ";
  selected = refl;
  table = known false "CMPQ" refl;
  means = refl;
}
