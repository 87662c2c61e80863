-- ===== src/Instr/Forms.antt =====
-- codegen/instramd64.go: the instruction types, and the sized or xmm forms of each.
use gensimd.Common.{ℕ, List, [], ◌∷◌}
use gensimd.Instr.Entry.{Instruction}

pub data InstructionType : Type 0 where
  i_invalid i_add i_and i_cmp i_cvt_float2int i_cvt_int2float i_cvt_float2float i_div i_imul i_idiv
        i_lea i_mov i_movbsx i_movwsx i_movlsx i_movbzx i_movwzx i_movlzx i_mul i_or i_padd i_pand
        i_pandn i_pcmpeq i_pcmpgt i_pimul i_pmul i_por i_psll i_psra i_psrl i_psub i_pxor i_pmov
        i_sal i_sar i_shl i_shr i_sub i_xor :
      InstructionType

-- The value of the constant, by which instruction types are compared.
abbrev pub iota : InstructionType → ℕ
iota i_invalid = 0
iota i_add = 1
iota i_and = 2
iota i_cmp = 3
iota i_cvt_float2int = 4
iota i_cvt_int2float = 5
iota i_cvt_float2float = 6
iota i_div = 7
iota i_imul = 8
iota i_idiv = 9
iota i_lea = 10
iota i_mov = 11
iota i_movbsx = 12
iota i_movwsx = 13
iota i_movlsx = 14
iota i_movbzx = 15
iota i_movwzx = 16
iota i_movlzx = 17
iota i_mul = 18
iota i_or = 19
iota i_padd = 20
iota i_pand = 21
iota i_pandn = 22
iota i_pcmpeq = 23
iota i_pcmpgt = 24
iota i_pimul = 25
iota i_pmul = 26
iota i_por = 27
iota i_psll = 28
iota i_psra = 29
iota i_psrl = 30
iota i_psub = 31
iota i_pxor = 32
iota i_pmov = 33
iota i_sal = 34
iota i_sar = 35
iota i_shl = 36
iota i_shr = 37
iota i_sub = 38
iota i_xor = 39

pub record DataInstruction : Type 0 where
  pub t_instr : InstructionType
  pub byte_sized : Instruction
  pub word_sized : Instruction
  pub long_sized : Instruction
  pub quad_sized : Instruction
  pub oct_sized : Instruction

pub record XmmInstruction : Type 0 where
  pub xmm_instr : InstructionType
  pub f32 : Instruction
  pub f64 : Instruction
  pub f32x4 : Instruction
  pub f64x2 : Instruction

abbrev data_row :
    InstructionType
    → Instruction
    → Instruction
    → Instruction
    → Instruction
    → Instruction
    → DataInstruction
data_row t b w l q o = record {
  t_instr = t;
  byte_sized = b;
  word_sized = w;
  long_sized = l;
  quad_sized = q;
  oct_sized = o;
}

abbrev xmm_row :
    InstructionType → Instruction → Instruction → Instruction → Instruction → XmmInstruction
xmm_row t a b c d = record { xmm_instr = t; f32 = a; f64 = b; f32x4 = c; f64x2 = d }

unfoldable pub insts : List DataInstruction
insts =
    data_row i_add "ADDB" "ADDW" "ADDL" "ADDQ" "NONE"
    ∷ data_row i_sub "SUBB" "SUBW" "SUBL" "SUBQ" "NONE"
    ∷ data_row i_mov "MOVB" "MOVW" "MOVL" "MOVQ" "MOVOU"
    ∷ data_row i_movbsx "NONE" "MOVBWSX" "MOVBLSX" "MOVBQSX" "NONE"
    ∷ data_row i_movwsx "NONE" "NONE" "MOVWLSX" "MOVWQSX" "NONE"
    ∷ data_row i_movlsx "NONE" "NONE" "NONE" "MOVLQSX" "NONE"
    ∷ data_row i_movbzx "NONE" "MOVBWZX" "MOVBLZX" "MOVBQZX" "NONE"
    ∷ data_row i_movwzx "NONE" "NONE" "MOVWLZX" "MOVWQZX" "NONE"
    ∷ data_row i_movlzx "NONE" "NONE" "NONE" "MOVLQZX" "NONE"
    ∷ data_row i_xor "XORB" "XORW" "XORL" "XORQ" "NONE"
    ∷ data_row i_lea "NONE" "LEAW" "LEAL" "LEAQ" "NONE"
    ∷ data_row i_mul "MULB" "MULW" "MULL" "MULQ" "NONE"
    ∷ data_row i_imul "IMULB" "IMULW" "IMULL" "IMULQ" "NONE"
    ∷ data_row i_div "DIVB" "DIVW" "DIVL" "DIVQ" "NONE"
    ∷ data_row i_idiv "IDIVB" "IDIVW" "IDIVL" "IDIVQ" "NONE"
    ∷ data_row i_and "ANDB" "ANDW" "ANDL" "ANDQ" "NONE"
    ∷ data_row i_or "ORB" "ORW" "ORL" "ORQ" "NONE"
    ∷ data_row i_shl "SHLB" "SHLW" "SHLL" "SHLQ" "NONE"
    ∷ data_row i_shr "SHRB" "SHRW" "SHRL" "SHRQ" "NONE"
    ∷ data_row i_sal "SALB" "SHLW" "SHLL" "SHLQ" "NONE"
    ∷ data_row i_sar "SARB" "SARW" "SARL" "SARQ" "NONE"
    ∷ data_row i_cmp "CMPB" "CMPW" "CMPL" "CMPQ" "NONE"
    ∷ []

unfoldable pub xmm_insts : List XmmInstruction
xmm_insts =
    xmm_row i_add "ADDSS" "ADDSD" "ADDPS" "ADDPD"
    ∷ xmm_row i_cmp "UCOMISS" "UCOMISD" "NONE" "NONE"
    ∷ xmm_row i_div "DIVSS" "DIVSD" "DIVPS" "DIVPD"
    ∷ xmm_row i_mov "MOVSS" "MOVSD" "MOVUPS" "MOVUPD"
    ∷ xmm_row i_mul "MULSS" "MULSD" "MULPS" "MULPD"
    ∷ xmm_row i_sub "SUBSS" "SUBSD" "SUBPS" "SUBPD"
    ∷ xmm_row i_xor "NONE" "NONE" "XORPS" "XORPD"
    ∷ xmm_row i_padd "PADDB" "PADDW" "PADDL" "PADDQ"
    ∷ xmm_row i_pand "PANDB" "PANDW" "PANDL" "PAND"
    ∷ xmm_row i_pandn "NONE" "NONE" "NONE" "PANDN"
    ∷ xmm_row i_pcmpeq "PCMPEQB" "PCMPEQW" "PCMPEQL" "NONE"
    ∷ xmm_row i_pcmpgt "PCMPGTB" "PCMPGTW" "PCMPGTL" "NONE"
    ∷ xmm_row i_pimul "NONE" "PMULLW" "NONE" "NONE"
    ∷ xmm_row i_pmov "MOVOU" "MOVOU" "MOVOU" "MOVOU"
    ∷ xmm_row i_por "POR" "POR" "POR" "POR"
    ∷ xmm_row i_psll "NONE" "PSLLW" "PSLLL" "PSLLQ"
    ∷ xmm_row i_psra "NONE" "PSRAW" "PSRAL" "NONE"
    ∷ xmm_row i_psrl "NONE" "PSRLW" "PSRLL" "PSRLQ"
    ∷ xmm_row i_pmul "NONE" "NONE" "PMULULQ" "NONE"
    ∷ xmm_row i_psub "PSUBB" "PSUBW" "PSUBL" "PSUBQ"
    ∷ xmm_row i_pxor "NONE" "NONE" "NONE" "PXOR"
    ∷ []
