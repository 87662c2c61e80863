-- ===== src/Sse2/Table.antt =====
-- codegen/intrinsic.go and the table of codegen/sse2.go. A type of the simd package is its name,
-- and a Variable without a type is the empty one.
use gensimd.Common.{ℕ, ◌^◌, List, [], ◌∷◌, ◌++◌, String}
use gensimd.Common.Int.{ℤ, pos}
use gensimd.Reg.{RegType, xmm_reg, invalid_reg}
use gensimd.Instr.Entry.{Instruction}
use gensimd.Instr.Flags.{◌|||◌}

abbrev pub OpFlags : Type 0
OpFlags = ℕ

abbrev pub in_flag : OpFlags
in_flag = 2 ^ 1

abbrev pub out_flag : OpFlags
out_flag = 2 ^ 2

abbrev pub implicit_flag : OpFlags
implicit_flag = 2 ^ 3

abbrev pub const_flag : OpFlags
const_flag = 2 ^ 4

abbrev pub imm8_flag : OpFlags
imm8_flag = 2 ^ 5

abbrev pub imm32_flag : OpFlags
imm32_flag = 2 ^ 6

abbrev pub imm_f32_flag : OpFlags
imm_f32_flag = 2 ^ 7

abbrev pub imm_f64_flag : OpFlags
imm_f64_flag = 2 ^ 8

-- `Operand` of intrinsic.go; nothing reads NamedReg, which is REG_INVALID in each entry.
pub record OperandInfo : Type 0 where
  pub flags : OpFlags
  pub reg : RegType

pub record VarOp : Type 0 where
  pub var_type : String
  pub constant : ℤ
  pub op : OperandInfo

pub record Intrinsic : Type 0 where
  pub name : String
  pub instruction_name : Instruction
  pub var_ops : List VarOp
  pub result_idx_op : ℕ

abbrev operand : String → OpFlags → RegType → VarOp
operand name flags reg = record {
  var_type = name;
  constant = pos 0;
  op = record { flags = flags; reg = reg };
}

unfoldable pub integer_sums : List Intrinsic
integer_sums =
    record {
      name = "AddEpi64";
      instruction_name = "PADDQ";
      var_ops =
          operand "M128i" (in_flag) xmm_reg ∷ operand "M128i" (in_flag ||| out_flag) xmm_reg ∷ [];
      result_idx_op = 1;
    }
    ∷ record {
      name = "SubEpi64";
      instruction_name = "PSUBQ";
      var_ops =
          operand "M128i" (in_flag) xmm_reg ∷ operand "M128i" (in_flag ||| out_flag) xmm_reg ∷ [];
      result_idx_op = 1;
    }
    ∷ record {
      name = "MulEpu32";
      instruction_name = "PMULULQ";
      var_ops =
          operand "M128i" (in_flag) xmm_reg ∷ operand "M128i" (in_flag ||| out_flag) xmm_reg ∷ [];
      result_idx_op = 1;
    }
    ∷ record {
      name = "ShufflehiEpi16";
      instruction_name = "PSHUFHW";
      var_ops =
          operand "M128i" (in_flag) xmm_reg ∷ operand "M128i" (in_flag ||| out_flag) xmm_reg ∷ [];
      result_idx_op = 1;
    }
    ∷ record {
      name = "ShuffleloEpi16";
      instruction_name = "PSHUFLW";
      var_ops =
          operand "M128i" (in_flag) xmm_reg ∷ operand "M128i" (in_flag ||| out_flag) xmm_reg ∷ [];
      result_idx_op = 1;
    }
    ∷ record {
      name = "ShuffleEpi32";
      instruction_name = "PSHUFD";
      var_ops =
          operand "M128i" (in_flag) xmm_reg ∷ operand "M128i" (in_flag ||| out_flag) xmm_reg ∷ [];
      result_idx_op = 1;
    }
    ∷ []

unfoldable pub integer_moves : List Intrinsic
integer_moves =
    record {
      name = "SlliSi128";
      instruction_name = "PSLLO";
      var_ops =
          operand "M128i" (imm8_flag) invalid_reg
          ∷ operand "M128i" (in_flag ||| out_flag) xmm_reg
          ∷ [];
      result_idx_op = 1;
    }
    ∷ record {
      name = "SrliSi128";
      instruction_name = "PSRLO";
      var_ops =
          operand "M128i" (in_flag) xmm_reg ∷ operand "M128i" (in_flag ||| out_flag) xmm_reg ∷ [];
      result_idx_op = 1;
    }
    ∷ record {
      name = "UnpackhiEpi64";
      instruction_name = "PUNPCKHLQ";
      var_ops =
          operand "M128i" (imm8_flag) xmm_reg ∷ operand "M128i" (in_flag ||| out_flag) xmm_reg ∷ [];
      result_idx_op = 1;
    }
    ∷ record {
      name = "UnpackloEpi64";
      instruction_name = "PUNPCKLLQ";
      var_ops =
          operand "M128i" (imm8_flag) invalid_reg
          ∷ operand "M128i" (in_flag ||| out_flag) xmm_reg
          ∷ [];
      result_idx_op = 1;
    }
    ∷ []

unfoldable pub floats : List Intrinsic
floats =
    record {
      name = "AddPd";
      instruction_name = "ADDPD";
      var_ops =
          operand "M128d" (in_flag) xmm_reg ∷ operand "M128d" (in_flag ||| out_flag) xmm_reg ∷ [];
      result_idx_op = 1;
    }
    ∷ record {
      name = "AddSd";
      instruction_name = "ADDSD";
      var_ops =
          operand "M128" (in_flag) xmm_reg ∷ operand "M128" (in_flag ||| out_flag) xmm_reg ∷ [];
      result_idx_op = 1;
    }
    ∷ record {
      name = "AndnotPd";
      instruction_name = "ANDNPD";
      var_ops =
          operand "M128d" (in_flag) xmm_reg ∷ operand "M128d" (in_flag ||| out_flag) xmm_reg ∷ [];
      result_idx_op = 1;
    }
    ∷ record {
      name = "CmpeqPd";
      instruction_name = "CMPPD";
      var_ops =
          operand "" (imm8_flag) invalid_reg
          ∷ operand "M128" (in_flag) xmm_reg
          ∷ operand "M128" (in_flag ||| out_flag) xmm_reg
          ∷ [];
      result_idx_op = 1;
    }
    ∷ record {
      name = "CmpeqSd";
      instruction_name = "CMPPD";
      var_ops =
          operand "" (imm8_flag) invalid_reg
          ∷ operand "M128" (in_flag) xmm_reg
          ∷ operand "M128" (in_flag ||| out_flag) xmm_reg
          ∷ [];
      result_idx_op = 2;
    }
    ∷ []

unfoldable pub sse2_instructions : List Intrinsic
unfolding integer_sums integer_moves floats
sse2_instructions = integer_sums ++ integer_moves ++ floats
