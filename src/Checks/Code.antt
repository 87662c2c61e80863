-- ===== src/Checks/Code.antt =====
-- The theorems on the code of jumps, copies, intrinsics and whole functions, applied.
use gensimd.Common.{ℕ, ◌<◌, ◌≡◌, ◌↔◌, refl, true, false, [], ◌∷◌, none, some, ok, length}
use gensimd.Common.Int.{pos}
use gensimd.Reg.{xmm_reg, invalid_reg}
use gensimd.Types.{basic, named, int64}
use gensimd.Function.{Function, ident_size}
use gensimd.State.{block, jump}
use gensimd.Storage.{is_dead}
use gensimd.Load.Constant.{Const}
use gensimd.Phi.{no_info}
use gensimd.Instr.Flags.{◌|||◌}
use gensimd.Copy.Chunks.{whole_chunks, Covered, chunks_iff}
use gensimd.Flow.{jump_instr, if_instr}
use gensimd.Flow.Jumps.{Left, Branched, jump_instr_lem, if_instr_lem}
use gensimd.Sse2.Table.{
  integer_sums, integer_moves, floats, sse2_instructions, Intrinsic, VarOp, in_flag, out_flag,
  imm8_flag,
}
use gensimd.Sse2.{get_sse2, find_sse2, sse2_intrinsic, operand_steps, start, Arg}
use gensimd.Sse2.Entries.{sse2_intrinsic_error}
use gensimd.Sse2.Operands.{
  two_inputs, lost_immediate, no_result, names_of, name_operand, two_inputs_lem, lost_immediate_lem,
}
use gensimd.Blocks.{other, defer, return_op}
use gensimd.Blocks.Rejected.{no_code}
use gensimd.Func.{SsaFunction}
use gensimd.Conversions.{convert_sides}
use gensimd.Conversions.Sides.{sides_fit, convert_sides_lem}
use gensimd.Types.{float32}
use gensimd.Checks.State.{r8, x0, x, state, state-Inv, low_byte, cached_as, flagged, flagged-Inv}

abbrev zero_const : ℕ → Const
zero_const m = record { is_true = false; int64 = pos 0; uint64 = 0; bits32 = 0; bits64 = 0 }

jump_instr_lem_example :
    Left
      (jump "JMP" (block 1))
      state
      (jump_instr zero_const no_info none (some record { index = 0; succs = 1 ∷ [] }) state)
unfolding is_dead
jump_instr_lem_example =
    jump_instr_lem zero_const no_info none state 0 1 state-Inv (λ m. (false, refl)) refl

if_instr_lem_example :
    Branched "R8" 1 2 flagged
      (if_instr zero_const no_info none (some record { index = 0; succs = 1 ∷ 2 ∷ [] }) 0 flagged)
unfolding is_dead ident_size
if_instr_lem_example =
    if_instr_lem zero_const no_info none flagged 0 0 1 2 0 (cached_as low_byte ∷ []) [] 0 r8
      flagged-Inv (λ m. (false, refl)) refl refl refl refl refl refl refl

chunks_iff_example : ((b : ℕ) → b < 24 → Covered 24 b) ↔ (whole_chunks 24 ≡ true)
chunks_iff_example = chunks_iff 24 refl

-- An array of three bytes.
three_bytes : whole_chunks 3 ≡ false
three_bytes = refl

abbrev input : VarOp
input = record {
  var_type = "M128i";
  constant = pos 0;
  op = record { flags = in_flag; reg = xmm_reg };
}

abbrev output : VarOp
output = record {
  var_type = "M128i";
  constant = pos 0;
  op = record { flags = in_flag ||| out_flag; reg = xmm_reg };
}

abbrev immediate : VarOp
immediate = record {
  var_type = "M128i";
  constant = pos 0;
  op = record { flags = imm8_flag; reg = xmm_reg };
}

abbrev compare_input : VarOp
compare_input = record {
  var_type = "M128";
  constant = pos 0;
  op = record { flags = in_flag; reg = xmm_reg };
}

-- The entry CmpeqPd of the table.
abbrev cmpeq_pd : Intrinsic
cmpeq_pd = record {
  name = "CmpeqPd";
  instruction_name = "CMPPD";
  var_ops =
      record {
        var_type = "";
        constant = pos 0;
        op = record { flags = imm8_flag; reg = invalid_reg };
      }
      ∷ compare_input
      ∷ record compare_input { op = record { flags = in_flag ||| out_flag; reg = xmm_reg } }
      ∷ [];
  result_idx_op = 1;
}

cmpeq_pd-found : get_sse2 "CmpeqPd" ≡ some cmpeq_pd
unfolding get_sse2 find_sse2 sse2_instructions integer_sums integer_moves floats
cmpeq_pd-found = refl

abbrev doubles : Function
doubles = record state { identifiers = λ _. record x { typ = named "M128" } }

sse2_intrinsic_error_example :
    no_code (sse2_intrinsic zero_const none 2 cmpeq_pd (0 ∷ 0 ∷ []) doubles) ≡ true
sse2_intrinsic_error_example =
    sse2_intrinsic_error zero_const none 2 cmpeq_pd (0 ∷ 0 ∷ []) doubles refl

abbrev vectors : Function
vectors = record state { identifiers = λ _. record x { typ = named "M128i" } }

abbrev first : Arg
first = record { ident = 0; reg = 0 }

abbrev second : Arg
second = record { ident = 1; reg = 1 }

two_inputs_lem_example :
    operand_steps zero_const (first ∷ second ∷ []) 1 0 (input ∷ output ∷ []) start vectors
    ≡ ok (
      record {
        arg_idx = 2;
        result = some 1;
        before = [];
        operands = name_operand r8 ∷ name_operand x0 ∷ [];
      },
      vectors,
    )
two_inputs_lem_example =
    two_inputs_lem zero_const vectors input output first r8 refl refl second x0 [] refl refl refl
      refl

lost_immediate_lem_example :
    operand_steps zero_const (first ∷ second ∷ []) 1 0 (immediate ∷ output ∷ []) start vectors
    ≡ ok (
      record { arg_idx = 1; result = some 0; before = []; operands = name_operand r8 ∷ [] },
      vectors,
    )
lost_immediate_lem_example =
    lost_immediate_lem zero_const vectors immediate output first r8 refl refl (second ∷ []) refl
      refl

-- A function with a deferred call behind a return.
abbrev deferring : SsaFunction
deferring = record {
  name = "f";
  params = basic int64 ∷ [];
  locals = [];
  results = basic int64 ∷ [];
  phis = [];
  blocks =
      record {
        index = 0;
        steps =
            record { loc = none; value = 1; op = return_op [] }
            ∷ record { loc = none; value = 2; op = other defer }
            ∷ [];
      }
      ∷ [];
  idents = [];
  result = 3;
}

convert_sides_lem_example :
    sides_fit (basic int64) (basic float32) (convert_sides (basic int64) (basic float32)) ≡ true
convert_sides_lem_example = convert_sides_lem (basic int64) (basic float32)

-- The entries of the table, by their shape.
lost_names :
    names_of lost_immediate sse2_instructions ≡ "SlliSi128" ∷ "UnpackhiEpi64" ∷ "UnpackloEpi64" ∷ []
unfolding names_of sse2_instructions integer_sums integer_moves floats
lost_names = refl

no_result_names : names_of no_result sse2_instructions ≡ "CmpeqPd" ∷ []
unfolding names_of sse2_instructions integer_sums integer_moves floats
no_result_names = refl

two_input_count : length (names_of two_inputs sse2_instructions) ≡ 10
unfolding names_of sse2_instructions integer_sums integer_moves floats
two_input_count = refl
