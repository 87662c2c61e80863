-- ===== src/Sse2.antt =====
-- codegen/sse2.go: the code of an intrinsic of the sse2 table.
pub mod Table
pub mod Entries
pub mod Operands
use text.Mathlib.Text.{◌==◌ as str_eq}
use gensimd.Common.{
  ℕ, zero, suc, ◌+◌, ◌%◌, ◌^◌, Bool, true, false, not, ◌&&◌, ◌||◌, List, [], ◌∷◌, ◌++◌, Option,
  none, some, String, Result, ok, fault, ice, panics, if◌then◌else◌, ◌==◌, get_elem?,
}
use gensimd.Common.Int.{ℤ}
use gensimd.Types.{GoType, named}
use gensimd.Function.{Function, Identifier, Location, is_const}
use gensimd.State.{
  Asm, TextOperand, written, loose, M, pure, ◌>>=◌, ◌>>◌, lift, ice_when, get_reg, put_reg,
}
use gensimd.Storage.{get_ident}
use gensimd.Alloc.{free_reg}
use gensimd.Load.Constant.{Const}
use gensimd.Emit.Write.{signed_of}
use gensimd.Instr.Flags.{has}
use gensimd.Translate.{load_operand, store_value}
use gensimd.Sse2.Table.{
  OpFlags, in_flag, out_flag, implicit_flag, const_flag, imm8_flag, imm32_flag, imm_f32_flag,
  imm_f64_flag, VarOp, OperandInfo, Intrinsic, sse2_instructions,
}

unfoldable pub find_sse2 : String → List Intrinsic → Option Intrinsic
find_sse2 name [] = none
find_sse2 name (x ∷ xs) = if str_eq x.name name then some x else find_sse2 name xs

unfoldable pub get_sse2 : String → Option Intrinsic
unfolding find_sse2 sse2_instructions
get_sse2 name = find_sse2 name sse2_instructions

-- An argument: its identifier and the slot of its register.
pub record Arg : Type 0 where
  pub ident : ℕ
  pub reg : ℕ

-- The variables of the loop over the operands: `before` is the text that comes before the line.
pub record Progress : Type 0 where
  pub arg_idx : ℕ
  pub result : Option ℕ
  pub before : Asm
  pub operands : List TextOperand

abbrev pub start : Progress
start = record { arg_idx = 0; result = none; before = []; operands = [] }

abbrev pub small_imm : OpFlags → Bool
small_imm flags = has flags imm8_flag || has flags imm32_flag

abbrev pub float_imm : OpFlags → Bool
float_imm flags = has flags imm_f32_flag || has flags imm_f64_flag

abbrev pub is_named : GoType → String → Bool
is_named (named n) name = str_eq n name
is_named t name = false

abbrev pub arg_or_panic : Option Arg → Result Arg
arg_or_panic none = fault panics
arg_or_panic (some a) = ok a

abbrev pub set_dirty : ℕ → M (Unit {0})
set_dirty i = get_reg i >>= λ r. put_reg i (record r { dirty = true })

-- An output is the result, or a register that is marked as changed.
unfoldable pub note_output : ℕ → ℕ → OpFlags → Arg → Progress → M Progress
note_output result_idx i flags a p =
    if has flags out_flag
    then (if i == result_idx
        then pure (record p { result = some a.reg })
        else set_dirty a.reg >> pure p)
    else pure p

module _ (consts : ℕ → Const) where
  -- What stands right before the register's name.
  unfoldable pub immediate_of : OpFlags → Arg → M (Option ℤ)
  immediate_of flags a = do
    ident ← get_ident a.ident
    if small_imm flags
        then (if is_const ident
            then pure (some (signed_of 64 (Const.uint64 (consts a.ident) % 2 ^ 64)))
            else lift (fault panics))
        else if float_imm flags
        then lift ice
        else pure none

  unfoldable pub read_operand : VarOp → Arg → Progress → M Progress
  unfolding immediate_of
  read_operand v a p = do
    ident ← get_ident a.ident
    ice_when (not (is_named (Identifier.typ ident) v.var_type))
    if has v.op.flags in_flag
        then (do
          imm ← immediate_of v.op.flags a
          r ← get_reg a.reg
          pure (record p {
            arg_idx = p.arg_idx + 1;
            operands = p.operands ++ record { imm = imm; name = r.name } ∷ [];
          }))
        else pure p

  unfoldable pub operand_step : List Arg → ℕ → ℕ → VarOp → Progress → M Progress
  unfolding note_output read_operand
  operand_step args result_idx i v p = do
    a ← lift (arg_or_panic (get_elem? args p.arg_idx))
    q ← note_output result_idx i v.op.flags a p
    if has v.op.flags implicit_flag
        then pure q
        else if has v.op.flags const_flag
        then (if small_imm v.op.flags
            then pure (record q { before = q.before ++ loose v.constant ∷ [] })
            else lift ice)
        else if not (has v.op.flags in_flag) && not (has v.op.flags out_flag)
        then pure q
        else read_operand v a q

  -- The loop, from operand number `i` on.
  unfoldable pub operand_steps : List Arg → ℕ → ℕ → List VarOp → Progress → M Progress
  unfolding operand_step
  operand_steps args result_idx i [] p = pure p
  operand_steps args result_idx i (v ∷ vs) p =
      operand_step args result_idx i v p >>= λ q. operand_steps args result_idx (i + 1) vs q

  unfoldable pub load_args : Option Location → List ℕ → M (Asm × List Arg)
  unfolding load_operand
  load_args loc [] = pure ([], [])
  load_args loc (x ∷ xs) = do
    found ← load_operand consts loc x
    rest ← load_args loc xs
    pure (found.0 ++ rest.0, record { ident = x; reg = found.1 } ∷ rest.1)

  unfoldable pub free_args : List Arg → M (Unit {0})
  unfolding free_reg
  free_args [] = pure tt
  free_args (a ∷ as') = free_reg a.reg >> free_args as'

  unfoldable pub store_result : Option Location → ℕ → Option ℕ → M Asm
  unfolding store_value
  store_result loc m none = lift ice
  store_result loc m (some i) = store_value loc m i

  -- The result is the identifier `m`.
  unfoldable pub sse2_intrinsic : Option Location → ℕ → Intrinsic → List ℕ → M Asm
  unfolding load_args operand_steps store_result free_args
  sse2_intrinsic loc m intrinsic args = do
    a ← load_args loc args
    p ← operand_steps a.1 intrinsic.result_idx_op 0 intrinsic.var_ops start
    c ← store_result loc m p.result
    free_args a.1
    pure (a.0 ++ p.before ++ (written intrinsic.instruction_name p.operands ∷ []) ++ c)
