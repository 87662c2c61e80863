-- ===== src/Sse2/Operands.antt =====
-- The operands that sse2Intrinsic writes for the two shapes of entry that the table has most of.
use gensimd.Common.{
  ℕ, ◌+◌, ◌≡◌, ◌∙◌, refl, Bool, true, false, not, ◌&&◌, List, [], ◌∷◌, ◌++◌, Option, none, some,
  String, ok, arith, if◌then◌else◌, ◌==◌, get_elem?,
}
use gensimd.Reg.{Register}
use gensimd.Instr.Flags.{◌|||◌, has}
use gensimd.Function.{Function, Identifier}
use gensimd.State.{lift, bind_ok, TextOperand}
use gensimd.Load.Constant.{Const}
use gensimd.Sse2.Table.{
  OpFlags, in_flag, out_flag, implicit_flag, const_flag, imm8_flag, VarOp, Intrinsic,
}
use gensimd.Sse2.{
  Arg, Progress, start, arg_or_panic, is_named, small_imm, float_imm, note_output, immediate_of,
  read_operand, operand_step, operand_steps,
}

abbrev pub flags_of_op : VarOp → OpFlags
flags_of_op v = v.op.flags

-- Two operands, of which the second is also the output and the result.
abbrev pub two_inputs : List VarOp → ℕ → Bool
two_inputs [] idx = false
two_inputs (v ∷ []) idx = false
two_inputs (v ∷ w ∷ []) idx =
    (flags_of_op v == in_flag) && ((flags_of_op w == (in_flag ||| out_flag)) && (idx == 1))
two_inputs (v ∷ w ∷ u ∷ rest) idx = false

-- The first operand is an immediate, but not marked as an input.
abbrev pub lost_immediate : List VarOp → ℕ → Bool
lost_immediate [] idx = false
lost_immediate (v ∷ []) idx = false
lost_immediate (v ∷ w ∷ []) idx =
    (flags_of_op v == imm8_flag) && ((flags_of_op w == (in_flag ||| out_flag)) && (idx == 1))
lost_immediate (v ∷ w ∷ u ∷ rest) idx = false

abbrev is_output : Option VarOp → Bool
is_output none = false
is_output (some v) = has (flags_of_op v) out_flag

-- The result index is that of no output.
abbrev pub no_result : List VarOp → ℕ → Bool
no_result vs idx = not (is_output (get_elem? vs idx))

unfoldable pub names_of : (List VarOp → ℕ → Bool) → List Intrinsic → List String
names_of shape [] = []
names_of shape (x ∷ xs) =
    let rest = names_of shape xs in if shape x.var_ops x.result_idx_op then x.name ∷ rest else rest

abbrev pub name_operand : Register → TextOperand
name_operand r = record { imm = none; name = r.name }

module _ (consts : ℕ → Const) (f : Function) (a : Arg) (r : Register)
    (held : get_elem? f.registers a.reg ≡ some r) where
  read_operand_lem :
      (v : VarOp) (p : Progress)
      → is_named (Identifier.typ (f.identifiers a.ident)) v.var_type ≡ true
      → has v.op.flags in_flag ≡ true
      → small_imm v.op.flags ≡ false
      → float_imm v.op.flags ≡ false
      → read_operand consts v a p f
        ≡ ok (record p { arg_idx = p.arg_idx + 1; operands = p.operands ++ name_operand r ∷ [] }, f)
  unfolding read_operand immediate_of
  read_operand_lem v p n i s t = ground arith

  taken_step :
      (args : List Arg) (i : ℕ) (v : VarOp) (p q : Progress)
      → get_elem? args p.arg_idx ≡ some a
      → note_output 1 i v.op.flags a p f ≡ ok (q, f)
      → has v.op.flags implicit_flag ≡ false
      → has v.op.flags const_flag ≡ false
      → has v.op.flags in_flag ≡ true
      → operand_step consts args 1 i v p f ≡ read_operand consts v a q f
  unfolding operand_step
  taken_step args i v p q h n im co inp =
      bind_ok (lift (arg_or_panic (get_elem? args p.arg_idx))) _ f f a (rw h refl)
      ∙ bind_ok (note_output 1 i v.op.flags a p) _ f f q n
      ∙ rw (im, co, inp) refl

  input_step :
      (args : List Arg) (v : VarOp) (p : Progress)
      → get_elem? args p.arg_idx ≡ some a
      → v.op.flags ≡ in_flag
      → is_named (Identifier.typ (f.identifiers a.ident)) v.var_type ≡ true
      → operand_step consts args 1 0 v p f
        ≡ ok (record p { arg_idx = p.arg_idx + 1; operands = p.operands ++ name_operand r ∷ [] }, f)
  unfolding note_output
  input_step args v p h i n =
      taken_step args 0 v p p h (rw i refl) (rw i refl) (rw i refl) (rw i refl)
      ∙ read_operand_lem v p n (rw i refl) (rw i refl) (rw i refl)

  output_step :
      (args : List Arg) (v : VarOp) (p : Progress)
      → get_elem? args p.arg_idx ≡ some a
      → v.op.flags ≡ (in_flag ||| out_flag)
      → is_named (Identifier.typ (f.identifiers a.ident)) v.var_type ≡ true
      → operand_step consts args 1 1 v p f
        ≡ ok (
          record p {
            arg_idx = p.arg_idx + 1;
            result = some a.reg;
            operands = p.operands ++ name_operand r ∷ [];
          },
          f,
        )
  unfolding note_output
  output_step args v p h i n =
      taken_step args 1 v p (record p { result = some a.reg }) h (rw i refl) (rw i refl) (rw i refl)
        (rw i refl)
      ∙ read_operand_lem v (record p { result = some a.reg }) n (rw i refl) (rw i refl) (rw i refl)

lost_step :
    (consts : ℕ → Const) (f : Function) (a : Arg) (args : List Arg) (v : VarOp) (p : Progress)
    → get_elem? args p.arg_idx ≡ some a
    → v.op.flags ≡ imm8_flag
    → operand_step consts args 1 0 v p f ≡ ok (p, f)
unfolding operand_step note_output
lost_step consts f a args v p h i = rw (operand_step, h, i) refl

module _ (consts : ℕ → Const) (f : Function) (v w : VarOp) (a : Arg) (r : Register)
    (held : get_elem? f.registers a.reg ≡ some r)
    (output : w.op.flags ≡ (in_flag ||| out_flag)) where
  -- For an entry with two inputs, the second of them the result, and arguments of the entry's types,
  -- the line has the registers of both arguments in order, and the second one's is the result.
  pub two_inputs_lem :
      (b : Arg) (s : Register) (rest : List Arg)
      → get_elem? f.registers b.reg ≡ some s
      → v.op.flags ≡ in_flag
      → is_named (Identifier.typ (f.identifiers a.ident)) v.var_type ≡ true
      → is_named (Identifier.typ (f.identifiers b.ident)) w.var_type ≡ true
      → operand_steps consts (a ∷ b ∷ rest) 1 0 (v ∷ w ∷ []) start f
        ≡ ok (
          record {
            arg_idx = 2;
            result = some b.reg;
            before = [];
            operands = name_operand r ∷ name_operand s ∷ [];
          },
          f,
        )
  unfolding operand_steps
  two_inputs_lem b s rest there input p q =
      bind_ok (operand_step consts (a ∷ b ∷ rest) 1 0 v start) _ f f
        record { arg_idx = 1; result = none; before = []; operands = name_operand r ∷ [] }
        (input_step consts f a r held (a ∷ b ∷ rest) v start refl input p)
      ∙ bind_ok
          (operand_step consts (a ∷ b ∷ rest) 1 1 w
            record { arg_idx = 1; result = none; before = []; operands = name_operand r ∷ [] })
          _ f f
          record {
            arg_idx = 2;
            result = some b.reg;
            before = [];
            operands = name_operand r ∷ name_operand s ∷ [];
          }
          (output_step consts f b s there (a ∷ b ∷ rest) w
            record { arg_idx = 1; result = none; before = []; operands = name_operand r ∷ [] } refl
            output q)

  -- For an entry whose first operand is an immediate that is not marked as an input, and a first
  -- argument of the second operand's type, the line has the register of the first argument only,
  -- which is the result too.
  pub lost_immediate_lem :
      (rest : List Arg)
      → v.op.flags ≡ imm8_flag
      → is_named (Identifier.typ (f.identifiers a.ident)) w.var_type ≡ true
      → operand_steps consts (a ∷ rest) 1 0 (v ∷ w ∷ []) start f
        ≡ ok (
          record { arg_idx = 1; result = some a.reg; before = []; operands = name_operand r ∷ [] },
          f,
        )
  unfolding operand_steps
  lost_immediate_lem rest input p =
      bind_ok (operand_step consts (a ∷ rest) 1 0 v start) _ f f start
        (lost_step consts f a (a ∷ rest) v start refl input)
      ∙ bind_ok (operand_step consts (a ∷ rest) 1 1 w start) _ f f
          record { arg_idx = 1; result = some a.reg; before = []; operands = name_operand r ∷ [] }
          (output_step consts f a r held (a ∷ rest) w start refl output p)
