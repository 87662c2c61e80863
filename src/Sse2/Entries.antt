-- ===== src/Sse2/Entries.antt =====
-- The operands that sse2Intrinsic writes, and entries whose result is no output.
use gensimd.Common.{
  ℕ, suc, ◌+◌, ◌≡◌, refl, ap, inl, inr, Bool-cases, ==_iff, Bool, true, false, not, ◌&&◌, List, [],
  ◌∷◌, ◌++◌, Option, none, some, Result, ok, fault, arith, if◌then◌else◌, ◌==◌, get_elem?, ice,
}
use gensimd.Instr.Flags.{has}
use gensimd.Function.{Function, Identifier, Location}
use gensimd.State.{Asm, M, ◌>>=◌, pure, lift, ice_when, get_reg, loose}
use gensimd.Load.Constant.{Const}
use gensimd.Blocks.Rejected.{no_code, first-no_code, rest-no_code}
use gensimd.Sse2.Table.{OpFlags, in_flag, out_flag, implicit_flag, const_flag, VarOp, Intrinsic}
use gensimd.Sse2.Operands.{no_result}
use gensimd.Sse2.{
  Arg, Progress, start, set_dirty, is_named, small_imm, arg_or_panic, note_output, immediate_of,
  read_operand, operand_step, operand_steps, load_args, store_result, sse2_intrinsic,
}

abbrev no_reg : Option ℕ → Bool
no_reg none = true
no_reg (some i) = false

-- A normal return leaves no result.
abbrev none_left : Result (Progress × Function) → Bool
none_left (fault e) = true
none_left (ok (q, g)) = no_reg q.result

bind-left :
    (m : M Progress) (k : Progress → M Progress) (f : Function)
    → none_left (m f) ≡ true
    → ((q : Progress) (g : Function) → no_reg q.result ≡ true → none_left (k q g) ≡ true)
    → none_left ((m >>= k) f) ≡ true
bind-left m k f h n = after (m f) h
  where
    after :
        (res : Result (Progress × Function))
        → none_left res ≡ true
        → none_left (elim res [ ok (q, g) ↦ k q g | fault e ↦ fault e ]) ≡ true
    after (ok (q, g)) e = n q g e
    after (fault e) p = refl

bind-any :
    {A : Type 0} (m : M A) (k : A → M Progress) (f : Function)
    → ((a : A) (g : Function) → none_left (k a g) ≡ true)
    → none_left ((m >>= k) f) ≡ true
bind-any {A = A} m k f n = after (m f)
  where
    after :
        (res : Result (A × Function))
        → none_left (elim res [ ok (a, g) ↦ k a g | fault e ↦ fault e ]) ≡ true
    after (ok (a, g)) = n a g
    after (fault e) = refl

choose-left :
    (b : Bool) (x y : M Progress) (f : Function)
    → none_left (x f) ≡ true
    → none_left (y f) ≡ true
    → none_left ((if b then x else y) f) ≡ true
choose-left true x y f p q = p
choose-left false x y f p q = q

output-left :
    (idx i : ℕ) (flags : OpFlags) (a : Arg) (p : Progress) (f : Function)
    → (i ≡ idx → has flags out_flag ≡ false)
    → no_reg p.result ≡ true
    → none_left (note_output idx i flags a p f) ≡ true
unfolding note_output
output-left idx i flags a p f n h = elim (Bool-cases (i == idx)) [
  | inl e ↦ rw (n ((==_iff i idx).0 e)) h
  | inr e ↦
      choose-left (has flags out_flag) _ (pure p) f
        (rw e (bind-any (set_dirty a.reg) (λ u. pure p) f (λ u g. h))) h
]

-- None of the operands, of which the first is number `i`, is an output with the result's index.
abbrev NoneOut : ℕ → ℕ → List VarOp → Type 0
NoneOut idx i vs =
    (j : ℕ) (v : VarOp) → get_elem? vs j ≡ some v → i + j ≡ idx → has v.op.flags out_flag ≡ false

module _ (consts : ℕ → Const) where
  read-left :
      (v : VarOp) (a : Arg) (p : Progress) (f : Function)
      → no_reg p.result ≡ true
      → none_left (read_operand consts v a p f) ≡ true
  unfolding read_operand
  read-left v a p f h =
      bind-any (ice_when (not (is_named (Identifier.typ (f.identifiers a.ident)) v.var_type))) _ f
        (λ u g.
          choose-left (has v.op.flags in_flag) _ (pure p) g
            (bind-any (immediate_of consts v.op.flags a) _ g
              (λ imm k. bind-any (get_reg a.reg) _ k (λ r t. h)))
            h)

  step-left :
      (args : List Arg) (idx i : ℕ) (v : VarOp) (p : Progress) (f : Function)
      → (i ≡ idx → has v.op.flags out_flag ≡ false)
      → no_reg p.result ≡ true
      → none_left (operand_step consts args idx i v p f) ≡ true
  unfolding operand_step
  step-left args idx i v p f n h =
      bind-any (lift (arg_or_panic (get_elem? args p.arg_idx))) _ f (λ a g.
        bind-left (note_output idx i v.op.flags a p) _ g (output-left idx i v.op.flags a p g n h)
          (λ q k e. choose-left (has v.op.flags implicit_flag) (pure q) _ k e (
            choose-left (has v.op.flags const_flag) _ _ k
              (choose-left (small_imm v.op.flags)
                (pure (record q { before = q.before ++ loose v.constant ∷ [] })) (lift ice) k e
                refl)
              (choose-left (not (has v.op.flags in_flag) && not (has v.op.flags out_flag)) (pure q)
                (read_operand consts v a q) k e (read-left v a q k e)))))

  steps-left :
      (args : List Arg) (idx i : ℕ) (vs : List VarOp) (p : Progress) (f : Function)
      → NoneOut idx i vs
      → no_reg p.result ≡ true
      → none_left (operand_steps consts args idx i vs p f) ≡ true
  unfolding operand_steps
  steps-left args idx i [] p f l h = h
  steps-left args idx i (v ∷ vs) p f l h =
      bind-left (operand_step consts args idx i v p) _ f
        (step-left args idx i v p f (λ e. l 0 v refl (omega arith)) h)
        (λ q g e. steps-left args idx (i + 1) vs q g (λ j w at n. l (suc j) w at (omega arith)) e)

  after-steps :
      (res : Result (Progress × Function)) (k : Progress → M Asm)
      → none_left res ≡ true
      → ((q : Progress) (g : Function) → no_reg q.result ≡ true → no_code (k q g) ≡ true)
      → no_code (elim res [ ok (q, g) ↦ k q g | fault e ↦ fault e ]) ≡ true
  after-steps (ok (q, g)) k h n = n q g h
  after-steps (fault e) k h n = refl

  none-no_code :
      (loc : Option Location) (m : ℕ) (o : Option ℕ) (f : Function)
      → no_reg o ≡ true
      → no_code (store_result consts loc m o f) ≡ true
  unfolding store_result
  none-no_code loc m none f h = refl
  none-no_code loc m (some i) f h = cc

  no_result-NoneOut : (vs : List VarOp) (idx : ℕ) → no_result vs idx ≡ true → NoneOut idx 0 vs
  no_result-NoneOut vs idx h j v at e = ground (arith, h, at, ap (get_elem? vs) e)

  -- From any state, sse2Intrinsic for an entry whose result index is not that of an operand marked as
  -- an output ends in a panic.
  pub sse2_intrinsic_error :
      (loc : Option Location) (m : ℕ) (x : Intrinsic) (args : List ℕ) (f : Function)
      → no_result x.var_ops x.result_idx_op ≡ true
      → no_code (sse2_intrinsic consts loc m x args f) ≡ true
  unfolding sse2_intrinsic
  sse2_intrinsic_error loc m x args f l =
      let out = no_result-NoneOut x.var_ops x.result_idx_op l in
      rest-no_code (load_args consts loc args) _ f (λ a g.
        after-steps (operand_steps consts a.1 x.result_idx_op 0 x.var_ops start g) _
          (steps-left a.1 x.result_idx_op 0 x.var_ops start g out refl)
          (λ q k e.
            first-no_code (store_result consts loc m q.result) _ k
              (none-no_code loc m q.result k e)))
