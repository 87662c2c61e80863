-- ===== src/Blocks/Rejected.antt =====
-- Instructions for which no code is ever returned.
use gensimd.Common.{
  ℕ, ◌≡◌, ◌⊎◌, refl, inl, inr, Bool, true, false, not, ◌&&◌, ◌||◌, List, [], ◌∷◌, Option, none,
  some, String, Result, ok, fault, unsupported, arith, if◌then◌else◌, Option-cases,
}
use text.Mathlib.Text.{◌==◌ as str_eq}
use gensimd.Function.{Function, Location}
use gensimd.State.{Asm, M, ◌>>=◌, lift}
use gensimd.Load.Constant.{Const}
use gensimd.Phi.{PhiInfo}
use gensimd.Flow.{Site, two_successors, jump_instr, if_instr}
use gensimd.Copy.{copy_to_ret, copy_and_spill, return_instr}
use gensimd.Pointers.{alloc_instr, len_instr}
use gensimd.Sse2.Table.{Intrinsic}
use gensimd.Sse2.{get_sse2}
use gensimd.Intrinsics.{
  Builtin, is_simd_intrinsic, simd_intrinsic, call_builtin, call_sse2, call_function, call_target,
  call_instr,
}
use gensimd.Blocks.{
  SsaOp, alloc, binary, call, convert, debug_ref, index, phi, if_op, index_of, jump_op, return_op,
  store, unary, other, Step, CodeBlock, instr, instrs, basic_block, basic_blocks,
}

abbrev pub no_code {ℓ} : {A : Type ℓ} → Result A → Bool
no_code (ok a) = false
no_code (fault e) = true

pub first-no_code :
    {A B : Type 0} (m : M A) (k : A → M B) (f : Function)
    → no_code (m f) ≡ true
    → no_code ((m >>= k) f) ≡ true
first-no_code {A = A} m k f h = after (m f) h
  where
    after :
        (res : Result (A × Function))
        → no_code res ≡ true
        → no_code (elim res [ ok (a, g) ↦ k a g | fault e ↦ fault e ]) ≡ true
    after (ok (a, g)) n = cc
    after (fault e) n = refl

pub rest-no_code :
    {A B : Type 0} (m : M A) (k : A → M B) (f : Function)
    → ((a : A) (g : Function) → no_code (k a g) ≡ true)
    → no_code ((m >>= k) f) ≡ true
rest-no_code {A = A} m k f h = after (m f)
  where
    after :
        (res : Result (A × Function))
        → no_code (elim res [ ok (a, g) ↦ k a g | fault e ↦ fault e ]) ≡ true
    after (ok (a, g)) = h a g
    after (fault e) = refl

else-no_code :
    (b : Bool) (x y : M Asm) (f : Function)
    → b ≡ false
    → no_code (y f) ≡ true
    → no_code ((if b then x else y) f) ≡ true
else-no_code true x y f e h = cc
else-no_code false x y f e h = h

pub not-true : {b : Bool} → not b ≡ true → b ≡ false
not-true h = ground (arith, h)

both : (a b : Bool) → (a && b) ≡ true → (a ≡ true) × (b ≡ true)
both a b h = (ground (arith, h), ground (arith, h))

-- Neither len nor an intrinsic.
abbrev pub bad_builtin : Builtin → Bool
bad_builtin b = not (str_eq b.name "len" && str_eq b.object "builtin len")

abbrev is_none {ℓ} : {A : Type ℓ} → Option A → Bool
is_none none = true
is_none (some a) = false

unfoldable pub unknown_function : String → Bool
unfolding is_simd_intrinsic get_sse2
unknown_function name = not (is_simd_intrinsic name) && is_none (get_sse2 name)

unfoldable pub rejected_target : Option Builtin → Option String → Bool
unfolding unknown_function
rejected_target (some b) callee = bad_builtin b
rejected_target none (some name) = unknown_function name
rejected_target none none = true

abbrev one : List ℕ → Bool
one [] = false
one (a ∷ []) = true
one (a ∷ b ∷ rest) = false

abbrev several : List ℕ → Bool
several [] = false
several (a ∷ []) = false
several (a ∷ b ∷ rest) = true

-- What the source refuses by the form of an instruction.
unfoldable pub rejected : SsaOp → Bool
unfolding rejected_target two_successors
rejected (alloc heap) = heap
rejected (binary token x y) = false
rejected (call c) = rejected_target c.builtin c.callee
rejected (convert x) = false
rejected debug_ref = false
rejected index = true
rejected phi = false
rejected (if_op none cond) = true
rejected (if_op (some here) cond) = is_none (two_successors here.succs)
rejected (index_of x i) = false
rejected (jump_op none) = true
rejected (jump_op (some here)) = not (one here.succs)
rejected (return_op results) = several results
rejected (store addr val) = false
rejected (unary token x) = false
rejected (other u) = true

module _ (consts : ℕ → Const) (same_type : ℕ → ℕ → Bool) (later : Bool) (result : ℕ)
    (info : PhiInfo) where
  builtin-no_code :
      (loc : Option Location) (b : Builtin) (invoke : Bool) (m : ℕ) (args : List ℕ) (f : Function)
      → bad_builtin b ≡ true
      → no_code (call_builtin consts same_type later loc b invoke m args f) ≡ true
  unfolding call_builtin
  builtin-no_code loc b invoke m args f h =
      else-no_code (str_eq b.name "len" && str_eq b.object "builtin len")
        (len_instr consts loc invoke m args) (lift unsupported) f (not-true h) refl

  sse2-no_code :
      (loc : Option Location) (m : ℕ) (args : List ℕ) (found : Option Intrinsic) (f : Function)
      → is_none found ≡ true
      → no_code (call_sse2 consts same_type later loc m args found f) ≡ true
  unfolding call_sse2
  sse2-no_code loc m args none f h = refl
  sse2-no_code loc m args (some x) f h = cc

  function-no_code :
      (loc : Option Location) (name : String) (m : ℕ) (args : List ℕ) (f : Function)
      → unknown_function name ≡ true
      → no_code (call_function consts same_type later loc name m args f) ≡ true
  unfolding call_function unknown_function
  function-no_code loc name m args f h =
      let u = both (not (is_simd_intrinsic name)) (is_none (get_sse2 name)) h in
      else-no_code (is_simd_intrinsic name) (simd_intrinsic consts same_type later loc name m args)
        (call_sse2 consts same_type later loc m args (get_sse2 name)) f (not-true u.0)
        (sse2-no_code loc m args (get_sse2 name) f u.1)

  target-no_code :
      (loc : Option Location) (invoke : Bool) (m : ℕ) (args : List ℕ) (b : Option Builtin)
      (callee : Option String) (f : Function)
      → rejected_target b callee ≡ true
      → no_code (call_target consts same_type later loc invoke m args b callee f) ≡ true
  unfolding call_target rejected_target
  target-no_code loc invoke m args (some b) callee f h = builtin-no_code loc b invoke m args f h
  target-no_code loc invoke m args none (some name) f h = function-no_code loc name m args f h
  target-no_code loc invoke m args none none f h = refl

  return-no_code :
      (loc : Option Location) (results : List ℕ) (f : Function)
      → several results ≡ true
      → no_code (return_instr consts loc result results f) ≡ true
  unfolding return_instr copy_and_spill copy_to_ret
  return-no_code loc [] f h = ground arith
  return-no_code loc (a ∷ []) f h = ground arith
  return-no_code loc (a ∷ b ∷ rest) f h = refl

  jump-no_code :
      (loc : Option Location) (here : Site) (f : Function)
      → one here.succs ≡ false
      → no_code (jump_instr consts info loc (some here) f) ≡ true
  unfolding jump_instr
  jump-no_code loc here f h = split here.succs refl
    where
      split :
          (succs : List ℕ)
          → here.succs ≡ succs
          → no_code (jump_instr consts info loc (some here) f) ≡ true
      split [] e = ground (arith, e)
      split (a ∷ []) e = ground (arith, e)
      split (a ∷ b ∷ rest) e = ground (arith, e)

  if-no_code :
      (loc : Option Location) (here : Site) (cond : ℕ) (f : Function)
      → is_none (two_successors here.succs) ≡ true
      → no_code (if_instr consts info loc (some here) cond f) ≡ true
  unfolding if_instr
  if-no_code loc here cond f h = elim (Option-cases (two_successors here.succs)) [
    | inl e ↦ ground (arith, e)
    | inr (p, e) ↦ ground (arith, e)
  ]

  alloc-no_code : (m : ℕ) (f : Function) → no_code (alloc_instr true m f) ≡ true
  unfolding alloc_instr
  alloc-no_code m f = refl

  instr-no_code :
      (s : Step) (f : Function)
      → rejected s.op ≡ true
      → no_code (instr consts same_type later result info s f) ≡ true
  unfolding instr rejected call_instr jump_instr if_instr alloc_instr
  instr-no_code s f h = by_op s.op refl h
    where
      by_op :
          (op : SsaOp)
          → s.op ≡ op
          → rejected op ≡ true
          → no_code (instr consts same_type later result info s f) ≡ true
      by_op (alloc true) e n = rw (instr, e) refl
      by_op (alloc false) e n = cc
      by_op (binary token x y) e n = cc
      by_op (call c) e n =
          rw (instr, e) (target-no_code s.loc c.invoke s.value c.args c.builtin c.callee f n)
      by_op (convert x) e n = cc
      by_op debug_ref e n = cc
      by_op index e n = rw (instr, e) refl
      by_op phi e n = cc
      by_op (if_op none cond) e n = rw (instr, e) refl
      by_op (if_op (some here) cond) e n = rw (instr, e) (if-no_code s.loc here cond f n)
      by_op (index_of x i) e n = cc
      by_op (jump_op none) e n = rw (instr, e) refl
      by_op (jump_op (some here)) e n = rw (instr, e) (jump-no_code s.loc here f (not-true n))
      by_op (return_op results) e n = rw (instr, e) (return-no_code s.loc results f n)
      by_op (store addr val) e n = cc
      by_op (unary token x) e n = cc
      by_op (other u) e n = rw (instr, e) refl

unfoldable pub any_step : List Step → Bool
unfolding rejected
any_step [] = false
any_step (s ∷ ss) = rejected s.op || any_step ss

unfoldable pub any_block : List CodeBlock → Bool
unfolding any_step
any_block [] = false
any_block (b ∷ bs) = any_step b.steps || any_block bs

pub either : (a b : Bool) → (a || b) ≡ true → (a ≡ true) ⊎ (b ≡ true)
either true b h = inl refl
either false b h = inr h

module _ (consts : ℕ → Const) (same_type : ℕ → ℕ → Bool) (later : Bool) (result : ℕ)
    (info : PhiInfo) where
  instrs-no_code :
      (ss : List Step) (f : Function)
      → any_step ss ≡ true
      → no_code (instrs consts same_type later result info ss f) ≡ true
  unfolding instrs any_step
  instrs-no_code [] f h = cc
  instrs-no_code (s ∷ ss) f h = elim (either (rejected s.op) (any_step ss) h) [
    | inl here ↦
        first-no_code (instr consts same_type later result info s) _ f
          (instr-no_code consts same_type later result info s f here)
    | inr there ↦ rest-no_code (instr consts same_type later result info s) _ f (λ a g.
        first-no_code (instrs consts same_type later result info ss) _ g
          (instrs-no_code ss g there))
  ]

  block-no_code :
      (b : CodeBlock) (f : Function)
      → any_step b.steps ≡ true
      → no_code (basic_block consts same_type later result info b f) ≡ true
  unfolding basic_block
  block-no_code b f h =
      first-no_code (instrs consts same_type later result info b.steps) _ f
        (instrs-no_code b.steps f h)

  -- Blocks with a refused instruction, whatever comes before it, are not translated.
  pub blocks-no_code :
      (bs : List CodeBlock) (f : Function)
      → any_block bs ≡ true
      → no_code (basic_blocks consts same_type later result info bs f) ≡ true
  unfolding basic_blocks any_block
  blocks-no_code [] f h = cc
  blocks-no_code (b ∷ bs) f h = elim (either (any_step b.steps) (any_block bs) h) [
    | inl here ↦
        first-no_code (basic_block consts same_type later result info b) _ f
          (block-no_code b f here)
    | inr there ↦ rest-no_code (basic_block consts same_type later result info b) _ f (λ a g.
        first-no_code (basic_blocks consts same_type later result info bs) _ g
          (blocks-no_code bs g there))
  ]
