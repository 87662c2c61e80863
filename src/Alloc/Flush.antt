-- ===== src/Alloc/Flush.antt =====
-- `spillRegisters` and `spillNonBlockRegisters` of codegen/codegen.go: the registers behind the loop.
use mathlib.Core.Path.{subst}
use gensimd.Common.{
  ℕ, zero, suc, ◌+◌, ◌<◌, ◌≡◌, refl, sym, ap, ◌∙◌, ◌⊎◌, inl, inr, Bool, false, ◌||◌, List, [], ◌∷◌,
  ◌++◌, Option, none, some, String, Result, ok, arith, if◌then◌else◌, ◌==◌, length, length-set,
  get_elem?, Bool-cases, Option-cases,
}
use gensimd.Reg.{Register, exclude_reg}
use gensimd.Function.{Function, Location}
use gensimd.Liveness.{alive}
use gensimd.State.{Asm}
use gensimd.Storage.{is_dead, spill, spill_register}
use gensimd.Storage.Aliases.{get_elem?-set, released}
use gensimd.Storage.Invariant.{Inv}
use gensimd.Storage.Release.{Spilled, spill_register_lem}
use gensimd.Alloc.{
  Skip, spill_from, spill_registers, spill_non_block_registers, skip_excluded, skip_block_local,
  parent_block_local,
}

abbrev shape_of : Option Register → Option (String × ℕ)
shape_of none = none
shape_of (some r) = some (r.name, r.width)

abbrev pub shape_at : Function → ℕ → Option (String × ℕ)
shape_at f i = shape_of (get_elem? f.registers i)

-- What code generation does not change while it spills.
pub record Same (f g : Function) : Type 0 where
  pub blocks : g.blocks ≡ f.blocks
  pub identifiers : g.identifiers ≡ f.identifiers
  pub optimize : g.optimize ≡ f.optimize
  pub count : length g.registers ≡ length f.registers
  pub shapes : (i : ℕ) → shape_at g i ≡ shape_at f i

pub Same-self : (f : Function) → Same f f
Same-self f = record {
  blocks = refl;
  identifiers = refl;
  optimize = refl;
  count = refl;
  shapes = λ i. refl;
}

-- Each liveness test at the location returns.
abbrev pub Lives : Option Location → Function → Type 0
Lives loc f = (m : ℕ) → (dead : Bool) × (is_dead m loc f ≡ ok dead)

-- The registers below slot `n` that are not passed over cache nothing.
abbrev pub FreedBelow : Skip → ℕ → Function → Type 0
FreedBelow skip n f =
    (j : ℕ) (r : Register)
    → j < n
    → get_elem? f.registers j ≡ some r
    → skip f r ≡ false
    → r.parent ≡ none

-- `res` is a normal return to a state that meets the invariant and in which every register below
-- slot `n` that is not passed over caches nothing.
pub record Flushed (skip : Skip) (f : Function) (n : ℕ) (res : Result (Asm × Function))
    : Type 0 where
  pub asm : Asm
  pub after : Function
  pub returns : res ≡ ok (asm, after)
  pub inv : Inv after
  pub same : Same f after
  pub freed : FreedBelow skip n after

is_dead-Same :
    (f g : Function) (loc : Option Location)
    → Same f g
    → (m : ℕ) → is_dead m loc g ≡ is_dead m loc f
unfolding is_dead alive
is_dead-Same f g loc s m = rw (s.blocks, s.identifiers, s.optimize)

pub Lives-Same : (f g : Function) (loc : Option Location) → Same f g → Lives loc f → Lives loc g
Lives-Same f g loc s l m = ((l m).0, is_dead-Same f g loc s m ∙ (l m).1)

split_last : (j i : ℕ) → j < i + 1 → (j < i) ⊎ (j ≡ i)
split_last j i h = omega arith

present : (rs : List Register) (i : ℕ) → i < length rs → (r : Register) × (get_elem? rs i ≡ some r)
present [] i h = absurd (omega arith)
present (r ∷ rs) zero h = (r, refl)
present (r ∷ rs) (suc i) h = present rs i (omega arith)

module _ (skip : Skip) (loc : Option Location)
    (stable : (f g : Function) → Same f g → (r : Register) → skip g r ≡ skip f r) where
  abbrev step : ℕ → Register → Function → Result (Asm × Function)
  step i r f = if skip f r then ok ([], f) else spill loc i f

  -- A step that leaves the state as it is.
  idle :
      (f : Function) (i : ℕ) (r : Register)
      → Inv f
      → get_elem? f.registers i ≡ some r
      → FreedBelow skip i f
      → (skip f r ≡ false → r.parent ≡ none)
      → step i r f ≡ ok ([], f)
      → Flushed skip f (i + 1) (step i r f)
  idle f i r v held below here e = record {
    asm = [];
    after = f;
    returns = e;
    inv = v;
    same = Same-self f;
    freed = λ j s h k n. elim (split_last j i h) [
      | inl l ↦ below j s l k n
      | inr q ↦
          let e : s ≡ r = cc (q, k, held) in
          subst (λ (t : Register). t.parent ≡ none) (sym e) (here (ap (skip f) (sym e) ∙ n))
    ];
  }

  Same-Spilled :
      (f : Function) (m i : ℕ) (r : Register) (force dead : Bool) (res : Result (Asm × Function))
      → get_elem? f.registers i ≡ some r
      → (p : Spilled f m i r force dead res) → Same f p.after
  Same-Spilled f m i r force dead res held p = record {
    blocks = p.blocks;
    identifiers = p.identifiers;
    optimize = p.optimize;
    count =
        ap (λ (rs : List Register). length rs) p.registers ∙ length-set f.registers i (released r);
    shapes = λ j. ground (arith, p.registers, get_elem?-set f.registers i j (released r) r held);
  }

  -- A step that spills.
  spilling :
      (f : Function) (i m : ℕ) (r : Register)
      → Inv f
      → Lives loc f
      → get_elem? f.registers i ≡ some r
      → r.parent ≡ some m
      → skip f r ≡ false
      → FreedBelow skip i f
      → Flushed skip f (i + 1) (step i r f)
  unfolding spill
  spilling f i m r v l held own free below =
      let p = spill_register_lem f m i r v held own loc false (l m).0 (λ _. refl) (l m).1 in
      let same = Same-Spilled f m i r false (l m).0 (spill_register loc m i false f) held p in
      record {
        asm = p.asm;
        after = p.after;
        inv = p.inv;
        same = same;
        returns = ground (arith, p.returns);
        freed = λ j s h k n.
            let at : (if i == j then some (released r) else get_elem? f.registers j) ≡ some s =
              sym (get_elem?-set f.registers i j (released r) r held)
              ∙ ap (λ (rs : List Register). get_elem? rs j) (sym p.registers)
              ∙ k in
            elim (split_last j i h) [
              | inl o ↦ below j s o (ground arith) (sym (stable f p.after same s) ∙ n)
              | inr q ↦
                  let e : released r ≡ s = ground arith in ap (λ (t : Register). t.parent) (sym e)
            ];
      }

  step_lem :
      (f : Function) (i : ℕ) (r : Register)
      → Inv f
      → Lives loc f
      → get_elem? f.registers i ≡ some r
      → FreedBelow skip i f
      → Flushed skip f (i + 1) (step i r f)
  unfolding spill
  step_lem f i r v l held below = elim (Bool-cases (skip f r)) [
    | inl s ↦ idle f i r v held below (λ n. absurd (cc (s, n))) (rw s)
    | inr n ↦ elim (Option-cases r.parent) [
      | inl p ↦ idle f i r v held below (λ _. p) (ground arith)
      | inr p ↦ spilling f i p.0 r v l held p.1 n below
    ]
  ]

  Same-trans : (f g h : Function) → Same f g → Same g h → Same f h
  Same-trans f g h s t = record {
    blocks = t.blocks ∙ s.blocks;
    identifiers = t.identifiers ∙ s.identifiers;
    optimize = t.optimize ∙ s.optimize;
    count = t.count ∙ s.count;
    shapes = λ i. t.shapes i ∙ s.shapes i;
  }

  loop :
      (n i : ℕ) (f : Function)
      → Inv f
      → Lives loc f
      → i + n ≡ length f.registers
      → FreedBelow skip i f
      → Flushed skip f (length f.registers) (spill_from skip loc i n f)
  unfolding spill_from
  loop zero i f v l e below = record {
    asm = [];
    after = f;
    returns = refl;
    inv = v;
    same = Same-self f;
    freed = λ j s h. below j s (omega arith);
  }
  loop (suc n) i f v l e below =
      let here = present f.registers i (omega arith) in
      let one = step_lem f i here.0 v l here.1 below in
      let rest =
        loop n (i + 1) one.after one.inv (Lives-Same f one.after loc one.same l)
          (omega (arith, one.same.count)) one.freed in
      record {
        asm = one.asm ++ rest.asm;
        after = rest.after;
        inv = rest.inv;
        same = Same-trans f one.after rest.after one.same rest.same;
        returns = ground (arith, here.1, one.returns, rest.returns);
        freed = λ j s h. rest.freed j s (omega (arith, one.same.count));
      }

-- From a state that meets the invariant, where the liveness tests return, `spillRegisters` returns
-- to a state that meets it and in which no register caches anything, but for the excluded ones.
pub spill_registers_lem :
    (f : Function) (loc : Option Location)
    → Inv f
    → Lives loc f
    → Flushed (λ g r. exclude_reg r) f (length f.registers) (spill_registers loc f)
unfolding spill_registers
spill_registers_lem f loc v l =
    loop skip_excluded loc (λ f g s r. refl) (length f.registers) 0 f v l (omega arith)
      (λ j r h. absurd (omega arith))

parent_block_local-Same :
    (f g : Function) → Same f g → (p : Option ℕ) → parent_block_local g p ≡ parent_block_local f p
parent_block_local-Same f g s none = refl
parent_block_local-Same f g s (some m) = rw (s.blocks, s.identifiers)

-- From such a state `spillNonBlockRegisters` returns to one that meets the invariant and in which
-- each register that caches something is excluded or caches an identifier that lives in one block.
pub spill_non_block_registers_lem :
    (f : Function) (loc : Option Location)
    → Inv f
    → Lives loc f
    → Flushed
        (λ g r. exclude_reg r || parent_block_local g r.parent)
        f
        (length f.registers)
        (spill_non_block_registers loc f)
unfolding spill_non_block_registers
spill_non_block_registers_lem f loc v l =
    loop skip_block_local loc stays (length f.registers) 0 f v l (omega arith)
      (λ j r h. absurd (omega arith))
  where
    stays :
        (f g : Function) → Same f g → (r : Register) → skip_block_local g r ≡ skip_block_local f r
    stays f g s r = ap (λ (b : Bool). exclude_reg r || b) (parent_block_local-Same f g s r.parent)
