-- ===== src/Flow/Jumps.antt =====
-- Jumps: what the allocator knows behind them.
use gensimd.Common.{
  ℕ, ◌≡◌, refl, ap, ◌∙◌, inr, true, false, List, [], ◌∷◌, ◌++◌, Option, some, String, Option-cases,
  inl, Result, ok, arith, length, length-set, get_elem?,
}
use gensimd.Region.{Region}
use gensimd.Reg.{Register}
use gensimd.Phi.{PhiInfo}
use gensimd.Function.{Function, Identifier, Location, Alias, memory, ident_size}
use gensimd.State.{bind_ok, Asm, Line, reg_imm, block, jump, slot}
use gensimd.Storage.Invariant.{Inv}
use gensimd.Storage.Aliases.{get_elem?-set}
use gensimd.Alloc.{skip_excluded, free_reg}
use gensimd.Alloc.Total.{put, put-Inv}
use gensimd.Alloc.Flush.{
  Same, Lives, Lives-Same, Flushed, FreedBelow, spill_registers_lem, shape_at,
}
use gensimd.Load.Constant.{Const}
use gensimd.Emit.Compare.{cmp_reg_imm32}
use gensimd.Emit.Write.{instr_reg_imm32, flags_of}
use gensimd.Instr.Select.{get_instr}
use gensimd.Load.Hit.{load_hit_lem}
use gensimd.Load.{load}
use gensimd.Translate.{load_whole, load_part, size_of}
use gensimd.Flow.{jump_preamble, copy_phis, jump_instr, if_instr, branch, two_successors}

-- `res` is a normal return of code that ends in the line `last`, to a state that meets the invariant
-- and in which only excluded registers cache anything.
pub record Left (last : Line) (f : Function) (res : Result (Asm × Function)) : Type 0 where
  pub asm : Asm
  pub after : Function
  pub returns : res ≡ ok (asm ++ last ∷ [], after)
  pub inv : Inv after
  pub freed : FreedBelow skip_excluded (length after.registers) after

with_shape :
    (g : Function) (i : ℕ) (name : String) (w : ℕ)
    → shape_at g i ≡ some (name, w)
    → (r : Register) × (get_elem? g.registers i ≡ some r) × (r.name ≡ name) × (r.width ≡ w)
with_shape g i name w h = elim (Option-cases (get_elem? g.registers i)) [
  | inl n ↦ absurd (ground (arith, n))
  | inr (r, e) ↦ (r, e, ground (arith, e), ground (arith, e))
]

-- The test of a condition, which is a byte.
compare_lem :
    (loc : Option Location) (g : Function) (i : ℕ) (r : Register)
    → get_elem? g.registers i ≡ some r
    → r.width ≡ 64
    → cmp_reg_imm32 loc (slot i) 0 1 g ≡ ok (reg_imm "CMPB" r.name 0 ∷ [], g)
unfolding cmp_reg_imm32 instr_reg_imm32 get_instr flags_of
compare_lem loc g i r h w = ground (arith, h, w)

Same-put :
    (f : Function) (i : ℕ) (r r' : Register)
    → get_elem? f.registers i ≡ some r
    → r'.name ≡ r.name
    → r'.width ≡ r.width
    → Same f (put f i r')
Same-put f i r r' held n w = record {
  blocks = refl;
  identifiers = refl;
  optimize = refl;
  count = length-set f.registers i r';
  shapes = λ j. ground (arith, get_elem?-set f.registers i j r' r held, held, n, w);
}

size_lem : (g : Function) (m n : ℕ) → ident_size (g.identifiers m) ≡ ok n → size_of m g ≡ ok (n, g)
unfolding size_of
size_lem g m n h = ground (arith, h)

free_lem :
    (g : Function) (i : ℕ) (r : Register)
    → get_elem? g.registers i ≡ some r
    → free_reg i g ≡ ok (tt, put g i (record r { in_use = false }))
unfolding free_reg
free_lem g i r h = ground (arith, h)

-- `res` is a normal return of code that compares the register of the given name with zero right
-- before the conditional jump, and that ends in the other one, to a state that meets the invariant
-- and in which only excluded registers cache anything.
pub record Branched (name : String) (if_true if_false : ℕ) (f : Function)
    (res : Result (Asm × Function)) : Type 0 where
  pub before : Asm
  pub between : Asm
  pub after : Function
  pub returns :
      res
      ≡ ok (
        before
            ++ reg_imm "CMPB" name 0 ∷ []
            ++ jump "JEQ" (block if_false) ∷ []
            ++ between
            ++ jump "JMP" (block if_true) ∷ [],
        after,
      )
  pub inv : Inv after
  pub freed : FreedBelow skip_excluded (length after.registers) after

module _ (consts : ℕ → Const) (info : PhiInfo) (loc : Option Location) where
  preamble_lem :
      (f : Function) (from to : ℕ)
      → Inv f
      → Lives loc f
      → info from to ≡ []
      → Flushed skip_excluded f (length f.registers) (jump_preamble consts info loc from to f)
  unfolding jump_preamble copy_phis
  preamble_lem f from to v l e =
      let s = spill_registers_lem f loc v l in
      record {
        asm = s.asm;
        after = s.after;
        returns = ground (arith, e, s.returns);
        inv = s.inv;
        same = s.same;
        freed = s.freed;
      }

  -- From a state that meets the invariant, where the liveness tests return, `Jump` along an edge
  -- without phi copies returns code that ends in a jump to the successor; no register but the excluded
  -- ones caches anything then, and the invariant holds.
  pub jump_instr_lem :
      (f : Function) (here to : ℕ)
      → Inv f
      → Lives loc f
      → info here to ≡ []
      → Left
          (jump "JMP" (block to))
          f
          (jump_instr consts info loc (some record { index = here; succs = to ∷ [] }) f)
  unfolding jump_instr
  jump_instr_lem f here to v l e =
      let p = preamble_lem f here to v l e in
      record {
        asm = p.asm;
        after = p.after;
        returns = ground (arith, p.returns);
        inv = p.inv;
        freed = λ j r h. p.freed j r (omega (arith, p.same.count));
      }

  loaded :
      (f : Function) (m : ℕ) (aliases : List Alias) (regions : List Region) (i : ℕ) (g : Function)
      → ident_size (f.identifiers m) ≡ ok 1
      → f.storage m ≡ memory aliases regions
      → load loc m record { offset = 0; size = 1 } f ≡ ok (([], i), g)
      → load_whole consts loc m f ≡ ok (([], i), g)
  unfolding load_whole load_part size_of
  loaded f m aliases regions i g size mem hit = ground (arith, size, mem, hit)

  branch_steps :
      (f f1 g f2 h : Function) (here cond if_true if_false i : ℕ) (name : String) (a c : Asm)
      → load_whole consts loc cond f ≡ ok (([], i), f1)
      → jump_preamble consts info loc here if_false f1 ≡ ok (a, g)
      → size_of cond g ≡ ok (1, g)
      → cmp_reg_imm32 loc (slot i) 0 1 g ≡ ok (reg_imm "CMPB" name 0 ∷ [], g)
      → free_reg i g ≡ ok (tt, f2)
      → jump_preamble consts info loc here if_true f2 ≡ ok (c, h)
      → branch consts info loc here cond if_true if_false f
        ≡ ok (
          a
              ++ reg_imm "CMPB" name 0 ∷ []
              ++ jump "JEQ" (block if_false) ∷ []
              ++ c
              ++ jump "JMP" (block if_true) ∷ [],
          h,
        )
  unfolding branch
  branch_steps f f1 g f2 h here cond if_true if_false i name a c p q r s t u =
      bind_ok (load_whole consts loc cond) _ f f1 ([], i) p
      ∙ bind_ok (jump_preamble consts info loc here if_false) _ f1 g a q
      ∙ bind_ok (size_of cond) _ g g 1 r
      ∙ bind_ok (cmp_reg_imm32 loc (slot i) 0 1) _ g g (reg_imm "CMPB" name 0 ∷ []) s
      ∙ bind_ok (free_reg i) _ g f2 tt t
      ∙ bind_ok (jump_preamble consts info loc here if_true) _ f2 h c u

  branch_lem :
      (f : Function) (here cond if_true if_false j : ℕ) (aliases : List Alias)
      (regions : List Region) (i : ℕ) (r : Register)
      → Inv f
      → Lives loc f
      → info here if_false ≡ []
      → info here if_true ≡ []
      → ident_size (f.identifiers cond) ≡ ok 1
      → f.storage cond ≡ memory aliases regions
      → get_elem? aliases j ≡ some record { dst = i; region = record { offset = 0; size = 1 } }
      → get_elem? f.registers i ≡ some r
      → r.width ≡ 64
      → Branched r.name if_true if_false f (branch consts info loc here cond if_true if_false f)
  branch_lem f here cond if_true if_false j aliases regions i r v l no_false no_true size mem e held
        w =
      let hit =
        load_hit_lem f loc cond aliases regions j
          record { dst = i; region = record { offset = 0; size = 1 } } r v mem e (omega arith)
          held in
      let f1 : Function = put f i (record r { in_use = true }) in
      let same1 = Same-put f i r (record r { in_use = true }) held refl refl in
      let p = preamble_lem f1 here if_false hit.1 (Lives-Same f f1 loc same1 l) no_false in
      let there =
        with_shape p.after i r.name 64
          (p.same.shapes i ∙ same1.shapes i ∙ ground (arith, held, w)) in
      let s : Register = there.0 in
      let f2 : Function = put p.after i (record s { in_use = false }) in
      let whole = loaded f cond aliases regions i f1 size mem hit.0 in
      let again : size_of cond p.after ≡ ok (1, p.after) =
        size_lem p.after cond 1
          (ap (λ (ids : ℕ → Identifier). ident_size (ids cond)) p.same.identifiers ∙ size) in
      let compared = compare_lem loc p.after i s there.1 there.3 in
      let freed_reg : free_reg i p.after ≡ ok (tt, f2) = free_lem p.after i s there.1 in
      let same2 = Same-put p.after i s (record s { in_use = false }) there.1 refl refl in
      let q =
        preamble_lem f2 here if_true
          (put-Inv p.after i s (record s { in_use = false }) p.inv there.1 refl (inr refl))
          (Lives-Same p.after f2 loc same2
            (Lives-Same f1 p.after loc p.same (Lives-Same f f1 loc same1 l)))
          no_true in
      record {
        before = p.asm;
        between = q.asm;
        after = q.after;
        returns =
            branch_steps f f1 p.after f2 q.after here cond if_true if_false i r.name p.asm q.asm
              whole p.returns again
              (compared ∙ ap (λ (n : String). ok (reg_imm "CMPB" n 0 ∷ [], p.after)) there.2)
              freed_reg q.returns;
        inv = q.inv;
        freed = λ k t h. q.freed k t (omega (arith, q.same.count));
      }

  -- From a state that meets the invariant, where the liveness tests return, `If` on a condition of one
  -- byte that a general register caches, with no phi copies on either edge: it returns code that
  -- compares this register with zero, jumps to the false successor where they are equal, and ends in a
  -- jump to the true one; no register but the excluded ones caches anything then, and the invariant
  -- holds.
  pub if_instr_lem :
      (f : Function) (here cond if_true if_false j : ℕ) (aliases : List Alias)
      (regions : List Region) (i : ℕ) (r : Register)
      → Inv f
      → Lives loc f
      → info here if_false ≡ []
      → info here if_true ≡ []
      → ident_size (f.identifiers cond) ≡ ok 1
      → f.storage cond ≡ memory aliases regions
      → get_elem? aliases j ≡ some record { dst = i; region = record { offset = 0; size = 1 } }
      → get_elem? f.registers i ≡ some r
      → r.width ≡ 64
      → Branched r.name if_true if_false f (
          if_instr consts info loc
            (some record { index = here; succs = if_true ∷ if_false ∷ [] })
            cond
            f)
  unfolding if_instr two_successors
  if_instr_lem f here cond if_true if_false j aliases regions i r v l n t size mem e held w =
      branch_lem f here cond if_true if_false j aliases regions i r v l n t size mem e held w
