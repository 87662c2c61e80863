-- ===== src/Alloc/Total.antt =====
-- `allocReg` of codegen/codegen.go, whole: what it returns and the state behind it.
use gensimd.Common.{
  ℕ, ◌≡◌, refl, sym, ◌∙◌, ap, ◌⊎◌, inl, inr, Bool, true, false, List, [], Option, none, some,
  Result, ok, arith, get_elem?, set, set-set, Option-cases,
}
use mathlib.Core.Path.{subst}
use gensimd.Reg.{Register, RegType}
use gensimd.Function.{Function, Location, Alias, aliases_of}
use gensimd.State.{Asm}
use gensimd.Storage.{find_dst, is_dead, spill, spill_register}
use gensimd.Storage.Aliases.{get_elem?-set, released}
use gensimd.Storage.Invariant.{Inv, parent_of, is_constant}
use gensimd.Storage.Spill.{Writes}
use gensimd.Storage.Release.{Spilled, spill_register_lem}
use gensimd.Alloc.{
  eligible, usable, last_usable, best_victim, taken, take_reg, take_victim, alloc_reg,
}
use gensimd.Alloc.Scan.{
  NoneIs, last_usable_lem, best_victim_lem, LastIs-get, FirstIs-get, NoneIs-get,
}

abbrev pub put : Function → ℕ → Register → Function
put f i r = record f { registers = set f.registers i r }

-- A change to a register that keeps its parent, and does not make it dirty, keeps the invariant.
pub put-Inv :
    (f : Function) (i : ℕ) (r r' : Register)
    → Inv f
    → get_elem? f.registers i ≡ some r
    → r'.parent ≡ r.parent
    → (r'.dirty ≡ false) ⊎ (r'.dirty ≡ r.dirty)
    → Inv (put f i r')
put-Inv f i r r' v held p d = record {
  owned = λ j m h. same j ∙ v.owned j m h;
  listed = λ j m h. v.listed j m (sym (same j) ∙ h);
  clear = v.clear;
  good = v.good;
  clean = λ j m s h q c.
      ground (arith, get_elem?-set f.registers i j r' r held, v.clean j m s, v.clean i m r);
}
  where
    same : (j : ℕ) → parent_of (put f i r') j ≡ parent_of f j
    same j = ground (arith, get_elem?-set f.registers i j r' r held)

usable-eligible :
    (t : RegType) (size : ℕ) (r : Register)
    → usable t size r ≡ true
    → (eligible t size r ≡ true) × (r.parent ≡ none)
unfolding usable eligible
usable-eligible t size r h = (ground arith, ground arith)

-- Taking a register that has no parent.
take_reg_lem :
    (f : Function) (i : ℕ) (r : Register)
    → get_elem? f.registers i ≡ some r
    → take_reg i f ≡ ok (tt, put f i (taken r))
take_reg_lem f i r h = ground arith

take-Inv :
    (f : Function) (i : ℕ) (r : Register)
    → Inv f
    → get_elem? f.registers i ≡ some r
    → r.parent ≡ none
    → Inv (put f i (taken r))
take-Inv f i r v h p = put-Inv f i r (taken r) v h (sym p) (inl refl)

-- `res` is a normal return of a register that fits and was not in use. It is now in use, clean and
-- without parent, no other register is changed, and the invariant holds. A register is spilled only
-- if none of the kind was unused, and then a live dirty value of memory has been written back.
pub record Allocated (f : Function) (loc : Option Location) (t : RegType) (size : ℕ)
    (res : Result ((Asm × ℕ) × Function)) : Type 0 where
  pub asm : Asm
  pub slot : ℕ
  pub after : Function
  pub returns : res ≡ ok ((asm, slot), after)
  pub before : Register
  pub was : get_elem? f.registers slot ≡ some before
  pub fits : eligible t size before ≡ true
  pub registers : after.registers ≡ set f.registers slot (taken before)
  pub identifiers : after.identifiers ≡ f.identifiers
  pub inv : Inv after
  pub spills : (asm ≡ []) ⊎ NoneIs (usable t size) f.registers
  pub writes :
      (m : ℕ)
      → before.parent ≡ some m
      → is_constant (f.storage m) ≡ false
      → is_dead m loc f ≡ ok false
      → before.dirty ≡ true
      → (a : Alias) × (find_dst slot (aliases_of (f.storage m)) ≡ some a)
        × Writes f m before (Alias.region a) asm

module _ (f : Function) (loc : Option Location) (t : RegType) (size : ℕ) (v : Inv f)
    (lives : (m : ℕ) → (dead : Bool) × (is_dead m loc f ≡ ok dead)) where
  from_unused :
      (i : ℕ) (r : Register)
      → last_usable t size 0 none f.registers ≡ some i
      → get_elem? f.registers i ≡ some r
      → usable t size r ≡ true
      → Allocated f loc t size (alloc_reg loc t size f)
  unfolding alloc_reg
  from_unused i r found held u =
      let e = usable-eligible t size r u in
      let again : get_elem? (set f.registers i (taken r)) i ≡ some (taken r) =
        ground (arith, get_elem?-set f.registers i i (taken r) r held) in
      record {
        asm = [];
        slot = i;
        after = put f i (taken r);
        returns = ground (arith, again, set-set f.registers i (taken r) (taken r));
        before = r;
        was = held;
        fits = e.0;
        registers = refl;
        identifiers = refl;
        inv = take-Inv f i r v held e.1;
        spills = inl refl;
        writes = λ m p. absurd (cc e.1);
      }

  eligible_free : (r : Register) → eligible t size r ≡ true → r.in_use ≡ false
  unfolding eligible
  eligible_free r h = ground arith

  parent_of_victim :
      (r : Register)
      → eligible t size r ≡ true
      → usable t size r ≡ false
      → (m : ℕ) × (r.parent ≡ some m)
  unfolding eligible usable
  parent_of_victim r e u = elim (Option-cases r.parent) [
    | inl h ↦ absurd (ground arith)
    | inr h ↦ h
  ]

  spill_parent :
      (i m : ℕ) (r : Register)
      → get_elem? f.registers i ≡ some r
      → r.parent ≡ some m
      → spill loc i f ≡ spill_register loc m i false f
  unfolding spill
  spill_parent i m r held p = ground arith

  -- The victim's spill, and the state behind it.
  module _ (i m : ℕ) (r : Register) (held : get_elem? f.registers i ≡ some r)
      (p : r.parent ≡ some m) where
    abbrev spilled : Spilled f m i r false (lives m).0 (spill_register loc m i false f)
    spilled = spill_register_lem f m i r v held p loc false (lives m).0 (λ _. refl) (lives m).1

    free_again : get_elem? spilled.after.registers i ≡ some (released r)
    free_again =
        ground (arith, spilled.registers, get_elem?-set f.registers i i (released r) r held)

    spilled_and_taken :
        put spilled.after i (taken (released r))
        ≡ record spilled.after { registers = set f.registers i (taken r) }
    spilled_and_taken =
        ap (λ (rs : List Register). record spilled.after { registers = rs })
          (ap (λ (rs : List Register). set rs i (taken r)) spilled.registers
            ∙ set-set f.registers i (released r) (taken r))

    abbrev Wrote : ℕ → Type 0
    Wrote n =
        is_constant (f.storage n) ≡ false
        → is_dead n loc f ≡ ok false
        → r.dirty ≡ true
        → (a : Alias) × (find_dst i (aliases_of (f.storage n)) ≡ some a)
          × Writes f n r (Alias.region a) spilled.asm

    wrote : Wrote m
    wrote c d dirty = spilled.writes c (cc (sym (lives m).1 ∙ d)) (ground arith)

    take_victim_lem :
        best_victim t size 0 none f.registers ≡ some (i, r)
        → eligible t size r ≡ true
        → take_victim loc t size f ≡ ok ((spilled.asm, i), put spilled.after i (taken (released r)))
    unfolding take_victim
    take_victim_lem best e = ground (
      arith,
      eligible_free r e,
      spill_parent i m r held p,
      spilled.returns,
      take_reg_lem spilled.after i (released r) free_again,
    )

    from_victim :
        last_usable t size 0 none f.registers ≡ none
        → NoneIs (usable t size) f.registers
        → best_victim t size 0 none f.registers ≡ some (i, r)
        → eligible t size r ≡ true
        → Allocated f loc t size (alloc_reg loc t size f)
    unfolding alloc_reg
    from_victim no_unused none_is best e = record {
      asm = spilled.asm;
      slot = i;
      after = put spilled.after i (taken (released r));
      returns = ground (arith, take_victim_lem best e);
      before = r;
      was = held;
      fits = e;
      registers = ap (λ (g : Function). g.registers) spilled_and_taken;
      identifiers = spilled.identifiers;
      inv = take-Inv spilled.after i (released r) spilled.inv free_again refl;
      spills = inr none_is;
      writes = λ n q. subst Wrote (cc (sym p ∙ q)) wrote;
    }

  -- `allocReg` returns a register, from any state that meets the invariant, where the liveness tests
  -- return and some register of the kind is not in use.
  pub alloc_reg_lem :
      (k : ℕ) (w : Register)
      → get_elem? f.registers k ≡ some w
      → eligible t size w ≡ true
      → Allocated f loc t size (alloc_reg loc t size f)
  alloc_reg_lem k w there ok_w = elim (last_usable_lem t size 0 none f.registers) [
    | inr h ↦
        let g = LastIs-get (usable t size) f.registers h.0 h.1 h.3 in
        from_unused h.0 h.1 (h.2 ∙ ap some (omega arith)) g.0 g.1
    | inl h ↦ elim (best_victim_lem t size 0 f.registers h.1) [
      | inl b ↦ absurd (cc (NoneIs-get (eligible t size) f.registers k w b.1 there))
      | inr b ↦
          let g = FirstIs-get (eligible t size) f.registers b.0 b.1 b.3 in
          let m =
            parent_of_victim b.1 g.1 (NoneIs-get (usable t size) f.registers b.0 b.1 h.1 g.0) in
          from_victim b.0 m.0 b.1 g.0 m.1 h.0 h.1
            (b.2 ∙ ap (λ (l : ℕ). some (l, b.1)) (omega arith)) g.1
    ]
  ]
