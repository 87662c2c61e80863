-- ===== src/Storage/Spill.antt =====
-- `spillRegister` of codegen/storage.go, from a state that meets the invariant.
use mathlib.Core.Path.{subst}
use gensimd.Common.{
  ℕ, ◌≡◌, refl, sym, ap, ◌≢◌, inl, inr, Bool, true, false, not, ◌||◌, List, [], ◌∷◌, Option, some,
  Result, ok, arith, get_elem?, Bool-cases,
}
use gensimd.Common.Int.{pos, ◌+ℤ◌}
use gensimd.Region.{Region}
use gensimd.Reg.{Register}
use gensimd.Function.{Function, Location, Alias, Storer, memory, aliases_of}
use gensimd.State.{Asm, reg_mem}
use gensimd.Storage.{find_dst, clash, is_dead, needs_write, write_region, write_back}
use gensimd.Region.Disjoint.{apart}
use gensimd.Storage.Initialized.{initialized_after, set_initialized_lem, is_initialized_lem}
use gensimd.Storage.Save.{save_lem, base_name, Fits}
use gensimd.Storage.Invariant.{AllGood, StorerGood, Inv}
use gensimd.Storage.Kept.{AllGood-find, AllGood-after, with_storer, with_storer-Inv}

-- A state that differs from `f` only in the initialized regions of storer `m`.
pub record SavedFrom (f : Function) (m : ℕ) (g : Function) : Type 0 where
  pub inv : Inv g
  pub registers : g.registers ≡ f.registers
  pub identifiers : g.identifiers ≡ f.identifiers
  pub blocks : g.blocks ≡ f.blocks
  pub optimize : g.optimize ≡ f.optimize
  pub aliases : (n : ℕ) → aliases_of (g.storage n) ≡ aliases_of (f.storage n)
  pub others : (n : ℕ) → m ≢ n → g.storage n ≡ f.storage n

pub SavedFrom-self : (f : Function) (m : ℕ) → Inv f → SavedFrom f m f
SavedFrom-self f m v = record {
  inv = v;
  registers = refl;
  identifiers = refl;
  blocks = refl;
  optimize = refl;
  aliases = λ n. refl;
  others = λ n h. refl;
}

-- The move that writes region `rgn` of storer `m` back from register `r`.
abbrev pub Writes : Function → ℕ → Register → Region → Asm → Type 0
Writes f m r rgn asm =
    (fit : Fits (f.identifiers m) rgn) × (asm
      ≡ reg_mem fit.instr r.name (f.identifiers m).name ((f.identifiers m).offset +ℤ pos rgn.offset)
          (base_name (f.identifiers m))
        ∷ [])

module _ (f : Function) (m i : ℕ) (r : Register) (aliases : List Alias) (regions : List Region)
    (a : Alias) (v : Inv f) (held : get_elem? f.registers i ≡ some r) (own : r.parent ≡ some m)
    (mem : f.storage m ≡ memory aliases regions) (found : find_dst i aliases ≡ some a) where
  all_good : AllGood (f.identifiers m) regions aliases
  all_good = subst (StorerGood (f.identifiers m)) mem (v.good m)

  written : Function
  written = with_storer f m (memory aliases (initialized_after regions (Alias.region a)))

  written-SavedFrom : SavedFrom f m written
  unfolding written
  written-SavedFrom = record {
    inv =
        with_storer-Inv f m (memory aliases (initialized_after regions (Alias.region a))) v
          (sym (ap aliases_of mem)) (ground arith)
          (AllGood-after (f.identifiers m) regions i a aliases
            (subst (λ (s : Storer). apart clash (aliases_of s) ≡ true) mem (v.clear m)) found
            all_good);
    registers = refl;
    identifiers = refl;
    blocks = refl;
    optimize = refl;
    aliases = λ n. ground arith;
    others = λ n h. ground arith;
  }

  write_region_lem :
      (asm : Asm) × (write_region true m i regions (Alias.region a) f ≡ ok (asm, written))
      × Writes f m r (Alias.region a) asm
  unfolding write_region written
  write_region_lem =
      let good = AllGood-find (f.identifiers m) regions i a aliases all_good found in
      (
        _,
        ground (
          arith,
          save_lem i m (Alias.region a) f r held own good.0,
          set_initialized_lem regions (Alias.region a) good.0.positive good.1,
        ),
        (good.0, refl),
      )

  -- What `write_back` returns from memory: a live register that is dirty, or whose spill is
  -- forced, is written; a dead one is not.
  pub record WrittenBack (force dead : Bool) (res : Result (Asm × Function)) : Type 0 where
    pub asm : Asm
    pub after : Function
    pub returns : res ≡ ok (asm, after)
    pub saved_from : SavedFrom f m after
    pub writes : dead ≡ false → (r.dirty || force) ≡ true → Writes f m r (Alias.region a) asm
    pub skips : dead ≡ true → asm ≡ []

  needs_write_lem :
      (force : Bool)
      → (b : Bool) × (needs_write r force regions (Alias.region a) ≡ ok b)
        × ((r.dirty || force) ≡ true → b ≡ true)
  unfolding needs_write
  needs_write_lem force =
      let good = AllGood-find (f.identifiers m) regions i a aliases all_good found in
      let known = is_initialized_lem regions (Alias.region a) good.0.positive good.1 in
      elim (Bool-cases (r.dirty || force)) [
        | inl e ↦ (true, ground arith, λ h. refl)
        | inr e ↦ (not known.0, ground (arith, known.1), λ h. cc (rw e at h))
      ]

  write_back_live :
      (loc : Option Location) (force needed : Bool)
      → is_dead m loc f ≡ ok false
      → needs_write r force regions (Alias.region a) ≡ ok needed
      → ((r.dirty || force) ≡ true → needed ≡ true)
      → WrittenBack force false
          (write_back loc m i (memory aliases regions) (Alias.region a) force f)
  unfolding write_back
  write_back_live loc force true d n must =
      let w = write_region_lem in
      record {
        asm = w.0;
        after = written;
        returns = ground (arith, w.1);
        saved_from = written-SavedFrom;
        writes = λ _ _. w.2;
        skips = λ e. absurd (cc);
      }
  write_back_live loc force false d n must = record {
    asm = [];
    after = f;
    returns = ground arith;
    saved_from = SavedFrom-self f m v;
    writes = λ _ h. absurd (cc (must h));
    skips = λ _. refl;
  }

  pub write_back_lem :
      (loc : Option Location) (force dead : Bool)
      → is_dead m loc f ≡ ok dead
      → WrittenBack force dead
          (write_back loc m i (memory aliases regions) (Alias.region a) force f)
  unfolding write_back write_region
  write_back_lem loc force true d = record {
    asm = [];
    after = f;
    returns = ground arith;
    saved_from = SavedFrom-self f m v;
    writes = λ e. absurd (cc);
    skips = λ _. refl;
  }
  write_back_lem loc force false d =
      let n = needs_write_lem force in write_back_live loc force n.0 d n.1 n.2
