-- ===== src/Storage/Release.antt =====
-- `spillRegister` of codegen/storage.go, whole: what is written, and the state that is left.
use gensimd.Common.{
  ℕ, ◌≡◌, refl, sym, ap, ◌∙◌, ◌≢◌, Bool, true, false, ◌||◌, List, [], Option, some, Result, ok,
  arith, get_elem?, set,
}
use gensimd.Region.{Region}
use gensimd.Reg.{Register}
use gensimd.Function.{Function, Location, Alias, Storer, memory, constant, aliases_of}
use gensimd.State.{Asm}
use gensimd.Storage.{
  has_dst, find_dst, without, get_alias, is_dead, write_back, spill_register, remove_alias,
}
use gensimd.Storage.Aliases.{check_lem, remove_alias_lem, aliases_of-with, released, unlink}
use gensimd.Storage.Invariant.{Inv, unlink-Inv, is_constant}
use gensimd.Storage.Kept.{find_dst-some}
use gensimd.Storage.Spill.{SavedFrom, SavedFrom-self, Writes, write_back_lem}

-- `res` is a normal return that gives register `i`, with contents `r`, up for storer `m`: it has no
-- parent and is free, the alias is gone and nothing else moved, the invariant holds, and a live
-- value of memory that is newer in the register, or whose spill is forced, has been written back.
pub record Spilled (f : Function) (m i : ℕ) (r : Register) (force dead : Bool)
    (res : Result (Asm × Function)) : Type 0 where
  pub asm : Asm
  pub after : Function
  pub returns : res ≡ ok (asm, after)
  pub inv : Inv after
  pub registers : after.registers ≡ set f.registers i (released r)
  pub identifiers : after.identifiers ≡ f.identifiers
  pub blocks : after.blocks ≡ f.blocks
  pub optimize : after.optimize ≡ f.optimize
  pub dropped : aliases_of (after.storage m) ≡ without i (aliases_of (f.storage m))
  pub others : (n : ℕ) → m ≢ n → after.storage n ≡ f.storage n
  pub writes :
      is_constant (f.storage m) ≡ false
      → dead ≡ false
      → (r.dirty || force) ≡ true
      → (a : Alias) × (find_dst i (aliases_of (f.storage m)) ≡ some a)
        × Writes f m r (Alias.region a) asm
  pub skips : dead ≡ true → asm ≡ []

module _ (f : Function) (m i : ℕ) (r : Register) (v : Inv f)
    (held : get_elem? f.registers i ≡ some r) (own : r.parent ≡ some m) where
  is_listed : has_dst i (aliases_of (f.storage m)) ≡ true
  is_listed = v.listed i m (ground arith)

  -- The removal of the alias, after the value is saved.
  removed : (g : Function) → SavedFrom f m g → remove_alias m i g ≡ ok (true, unlink g m i r)
  removed g s =
      remove_alias_lem m i g r (ap (λ (rs : List Register). get_elem? rs i) s.registers ∙ held) own
        (ap (has_dst i) (s.aliases m) ∙ is_listed) (s.inv.clear m)

  close :
      (loc : Option Location) (force dead : Bool) (asm : Asm) (g : Function)
      → SavedFrom f m g
      → spill_register loc m i force f ≡ ok (asm, unlink g m i r)
      → (is_constant (f.storage m) ≡ false
          → dead ≡ false
          → (r.dirty || force) ≡ true
          → (a : Alias) × (find_dst i (aliases_of (f.storage m)) ≡ some a)
            × Writes f m r (Alias.region a) asm)
      → (dead ≡ true → asm ≡ [])
      → Spilled f m i r force dead (spill_register loc m i force f)
  close loc force dead asm g s e w k = record {
    asm = asm;
    after = unlink g m i r;
    returns = e;
    inv =
        unlink-Inv g m i r s.inv (ap (λ (rs : List Register). get_elem? rs i) s.registers ∙ held)
          own;
    registers = ap (λ (rs : List Register). set rs i (released r)) s.registers;
    identifiers = s.identifiers;
    blocks = s.blocks;
    optimize = s.optimize;
    dropped =
        ground (
          arith,
          aliases_of-with (g.storage m) (without i (aliases_of (g.storage m))),
          s.aliases m,
        );
    others = λ n h. ground (arith, s.others n h);
    writes = w;
    skips = k;
  }

  from_memory :
      (loc : Option Location) (force dead : Bool) (aliases : List Alias) (regions : List Region)
      → f.storage m ≡ memory aliases regions
      → is_dead m loc f ≡ ok dead
      → Spilled f m i r force dead (spill_register loc m i force f)
  unfolding spill_register get_alias
  from_memory loc force dead aliases regions mem d =
      let listed : has_dst i aliases ≡ true =
        ap (λ (s : Storer). has_dst i (aliases_of s)) (sym mem) ∙ is_listed in
      let a = find_dst-some i aliases listed in
      let w = write_back_lem f m i r aliases regions a.0 v held own mem a.1 loc force dead d in
      close loc force dead w.asm w.after w.saved_from
        (ground (arith, check_lem m f (v.clear m), w.returns, removed w.after w.saved_from))
        (λ _ p q. (a.0, ap (λ (s : Storer). find_dst i (aliases_of s)) mem ∙ a.1, w.writes p q))
        w.skips

  from_constant :
      (loc : Option Location) (dead : Bool) (aliases : List Alias)
      → f.storage m ≡ constant aliases
      → is_dead m loc f ≡ ok dead
      → Spilled f m i r false dead (spill_register loc m i false f)
  unfolding spill_register write_back
  from_constant loc dead aliases con d =
      let clean = v.clean i m r held own (ap is_constant con) in
      close loc false dead [] f (SavedFrom-self f m v)
        (ground (arith, clean, removed f (SavedFrom-self f m v)))
        (λ c. absurd (cc (ap is_constant con))) (λ _. refl)

  by_storer :
      (s : Storer) (loc : Option Location) (force dead : Bool)
      → f.storage m ≡ s
      → (is_constant s ≡ true → force ≡ false)
      → is_dead m loc f ≡ ok dead
      → Spilled f m i r force dead (spill_register loc m i force f)
  by_storer (memory aliases regions) loc force dead e k d =
      from_memory loc force dead aliases regions e d
  by_storer (constant aliases) loc false dead e k d = from_constant loc dead aliases e d
  by_storer (constant aliases) loc true dead e k d = absurd (cc (k refl))

  -- From a state that meets the invariant, spilling a register that caches storer `m` returns, where
  -- its liveness test does and a constant is not forced, and does what `Spilled` says.
  pub spill_register_lem :
      (loc : Option Location) (force dead : Bool)
      → (is_constant (f.storage m) ≡ true → force ≡ false)
      → is_dead m loc f ≡ ok dead
      → Spilled f m i r force dead (spill_register loc m i force f)
  spill_register_lem loc force dead k d = by_storer (f.storage m) loc force dead refl k d
