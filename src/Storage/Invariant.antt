-- ===== src/Storage/Invariant.antt =====
-- The invariant of the registers and storers of codegen/storage.go: each side of an alias names the
-- other, no storer has two aliases for one register or one byte, and each alias can be saved.
use mathlib.Core.Path.{subst}
use gensimd.Common.{
  ℕ, ◌≡◌, refl, sym, Bool, true, false, List, [], ◌∷◌, Option, none, some, arith, ◌==◌,
  if◌then◌else◌, Result, Returns, get_elem?, ==_iff,
}
use gensimd.Region.{Region}
use gensimd.Region.Disjoint.{apart}
use gensimd.Reg.{Register}
use gensimd.Function.{
  Function, Identifier, Alias, Storer, memory, constant, aliases_of, with_aliases,
}
use gensimd.Storage.{has_dst, clash, without, remove_alias}
use gensimd.Storage.Aliases.{
  apart-without, has_dst-without, aliases_of-with, get_elem?-set, released, unlink,
  remove_alias_lem,
}
use gensimd.Storage.Initialized.{Compatible}
use gensimd.Storage.Save.{Fits}

abbrev pub parent_in : Option Register → Option ℕ
parent_in none = none
parent_in (some r) = Register.parent r

-- The storer that the register in slot `i` caches.
abbrev pub parent_of : Function → ℕ → Option ℕ
parent_of f i = parent_in (get_elem? f.registers i)

abbrev pub AllGood : Identifier → List Region → List Alias → Type 0
AllGood ident regions [] = Unit
AllGood ident regions (a ∷ as') =
    Fits ident (Alias.region a) × Compatible regions (Alias.region a) × AllGood ident regions as'

abbrev pub StorerGood : Identifier → Storer → Type 0
StorerGood ident (memory aliases regions) = AllGood ident regions aliases
StorerGood ident (constant aliases) = Unit

abbrev pub is_constant : Storer → Bool
is_constant (memory aliases regions) = false
is_constant (constant aliases) = true

pub record Inv (f : Function) : Type 0 where
  pub owned : (i m : ℕ) → has_dst i (aliases_of (f.storage m)) ≡ true → parent_of f i ≡ some m
  pub listed : (i m : ℕ) → parent_of f i ≡ some m → has_dst i (aliases_of (f.storage m)) ≡ true
  pub clear : (m : ℕ) → apart clash (aliases_of (f.storage m)) ≡ true
  pub good : (m : ℕ) → StorerGood (f.identifiers m) (f.storage m)
  pub clean :
      (i m : ℕ) (r : Register)
      → get_elem? f.registers i ≡ some r
      → r.parent ≡ some m
      → is_constant (f.storage m) ≡ true
      → r.dirty ≡ false

AllGood-without :
    (ident : Identifier) (regions : List Region) (i : ℕ) (as' : List Alias)
    → AllGood ident regions as'
    → AllGood ident regions (without i as')
AllGood-without ident regions i [] h = tt
AllGood-without ident regions i (a ∷ as') h =
    pick (Alias.dst a == i) (AllGood-without ident regions i as' h.2)
  where
    pick :
        (b : Bool)
        → AllGood ident regions (without i as')
        → AllGood ident regions (if b then without i as' else a ∷ without i as')
    pick true rest = rest
    pick false rest = (h.0, h.1, rest)

StorerGood-without :
    (ident : Identifier) (s : Storer) (i : ℕ)
    → StorerGood ident s
    → StorerGood ident (with_aliases s (without i (aliases_of s)))
StorerGood-without ident (memory aliases regions) i h = AllGood-without ident regions i aliases h
StorerGood-without ident (constant aliases) i h = tt

pub is_constant-with :
    (s : Storer) (as' : List Alias) → is_constant (with_aliases s as') ≡ is_constant s
is_constant-with (memory aliases regions) as' = refl
is_constant-with (constant aliases) as' = refl

module _ (f : Function) (m i : ℕ) (r : Register) (v : Inv f)
    (held : get_elem? f.registers i ≡ some r) (own : r.parent ≡ some m) where
  parent_of-unlink :
      (j : ℕ) → parent_of (unlink f m i r) j ≡ (if i == j then none else parent_of f j)
  parent_of-unlink j = ground (arith, get_elem?-set f.registers i j (released r) r held)

  has_dst-unlink :
      (j n : ℕ)
      → has_dst j (aliases_of ((unlink f m i r).storage n))
        ≡ (if i == j then false else has_dst j (aliases_of (f.storage n)))
  has_dst-unlink j n = ground (
    arith,
    aliases_of-with (f.storage m) (without i (aliases_of (f.storage m))),
    has_dst-without i j (aliases_of (f.storage m)),
    v.owned i n,
  )

  good-unlink :
      (n : ℕ) (b : Bool) → (m == n) ≡ b → StorerGood (f.identifiers n) ((unlink f m i r).storage n)
  good-unlink n true e = rw e (
      rw (sym ((==_iff m n).0 e)) (StorerGood-without (f.identifiers m) (f.storage m) i (v.good m)))
  good-unlink n false e = rw e (v.good n)

  -- Giving up a register keeps the invariant.
  pub unlink-Inv : Inv (unlink f m i r)
  unlink-Inv = record {
    owned = λ j n h. ground (arith, parent_of-unlink j, has_dst-unlink j n, v.owned j n);
    listed = λ j n h. ground (arith, parent_of-unlink j, has_dst-unlink j n, v.listed j n);
    clear = λ n. ground (
      arith,
      v.clear n,
      apart-without i (aliases_of (f.storage m)) (v.clear m),
      aliases_of-with (f.storage m) (without i (aliases_of (f.storage m))),
    );
    good = λ n. good-unlink n (m == n) refl;
    clean = λ j n s h p c. ground (
      arith,
      get_elem?-set f.registers i j (released r) r held,
      is_constant-with (f.storage m) (without i (aliases_of (f.storage m))),
      v.clean j n s,
    );
  }

  -- From a state that meets the invariant, `removeAlias` on a register and the storer that it caches
  -- returns true, in a state that meets the invariant again.
  pub remove_alias-Inv : Returns (remove_alias m i f) (λ res. (res.0 ≡ true) × Inv res.1)
  remove_alias-Inv =
      subst (λ (res : Result (Bool × Function)). Returns res (λ r. (r.0 ≡ true) × Inv r.1))
        (sym (remove_alias_lem m i f r held own (v.listed i m (ground arith)) (v.clear m)))
        (refl, unlink-Inv)
