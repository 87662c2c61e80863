-- ===== src/Storage/Adding.antt =====
-- `addAlias` of codegen/storage.go: the list with the new alias, and the state behind it.
use mathlib.Core.Path.{subst}
use gensimd.Common.{
  ℕ, ◌≡◌, refl, sym, Bool, true, false, not, ◌&&◌, ◌||◌, List, [], ◌∷◌, ◌++◌, none, some, Result,
  Returns, ok, arith, ◌==◌, ==_iff, if◌then◌else◌, get_elem?, set,
}
use gensimd.Region.{Region, overlapping}
use gensimd.Region.Disjoint.{none_of, apart, none_of-snoc}
use gensimd.Reg.{Register}
use gensimd.Function.{
  Function, Identifier, Alias, Storer, memory, constant, aliases_of, with_aliases, update,
}
use gensimd.Storage.{has_dst, clash, add_alias}
use gensimd.Storage.Aliases.{aliases_of-with, check_lem, clash_symm, get_elem?-set}
use gensimd.Storage.Initialized.{Compatible}
use gensimd.Storage.Save.{Fits}
use gensimd.Storage.Invariant.{Inv, AllGood, StorerGood, is_constant, is_constant-with, parent_of}

-- The region shares no byte with those of the aliases.
abbrev pub clear_of : Region → List Alias → Bool
clear_of rgn [] = true
clear_of rgn (a ∷ as') = not (overlapping rgn (Alias.region a)) && clear_of rgn as'

-- What a storer needs for a new alias.
abbrev pub Admits : Identifier → Storer → Register → Region → Type 0
Admits ident (memory aliases regions) r rgn = Fits ident rgn × Compatible regions rgn
Admits ident (constant aliases) r rgn = r.dirty ≡ false

none_of-clear :
    (new : Alias) (as' : List Alias)
    → has_dst (Alias.dst new) as' ≡ false
    → clear_of (Alias.region new) as' ≡ true
    → none_of clash new as' ≡ true
none_of-clear new [] h k = refl
none_of-clear new (a ∷ as') h k = ground (arith, none_of-clear new as')

apart-snoc :
    (new : Alias) (as' : List Alias)
    → apart clash as' ≡ true
    → none_of clash new as' ≡ true
    → apart clash (as' ++ new ∷ []) ≡ true
apart-snoc new [] h k = refl
apart-snoc new (a ∷ as') h k =
    ground (arith, none_of-snoc clash a new as', clash_symm a new, apart-snoc new as')

has_dst-snoc :
    (j : ℕ) (as' : List Alias) (new : Alias)
    → has_dst j (as' ++ new ∷ []) ≡ (has_dst j as' || (Alias.dst new == j))
has_dst-snoc j [] new = ground arith
has_dst-snoc j (a ∷ as') new = ground (arith, has_dst-snoc j as' new)

AllGood-snoc :
    (ident : Identifier) (regions : List Region) (as' : List Alias) (new : Alias)
    → AllGood ident regions as'
    → Fits ident (Alias.region new)
    → Compatible regions (Alias.region new)
    → AllGood ident regions (as' ++ new ∷ [])
AllGood-snoc ident regions [] new h f c = (f, c, tt)
AllGood-snoc ident regions (a ∷ as') new h f c =
    (h.0, h.1, AllGood-snoc ident regions as' new h.2 f c)

StorerGood-snoc :
    (ident : Identifier) (s : Storer) (r : Register) (new : Alias)
    → StorerGood ident s
    → Admits ident s r (Alias.region new)
    → StorerGood ident (with_aliases s (aliases_of s ++ new ∷ []))
StorerGood-snoc ident (memory aliases regions) r new h a =
    AllGood-snoc ident regions aliases new h a.0 a.1
StorerGood-snoc ident (constant aliases) r new h a = tt

Admits-clean :
    (ident : Identifier) (s : Storer) (r : Register) (rgn : Region)
    → Admits ident s r rgn
    → is_constant s ≡ true
    → r.dirty ≡ false
Admits-clean ident (memory aliases regions) r rgn a c = cc
Admits-clean ident (constant aliases) r rgn a c = a

abbrev pub owned_by : ℕ → Register → Register
owned_by m r = record r { parent = some m }

-- The state after `addAlias`.
abbrev pub link : Function → ℕ → Alias → Register → Function
link f m new r = record f {
  registers = set f.registers (Alias.dst new) (owned_by m r);
  storage = update f.storage m (with_aliases (f.storage m) (aliases_of (f.storage m) ++ new ∷ []));
}

module _ (f : Function) (m : ℕ) (new : Alias) (r : Register) (v : Inv f)
    (held : get_elem? f.registers (Alias.dst new) ≡ some r) (unused : r.parent ≡ none)
    (apart_from : clear_of (Alias.region new) (aliases_of (f.storage m)) ≡ true)
    (admits : Admits (f.identifiers m) (f.storage m) r (Alias.region new)) where
  -- A register without parent stands in no list.
  unlisted : (n : ℕ) → has_dst (Alias.dst new) (aliases_of (f.storage n)) ≡ false
  unlisted n = ground (arith, v.owned (Alias.dst new) n)

  still_apart : apart clash (aliases_of (f.storage m) ++ new ∷ []) ≡ true
  still_apart =
      apart-snoc new (aliases_of (f.storage m)) (v.clear m)
        (none_of-clear new (aliases_of (f.storage m)) (unlisted m) apart_from)

  parent_of-link :
      (j : ℕ)
      → parent_of (link f m new r) j ≡ (if Alias.dst new == j then some m else parent_of f j)
  parent_of-link j =
      ground (arith, get_elem?-set f.registers (Alias.dst new) j (owned_by m r) r held)

  has_dst-link :
      (j n : ℕ)
      → has_dst j (aliases_of ((link f m new r).storage n))
        ≡ (has_dst j (aliases_of (f.storage n)) || ((m == n) && (Alias.dst new == j)))
  has_dst-link j n = ground (
    arith,
    aliases_of-with (f.storage m) (aliases_of (f.storage m) ++ new ∷ []),
    has_dst-snoc j (aliases_of (f.storage m)) new,
  )

  good-link :
      (n : ℕ) (b : Bool) → (m == n) ≡ b → StorerGood (f.identifiers n) ((link f m new r).storage n)
  good-link n true e = rw e (
      rw (sym ((==_iff m n).0 e))
        (StorerGood-snoc (f.identifiers m) (f.storage m) r new (v.good m) admits))
  good-link n false e = rw e (v.good n)

  pub link-Inv : Inv (link f m new r)
  link-Inv = record {
    owned = λ j n h. ground (arith, parent_of-link j, has_dst-link j n, v.owned j n, unlisted n);
    listed = λ j n h. ground (arith, parent_of-link j, has_dst-link j n, v.listed j n);
    clear = λ n. ground (
      arith,
      v.clear n,
      still_apart,
      aliases_of-with (f.storage m) (aliases_of (f.storage m) ++ new ∷ []),
    );
    good = λ n. good-link n (m == n) refl;
    clean = λ j n s h p c. ground (
      arith,
      get_elem?-set f.registers (Alias.dst new) j (owned_by m r) r held,
      is_constant-with (f.storage m) (aliases_of (f.storage m) ++ new ∷ []),
      Admits-clean (f.identifiers m) (f.storage m) r (Alias.region new) admits,
      v.clean j n s,
    );
  }

  pub add_alias_lem : add_alias m new f ≡ ok (true, link f m new r)
  unfolding add_alias
  add_alias_lem = ground (
    arith,
    check_lem m f (v.clear m),
    unlisted m,
    still_apart,
    aliases_of-with (f.storage m) (aliases_of (f.storage m) ++ new ∷ []),
    check_lem m (link f m new r),
  )

  -- From a state that meets the invariant, `addAlias` of a register without parent and a region
  -- that lies in the identifier, can be moved, is clear of the aliases and is wholly initialized or
  -- wholly not, or for a constant with a clean register, returns true, in a state that meets the
  -- invariant again.
  pub add_alias-Inv : Returns (add_alias m new f) (λ res. (res.0 ≡ true) × Inv res.1)
  add_alias-Inv =
      subst (λ (res : Result (Bool × Function)). Returns res (λ p. (p.0 ≡ true) × Inv p.1))
        (sym add_alias_lem) (refl, link-Inv)
