-- ===== src/Storage/Dropped.antt =====
-- removeAliases from a state that meets the invariant.
use gensimd.Common.{
  ℕ, ◌≡◌, ◌≢◌, refl, sym, ap, ◌∙◌, inl, inr, Bool, true, false, List, [], ◌∷◌, none, some, Result,
  ok, if◌then◌else◌, ◌==◌, ==_iff, get_elem?, set, arith, Bool-cases, Option-cases,
}
use gensimd.Region.Disjoint.{none_of, apart}
use gensimd.Reg.{Register}
use gensimd.Function.{
  Function, Identifier, Alias, Storer, memory, constant, aliases_of, with_aliases, update,
}
use gensimd.State.{bind_ok}
use gensimd.Storage.{check, has_dst, clash}
use gensimd.Storage.Aliases.{check_lem, get_elem?-set, aliases_of-with}
use gensimd.Storage.Invariant.{Inv, StorerGood, is_constant, is_constant-with, parent_of}
use gensimd.Storage.Dropping.{any_alias, drop_each, remove_aliases}

-- `h` is `g` after the registers of the aliases have been given up by storer `m`.
record Dropped (as' : List Alias) (g h : Function) : Type 0 where
  storage : h.storage ≡ g.storage
  identifiers : h.identifiers ≡ g.identifiers
  parents : (i : ℕ) → parent_of h i ≡ (if has_dst i as' then none else parent_of g i)
  others :
      (i : ℕ) (r : Register)
      → get_elem? h.registers i ≡ some r
      → has_dst i as' ≡ false
      → get_elem? g.registers i ≡ some r

abbrev given_up : Register → Register
given_up r = record r { parent = none; dirty = false }

none_of-dst :
    (a : Alias) (as' : List Alias) → none_of clash a as' ≡ true → has_dst (Alias.dst a) as' ≡ false
none_of-dst a [] h = refl
none_of-dst a (b ∷ bs) h = ground (arith, none_of-dst a bs, h)

abbrev give_up : Function → ℕ → Register → Function
give_up g i r = record g { registers = set g.registers i (given_up r) }

parent_of-give_up :
    (g : Function) (i j : ℕ) (r : Register)
    → get_elem? g.registers i ≡ some r
    → parent_of (give_up g i r) j ≡ (if i == j then none else parent_of g j)
parent_of-give_up g i j r held = ground (arith, get_elem?-set g.registers i j (given_up r) r held)

drop_first :
    (m : ℕ) (a : Alias) (as' : List Alias) (g : Function) (r : Register)
    → get_elem? g.registers a.dst ≡ some r
    → r.parent ≡ some m
    → drop_each m (a ∷ as') g ≡ drop_each m as' (give_up g a.dst r)
unfolding drop_each
drop_first m a as' g r held own = ground (arith, held, own, ==_iff m m)

Dropped-first :
    (a : Alias) (as' : List Alias) (g h : Function) (r : Register)
    → get_elem? g.registers a.dst ≡ some r
    → Dropped as' (give_up g a.dst r) h
    → Dropped (a ∷ as') g h
Dropped-first a as' g h r held d = record {
  storage = d.storage;
  identifiers = d.identifiers;
  parents = λ i. ground (arith, d.parents i, parent_of-give_up g a.dst i r held);
  others = λ i s e n.
      ground (arith, d.others i s e, n, get_elem?-set g.registers a.dst i (given_up r) r held);
}

register_of :
    (g : Function) (i m : ℕ)
    → parent_of g i ≡ some m
    → (r : Register) × (get_elem? g.registers i ≡ some r) × (r.parent ≡ some m)
register_of g i m h = elim (Option-cases (get_elem? g.registers i)) [
  | inl n ↦ absurd (ground (arith, n, h))
  | inr (r, e) ↦ (r, e, ground (arith, e, h))
]

drop_lem :
    (m : ℕ) (as' : List Alias) (g : Function)
    → apart clash as' ≡ true
    → ((i : ℕ) → has_dst i as' ≡ true → parent_of g i ≡ some m)
    → (h : Function) × (drop_each m as' g ≡ ok (tt, h)) × Dropped as' g h
unfolding drop_each
drop_lem m [] g c p = (
  g,
  refl,
  record { storage = refl; identifiers = refl; parents = λ i. refl; others = λ i r e n. e },
)
drop_lem m (a ∷ as') g c p =
    let here = register_of g a.dst m (p a.dst (ground arith)) in
    let rest = drop_lem m as' (give_up g a.dst here.0) (ground (arith, c)) (λ i h.
      ground (arith, p i, parent_of-give_up g a.dst i here.0 here.1, none_of-dst a as', c)) in
    (
      rest.0,
      drop_first m a as' g here.0 here.1 here.2 ∙ rest.1,
      Dropped-first a as' g rest.0 here.0 here.1 rest.2,
    )

abbrev cleared : Function → ℕ → Function
cleared h m = record h { storage = update h.storage m (with_aliases (h.storage m) []) }

module _ (f h : Function) (m : ℕ) (v : Inv f) (d : Dropped (aliases_of (f.storage m)) f h) where
  storage_at : (n : ℕ) → h.storage n ≡ f.storage n
  storage_at n = ap (λ (s : ℕ → Storer). s n) d.storage

  aliases_at :
      (n : ℕ)
      → aliases_of ((cleared h m).storage n) ≡ (if m == n then [] else aliases_of (f.storage n))
  aliases_at n = elim (Bool-cases (m == n)) [
    | inl e ↦ rw e (aliases_of-with (h.storage m) [])
    | inr e ↦ rw e (ap aliases_of (storage_at n))
  ]

  constant_at : (n : ℕ) → is_constant ((cleared h m).storage n) ≡ is_constant (f.storage n)
  constant_at n = elim (Bool-cases (m == n)) [
    | inl e ↦ rw e (
        is_constant-with (h.storage m) []
        ∙ ap is_constant (storage_at m)
        ∙ ap (λ (k : ℕ). is_constant (f.storage k)) ((==_iff m n).0 e))
    | inr e ↦ rw e (ap is_constant (storage_at n))
  ]

  no_aliases-Good : (ident : Identifier) (s : Storer) → StorerGood ident (with_aliases s [])
  no_aliases-Good ident (memory aliases regions) = tt
  no_aliases-Good ident (constant aliases) = tt

  good_at : (n : ℕ) → StorerGood (h.identifiers n) ((cleared h m).storage n)
  good_at n = elim (Bool-cases (m == n)) [
    | inl e ↦ rw e (no_aliases-Good (h.identifiers n) (h.storage m))
    | inr e ↦ rw (e, d.identifiers, d.storage) (v.good n)
  ]

  -- The registers of the other storers are not given up.
  stays :
      (j n : ℕ)
      → has_dst j (aliases_of (f.storage n)) ≡ true
      → (m == n) ≡ false
      → has_dst j (aliases_of (f.storage m)) ≡ false
  stays j n a e = elim (Bool-cases (has_dst j (aliases_of (f.storage m)))) [
    | inr x ↦ x
    | inl x ↦ absurd (ground (arith, v.owned j n a, v.owned j m x, e))
  ]

  not_given :
      (j n : ℕ) (r : Register)
      → get_elem? h.registers j ≡ some r
      → r.parent ≡ some n
      → has_dst j (aliases_of (f.storage m)) ≡ false
  not_given j n r e p = ground (arith, e, p, d.parents j)

  cleared-Inv : Inv (cleared h m)
  cleared-Inv = record {
    owned = λ j n x. ground (arith, aliases_at n, x, v.owned j n, d.parents j, stays j n);
    listed = λ j n x. ground (arith, aliases_at n, x, v.listed j n, v.listed j m, d.parents j);
    clear = λ n. ground (arith, aliases_at n, v.clear n);
    good = good_at;
    clean = λ j n r e p k.
        v.clean j n r (d.others j r e (not_given j n r e p)) p (sym (constant_at n) ∙ k);
  }

-- `res` is a normal return to a state that meets the invariant, in which the storer has no aliases, no
-- register caches it, and the registers of the other storers are as they were.
pub record AliasesRemoved (f : Function) (m : ℕ) (res : Result (Bool × Function)) : Type 0 where
  pub had : Bool
  pub after : Function
  pub returns : res ≡ ok (had, after)
  pub inv : Inv after
  pub none_left : aliases_of (after.storage m) ≡ []
  pub not_cached : (i : ℕ) → parent_of after i ≢ some m
  pub others : (i n : ℕ) → m ≢ n → parent_of f i ≡ some n → parent_of after i ≡ some n

-- From a state that meets the invariant removeAliases returns to one that meets it, in which the
-- storer has no aliases, no register caches it, and each register that caches another storer still
-- does.
pub remove_aliases_lem : (f : Function) (m : ℕ) → Inv f → AliasesRemoved f m (remove_aliases m f)
unfolding remove_aliases
remove_aliases_lem f m v =
    let dropped = drop_lem m (aliases_of (f.storage m)) f (v.clear m) (λ i x. v.owned i m x) in
    let inv = cleared-Inv f dropped.0 m v dropped.2 in
    record {
      had = any_alias (aliases_of (f.storage m));
      after = cleared dropped.0 m;
      returns =
          bind_ok (check m) _ f f tt (check_lem m f (v.clear m))
          ∙ bind_ok (drop_each m (aliases_of (f.storage m))) _ f dropped.0 tt dropped.1;
      inv = inv;
      none_left = ground (arith, aliases_at f dropped.0 m v dropped.2 m);
      not_cached = λ i x. ground (arith, v.listed i m, dropped.2.parents i, x);
      others = λ i n e x. ground (arith, v.owned i m, dropped.2.parents i, x, e);
    }
