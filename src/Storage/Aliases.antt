-- ===== src/Storage/Aliases.antt =====
-- Removal of an alias from a list that passes codegen/storage.go's check, and the state after it.
use gensimd.Common.{
  ℕ, ◌≡◌, refl, true, false, List, [], ◌∷◌, none, some, ok, arith, if◌then◌else◌, ◌==◌, get_elem?,
  set, zero, suc,
}
use gensimd.Region.Disjoint.{none_of, apart, any_pair_lem}
use gensimd.Region.Merge.{overlapping_symm}
use gensimd.Reg.{Register}
use gensimd.Function.{Function, Alias, Storer, memory, constant, aliases_of, with_aliases, update}
use gensimd.Storage.{has_dst, clash, check, without, remove_alias}

pub clash_symm : (a b : Alias) → clash a b ≡ clash b a
clash_symm a b = ground (arith, overlapping_symm (Alias.region a) (Alias.region b))

-- `check` returns on aliases that are apart.
pub check_lem :
    (m : ℕ) (f : Function) → apart clash (aliases_of (f.storage m)) ≡ true → check m f ≡ ok (tt, f)
unfolding check
check_lem m f h = ground (arith, any_pair_lem clash clash_symm (aliases_of (f.storage m)))

none_of-without :
    (a : Alias) (i : ℕ) (as' : List Alias)
    → none_of clash a as' ≡ true
    → none_of clash a (without i as') ≡ true
none_of-without a i [] h = refl
none_of-without a i (b ∷ bs) h = ground (arith, none_of-without a i bs)

pub apart-without :
    (i : ℕ) (as' : List Alias) → apart clash as' ≡ true → apart clash (without i as') ≡ true
apart-without i [] h = refl
apart-without i (b ∷ bs) h = ground (arith, none_of-without b i bs, apart-without i bs)

pub has_dst-without :
    (i j : ℕ) (as' : List Alias)
    → has_dst j (without i as') ≡ (if i == j then false else has_dst j as')
has_dst-without i j [] = ground arith
has_dst-without i j (b ∷ bs) = ground (arith, has_dst-without i j bs)

pub aliases_of-with : (s : Storer) (as' : List Alias) → aliases_of (with_aliases s as') ≡ as'
aliases_of-with (memory old regions) as' = refl
aliases_of-with (constant old) as' = refl

pub get_elem?-set {ℓ} :
    {A : Type ℓ} (xs : List A) (i j : ℕ) (v w : A)
    → get_elem? xs i ≡ some w
    → get_elem? (set xs i v) j ≡ (if i == j then some v else get_elem? xs j)
get_elem?-set [] i j v w h = cc
get_elem?-set (x ∷ xs) zero zero v w h = refl
get_elem?-set (x ∷ xs) zero (suc j) v w h = ground arith
get_elem?-set (x ∷ xs) (suc i) zero v w h = ground arith
get_elem?-set (x ∷ xs) (suc i) (suc j) v w h = ground (arith, get_elem?-set xs i j v w h)

-- The register a slot holds after `removeAlias`.
abbrev pub released : Register → Register
released r = record r { parent = none; in_use = false }

-- The state after `removeAlias`, and when it is reached.
abbrev pub unlink : Function → ℕ → ℕ → Register → Function
unlink f m i r = record f {
  registers = set f.registers i (released r);
  storage = update f.storage m (with_aliases (f.storage m) (without i (aliases_of (f.storage m))));
}

-- Where register `i` caches storer `m`, which lists it and passes `check`, `removeAlias` returns true
-- and leaves the register free and without parent and the storer without aliases of the register.
pub remove_alias_lem :
    (m i : ℕ) (f : Function) (r : Register)
    → get_elem? f.registers i ≡ some r
    → r.parent ≡ some m
    → has_dst i (aliases_of (f.storage m)) ≡ true
    → apart clash (aliases_of (f.storage m)) ≡ true
    → remove_alias m i f ≡ ok (true, unlink f m i r)
unfolding remove_alias
remove_alias_lem m i f r held owned listed clear = ground (
  arith,
  check_lem m f clear,
  apart-without i (aliases_of (f.storage m)) clear,
  aliases_of-with (f.storage m) (without i (aliases_of (f.storage m))),
  check_lem m (unlink f m i r),
)
