-- ===== src/Storage/Kept.antt =====
-- codegen/storage.go: the state behind the saving of a register.
use gensimd.Common.{
  ℕ, ◌≡◌, refl, sym, ap, ◌∙◌, ◌⊎◌, inl, inr, Bool, true, false, List, [], ◌∷◌, some, arith, ◌==◌,
  Bool-cases, ==_iff,
}
use mathlib.Core.Path.{subst}
use gensimd.Region.{Region, overlapping, grow}
use gensimd.Region.Disjoint.{none_of, apart}
use gensimd.Region.Merge.{overlapping_symm}
use gensimd.Function.{Function, Identifier, Alias, Storer, aliases_of, update}
use gensimd.Storage.{has_dst, find_dst, clash}
use gensimd.Storage.Initialized.{
  Compatible, initialized_after, initialized_after-Compatible, Within,
}
use gensimd.Storage.Save.{Fits}
use gensimd.Storage.Invariant.{AllGood, StorerGood, is_constant, Inv}

pub find_dst-some :
    (i : ℕ) (as' : List Alias) → has_dst i as' ≡ true → (a : Alias) × (find_dst i as' ≡ some a)
find_dst-some i [] h = cc
find_dst-some i (a ∷ as') h = elim (Bool-cases (Alias.dst a == i)) [
  | inl e ↦ (a, rw e refl)
  | inr e ↦ rw e (find_dst-some i as' (rw e at h))
]

none_of-find :
    (i : ℕ) (b a : Alias) (as' : List Alias)
    → none_of clash b as' ≡ true
    → find_dst i as' ≡ some a
    → overlapping (Alias.region b) (Alias.region a) ≡ false
none_of-find i b a [] h e = cc
none_of-find i b a (c ∷ as') h e = ground (arith, none_of-find i b a as')

pub AllGood-find :
    (ident : Identifier) (regions : List Region) (i : ℕ) (a : Alias) (as' : List Alias)
    → AllGood ident regions as'
    → find_dst i as' ≡ some a
    → Fits ident (Alias.region a) × Compatible regions (Alias.region a)
AllGood-find ident regions i a [] h e = absurd (cc)
AllGood-find ident regions i a (c ∷ as') h e = elim (Bool-cases (Alias.dst c == i)) [
  | inl k ↦
      let same : c ≡ a = cc (rw k at e) in
      subst (λ (x : Alias). Fits ident (Alias.region x) × Compatible regions (Alias.region x)) same
        (h.0, h.1)
  | inr k ↦ AllGood-find ident regions i a as' h.2 (rw k at e)
]

grow_self : (rgn j : Region) → Within rgn (grow rgn j) ⊎ (grow rgn j ≡ j)
unfolding grow
grow_self rgn j = ground arith

clear_after_grow : (rgn j : Region) → overlapping rgn j ≡ false → Compatible (grow rgn j ∷ []) rgn
clear_after_grow rgn j h = elim (grow_self rgn j) [ inl w ↦ inl w | inr e ↦ inr (rw e h) ]

self_after :
    (j rgn : Region) (o : Bool)
    → overlapping rgn j ≡ o
    → (Within rgn j) ⊎ (overlapping rgn j ≡ false)
    → Compatible (elim o [ true ↦ j ∷ [] | false ↦ grow rgn j ∷ [] ]) rgn
self_after j rgn true e h = h
self_after j rgn false e h = clear_after_grow rgn j e

-- The region itself stays compatible too.
initialized_after_self :
    (regions : List Region) (rgn : Region)
    → Compatible regions rgn
    → Compatible (initialized_after regions rgn) rgn
initialized_after_self [] rgn h = inl (omega arith, omega arith)
initialized_after_self (j ∷ []) rgn h = self_after j rgn (overlapping rgn j) refl h
initialized_after_self (j ∷ k ∷ rest) rgn h = absurd h

AllGood-clear :
    (ident : Identifier) (regions : List Region) (b : Alias) (as' : List Alias)
    → none_of clash b as' ≡ true
    → AllGood ident regions as'
    → AllGood ident (initialized_after regions (Alias.region b)) as'
AllGood-clear ident regions b [] n h = tt
AllGood-clear ident regions b (c ∷ as') n h = (
  h.0,
  initialized_after-Compatible regions (Alias.region b) (Alias.region c) h.1 (ground arith),
  AllGood-clear ident regions b as' (ground arith) h.2,
)

-- Writing back the region of one alias leaves all of them good.
pub AllGood-after :
    (ident : Identifier) (regions : List Region) (i : ℕ) (a : Alias) (as' : List Alias)
    → apart clash as' ≡ true
    → find_dst i as' ≡ some a
    → AllGood ident regions as'
    → AllGood ident (initialized_after regions (Alias.region a)) as'
AllGood-after ident regions i a [] n e h = tt
AllGood-after ident regions i a (c ∷ as') n e h = elim (Bool-cases (Alias.dst c == i)) [
  | inl k ↦
      let same : c ≡ a = cc (rw k at e) in
      subst (λ (x : Alias). AllGood ident (initialized_after regions (Alias.region x)) (c ∷ as'))
        same
        (
          h.0,
          initialized_after_self regions (Alias.region c) h.1,
          AllGood-clear ident regions c as' (ground arith) h.2,
        )
  | inr k ↦ (
    h.0,
    initialized_after-Compatible regions (Alias.region a) (Alias.region c) h.1 (
        overlapping_symm (Alias.region a) (Alias.region c)
        ∙ none_of-find i c a as' (ground arith) (rw k at e)),
    AllGood-after ident regions i a as' (ground arith) (rw k at e) h.2,
  )
]

abbrev pub with_storer : Function → ℕ → Storer → Function
with_storer f m s = record f { storage = update f.storage m s }

module _ (f : Function) (m : ℕ) (s : Storer) (v : Inv f)
    (same : aliases_of s ≡ aliases_of (f.storage m))
    (kind : is_constant s ≡ is_constant (f.storage m)) (fine : StorerGood (f.identifiers m) s) where
  aliases-with_storer :
      (n : ℕ) → aliases_of ((with_storer f m s).storage n) ≡ aliases_of (f.storage n)
  aliases-with_storer n = ground arith

  good-with_storer :
      (n : ℕ) (b : Bool)
      → (m == n) ≡ b
      → StorerGood (f.identifiers n) ((with_storer f m s).storage n)
  good-with_storer n true e = rw e (rw (sym ((==_iff m n).0 e)) fine)
  good-with_storer n false e = rw e (v.good n)

  -- So does a change of the initialized regions that suits the aliases.
  pub with_storer-Inv : Inv (with_storer f m s)
  with_storer-Inv = record {
    owned = λ i n h. v.owned i n (sym (ap (has_dst i) (aliases-with_storer n)) ∙ h);
    listed = λ i n h. ap (has_dst i) (aliases-with_storer n) ∙ v.listed i n h;
    clear = λ n. ap (apart clash) (aliases-with_storer n) ∙ v.clear n;
    good = λ n. good-with_storer n (m == n) refl;
    clean = λ i n r h p c. v.clean i n r h p (ground arith);
  }
