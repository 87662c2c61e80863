-- ===== src/Load/Hit.antt =====
-- codegen/storage.go: loading a region that a register caches already.
use mathlib.Core.Path.{subst}
use gensimd.Common.{
  ℕ, zero, suc, ◌<◌, ◌≡◌, refl, sym, ap, ◌∙◌, inr, true, false, List, [], ◌∷◌, Option, some, ok,
  arith, get_elem?,
}
use gensimd.Region.{Region, overlap, overlapping}
use gensimd.Region.Disjoint.{none_of, apart}
use gensimd.Reg.{Register}
use gensimd.Function.{Function, Identifier, Location, Alias, Storer, memory, aliases_of}
use gensimd.Storage.{clash, find_region, fetch}
use gensimd.Storage.Aliases.{check_lem}
use gensimd.Storage.Invariant.{Inv, AllGood, StorerGood}
use gensimd.Alloc.Total.{put, put-Inv}
use gensimd.Load.{load}

pub same_start-overlap :
    (r s : Region) → 0 < r.size → 0 < s.size → r.offset ≡ s.offset → overlapping r s ≡ true
unfolding overlap
same_start-overlap r s p q e = ground arith

none_of-get :
    (a b : Alias) (as' : List Alias) (j : ℕ)
    → none_of clash a as' ≡ true
    → get_elem? as' j ≡ some b
    → overlapping (Alias.region a) (Alias.region b) ≡ false
none_of-get a b [] j h e = cc
none_of-get a b (c ∷ cs) zero h e = ground arith
none_of-get a b (c ∷ cs) (suc j) h e = none_of-get a b cs j (ground arith) e

find_region_lem :
    (ident : Identifier) (regions : List Region) (as' : List Alias) (j : ℕ) (a : Alias)
    → apart clash as' ≡ true
    → AllGood ident regions as'
    → 0 < (Alias.region a).size
    → get_elem? as' j ≡ some a
    → find_region (Alias.region a) as' ≡ ok (some (Alias.dst a))
find_region_lem ident regions [] j a h g p e = cc
find_region_lem ident regions (b ∷ bs) zero a h g p e = ground arith
find_region_lem ident regions (b ∷ bs) (suc j) a h g p e =
    let apart_from = none_of-get b a bs j (ground arith) e in
    let rest = find_region_lem ident regions bs j a (ground arith) g.2 p e in
    let fit = g.0 in
    let meet = same_start-overlap (Alias.region b) (Alias.region a) fit.positive p in
    ground (arith, rest, meet, apart_from)

pub memory_good :
    (f : Function) (m : ℕ) (aliases : List Alias) (regions : List Region)
    → Inv f
    → f.storage m ≡ memory aliases regions
    → AllGood (f.identifiers m) regions aliases
memory_good f m aliases regions v e = subst (StorerGood (f.identifiers m)) e (v.good m)

-- From a state that meets the invariant, loading a non-empty region for which the memory has an
-- alias writes no instruction and gives the alias's register, which is now in use; nothing else
-- changes, and the invariant holds.
pub load_hit_lem :
    (f : Function) (loc : Option Location) (m : ℕ) (aliases : List Alias) (regions : List Region)
    (j : ℕ) (a : Alias) (r : Register)
    → Inv f
    → f.storage m ≡ memory aliases regions
    → get_elem? aliases j ≡ some a
    → 0 < (Alias.region a).size
    → get_elem? f.registers (Alias.dst a) ≡ some r
    → (load loc m (Alias.region a) f
        ≡ ok (([], Alias.dst a), put f (Alias.dst a) (record r { in_use = true })))
      × Inv (put f (Alias.dst a) (record r { in_use = true }))
unfolding load fetch
load_hit_lem f loc m aliases regions j a r v mem e p held =
    let clear : apart clash aliases ≡ true =
      ap (λ (s : Storer). apart clash (aliases_of s)) (sym mem) ∙ v.clear m in
    let found =
      find_region_lem (f.identifiers m) regions aliases j a clear
        (memory_good f m aliases regions v mem) p e in
    (
      ground (arith, check_lem m f (v.clear m), found, held),
      put-Inv f (Alias.dst a) r (record r { in_use = true }) v held refl (inr refl),
    )
