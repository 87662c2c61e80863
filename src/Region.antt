-- ===== src/Region.antt =====
-- codegen/storage.go: byte regions of an identifier's storage, and the list of initialized ones.
-- `overlap_regions` and `merge_region` call one another in the source; here the recursion is on
-- fuel (Region/Merge says how much is needed).
pub mod Disjoint
pub mod Merge
use gensimd.Common.{
  ℕ, zero, suc, ◌+◌, ◌-◌, Bool, true, false, ◌||◌, List, [], ◌∷◌, ◌++◌, ◌==◌, ltb, leb,
  if◌then◌else◌, Result, ok, fault, ice, ice_if, Fault, out_of_fuel, ◌>>=◌, ◌>>◌, ◌&&◌,
}

pub record Region : Type 0 where
  pub offset : ℕ
  pub size : ℕ

abbrev pub empty : Region
empty = record { offset = 0; size = 0 }

abbrev pub min : Region → ℕ
min r = r.offset

abbrev pub max : Region → ℕ
max r = r.offset + r.size

unfoldable pub contains : Region → ℕ → Bool
contains r value = leb (min r) value && leb value (max r)

unfoldable pub overlap : Region → Region → Region
overlap r other =
    let lo = if ltb (min other) (min r) then min r else min other in
    let hi = if ltb (max r) (max other) then max r else max other in
    if leb hi lo then empty else record { offset = lo; size = hi - lo }

-- The loop over all pairs of different indices, of `disjoint` and of `check`: does `bad` hold of
-- one of them?
module _ {ℓ} {A : Type ℓ} (bad : A → A → Bool) where
  unfoldable pub any_other : ℕ → A → ℕ → List A → Bool
  any_other i a j [] = false
  any_other i a j (b ∷ bs) = (if i == j then false else bad a b) || any_other i a (j + 1) bs

  unfoldable pub any_pair_from : ℕ → List A → List A → Bool
  any_pair_from i [] all = false
  any_pair_from i (a ∷ as') all = any_other i a 0 all || any_pair_from (i + 1) as' all

  unfoldable pub any_pair : List A → Bool
  unfolding any_pair_from any_other
  any_pair xs = any_pair_from 0 xs xs

abbrev pub overlapping : Region → Region → Bool
overlapping r s = ltb 0 (overlap r s).size

unfoldable pub disjoint : List Region → Bool
unfolding any_pair
disjoint regions = if any_pair overlapping regions then false else true

unfoldable pub check_disjoint : List Region → Result (Unit {0})
unfolding disjoint
check_disjoint regions = ice_if (if disjoint regions then false else true)

-- The first loop of `overlap_regions`.
unfoldable pub overlaps : Region → List Region → List Region
overlaps r [] = []
overlaps r (s ∷ ss) =
    let o = overlap r s in if ltb 0 o.size then o ∷ overlaps r ss else overlaps r ss

-- The loop of `merge_region`: a region that touches the new one grows by it.
unfoldable pub grow : Region → Region → Region
grow new region =
    if max new == min region
    then record { offset = new.offset; size = region.size + new.size }
    else if min new == max region
    then record { offset = region.offset; size = region.size + new.size }
    else region

unfoldable pub grow_all : Region → List Region → List Region
unfolding grow
grow_all new [] = []
grow_all new (region ∷ merged) = grow new region ∷ grow_all new merged

-- The rest of `merge_region`, behind its checks of the arguments.
unfoldable pub merged_with : List Region → Region → Result (List Region)
unfolding check_disjoint grow_all
merged_with [] new = ok (new ∷ [])
merged_with (m ∷ ms) new = do check_disjoint (grow_all new (m ∷ ms)); ok (grow_all new (m ∷ ms))

-- `merge_region` and `merge_regions`, over the `overlap_regions` that they call.
module _ (overlap_with : Region → List Region → Result Region) where
  unfoldable pub merge_region : List Region → Region → Result (List Region)
  unfolding check_disjoint merged_with
  merge_region merged new = do
    check_disjoint merged
    o ← overlap_with new merged
    ice_if (ltb 0 o.size)
    merged_with merged new

  unfoldable pub merge_all : List Region → List Region → Result (List Region)
  unfolding merge_region
  merge_all merged [] = ok merged
  merge_all merged (r ∷ rs) = merge_region merged r >>= λ merged'. merge_all merged' rs

  unfoldable pub merge_regions : List Region → Result (List Region)
  unfolding check_disjoint merge_all
  merge_regions regions = do
    check_disjoint regions
    merged ← merge_all [] regions
    check_disjoint merged
    ok merged

abbrev pub at_most_one : List Region → Result Region
at_most_one [] = ok empty
at_most_one (r ∷ []) = ok r
at_most_one (r ∷ s ∷ rs) = ice

unfoldable pub overlap_regions : ℕ → Region → List Region → Result Region
unfolding check_disjoint overlaps merge_regions
overlap_regions zero r regions = fault out_of_fuel
overlap_regions (suc fuel) r regions = do
  check_disjoint regions
  merged ← merge_regions (overlap_regions fuel) (overlaps r regions)
  at_most_one merged
