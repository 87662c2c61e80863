-- ===== src/Region/Merge.antt =====
-- codegen/storage.go: overlaps and merges of disjoint regions, and the fuel that they need.
use gensimd.Common.{
  ℕ, suc, ◌-◌, Bool, ◌&&◌, ◌||◌, ◌==◌, ltb, if◌then◌else◌, ◌≤◌, ◌<◌, ◌≡◌, refl, ap, ◌∙◌, ◌⊎◌, ◌↔◌,
  true, false, List, [], ◌∷◌, arith, Result, ok,
}
use gensimd.Region.{
  Region, min, max, empty, overlap, overlapping, disjoint, check_disjoint, overlaps, grow, grow_all,
  merge_region, merged_with, merge_all, merge_regions, at_most_one, overlap_regions,
}
use gensimd.Region.Disjoint.{none_of, apart, any_pair_lem}

abbrev pub In : Region → ℕ → Type 0
In r x = (min r ≤ x) × (x < max r)

-- The overlap of two regions holds exactly the bytes that lie in both.
pub overlap_iff : (r s : Region) (x : ℕ) → In (overlap r s) x ↔ (In r x × In s x)
unfolding overlap
overlap_iff r s x = ground arith

pub overlapping_symm : (r s : Region) → overlapping r s ≡ overlapping s r
unfolding overlap
overlapping_symm r s = ground arith

abbrev pub Disjoint : List Region → Type 0
Disjoint rs = apart overlapping rs ≡ true

-- The regions have a byte in common: neither is empty, and each starts before the other ends.
abbrev pub sharing : Region → Region → Bool
sharing r s = ltb 0 r.size && (ltb 0 s.size && (ltb (min r) (max s) && ltb (min s) (max r)))

overlapping-sharing : (r s : Region) → overlapping r s ≡ sharing r s
unfolding overlap
overlapping-sharing r s = ground arith

-- The double loop of `disjoint` over all pairs of indices holds exactly of the lists in which no
-- region shares a byte with a later one: of any two, one is empty or starts at or behind the other's end.
pub disjoint_lem : (rs : List Region) → disjoint rs ≡ apart sharing rs
unfolding disjoint
disjoint_lem rs =
    ground (arith, any_pair_lem overlapping overlapping_symm rs)
    ∙ (λ i. apart (λ r s. overlapping-sharing r s i) rs)

pub check_disjoint_ok : (rs : List Region) → Disjoint rs → check_disjoint rs ≡ ok tt
unfolding check_disjoint disjoint
check_disjoint_ok rs h = ground (arith, any_pair_lem overlapping overlapping_symm rs)

-- A region that grows by a new one stays clear of what was clear of both.
pub grow-clear :
    (new r s : Region)
    → overlapping new s ≡ false
    → overlapping r s ≡ false
    → overlapping (grow new r) s ≡ false
unfolding grow overlap
grow-clear new r s h k = ground arith

grow-none_of :
    (new r : Region) (rs : List Region)
    → none_of overlapping new rs ≡ true
    → none_of overlapping r rs ≡ true
    → none_of overlapping (grow new r) rs ≡ true
grow-none_of new r [] h k = refl
grow-none_of new r (s ∷ rs) h k = ground (arith, grow-clear new r s, grow-none_of new r rs)

-- One of the two regions starts where the other ends.
abbrev pub touching : Region → Region → Bool
touching r s = (max r == min s) || (max s == min r)

-- The region, or where the new one touches it, all from the lower start to the higher end.
abbrev pub extended : Region → Region → Region
extended r new =
    let lo = if ltb (min new) (min r) then min new else min r in
    let hi = if ltb (max r) (max new) then max new else max r in
    if touching r new then record { offset = lo; size = hi - lo } else r

pub grow_lem : (new r : Region) → grow new r ≡ extended r new
unfolding grow
grow_lem new r = ground arith

-- The first region, extended by the others in turn.
abbrev pub grown : Region → List Region → Region
grown r [] = r
grown r (s ∷ rs) = grown (extended r s) rs

abbrev pub merged_of : List Region → List Region
merged_of [] = []
merged_of (r ∷ rs) = grown r rs ∷ []

-- What a merge needs of the overlap that it calls.
abbrev pub FindsNone : (Region → List Region → Result Region) → Type 0
FindsNone overlap_with =
    ((r : Region) → overlap_with r [] ≡ ok empty)
    × ((r s : Region) → overlapping r s ≡ false → overlap_with r (s ∷ []) ≡ ok empty)

module _ (overlap_with : Region → List Region → Result Region)
    (finds : FindsNone overlap_with) where
  merge_region-nil : (r : Region) → merge_region overlap_with [] r ≡ ok (r ∷ [])
  unfolding merge_region merged_with
  merge_region-nil r =
      ground (arith, finds.0 r, check_disjoint_ok [] refl, check_disjoint_ok (r ∷ []) refl)

  merge_region-one :
      (r new : Region)
      → overlapping new r ≡ false
      → merge_region overlap_with (r ∷ []) new ≡ ok (extended r new ∷ [])
  unfolding merge_region merged_with grow_all
  merge_region-one r new h = ground (
    arith,
    finds.1 new r,
    check_disjoint_ok (r ∷ []) refl,
    check_disjoint_ok (grow new r ∷ []) refl,
    grow_lem new r,
  )

  merge_all-one :
      (r : Region) (rs : List Region)
      → none_of overlapping r rs ≡ true
      → Disjoint rs
      → merge_all overlap_with (r ∷ []) rs ≡ ok (grown r rs ∷ [])
  unfolding merge_all
  merge_all-one r [] h k = refl
  merge_all-one r (s ∷ rs) h k = ground (
    arith,
    overlapping_symm s r,
    merge_region-one r s,
    grow-none_of s r rs,
    grow_lem s r,
    merge_all-one (extended r s) rs,
  )

  pub merge_regions_with_lem :
      (rs : List Region) → Disjoint rs → merge_regions overlap_with rs ≡ ok (merged_of rs)
  unfolding merge_regions merge_all
  merge_regions_with_lem [] h = ground (arith, check_disjoint_ok [] refl)
  merge_regions_with_lem (r ∷ rs) h = ground (
    arith,
    check_disjoint_ok (r ∷ rs) h,
    merge_region-nil r,
    merge_all-one r rs,
    check_disjoint_ok (grown r rs ∷ []) refl,
  )

-- With no overlap to merge, one round is enough.
merge_regions-nil :
    (overlap_with : Region → List Region → Result Region) → merge_regions overlap_with [] ≡ ok []
unfolding merge_regions merge_all
merge_regions-nil overlap_with = ground (arith, check_disjoint_ok [] refl)

overlaps-one : (r s : Region) → overlapping r s ≡ false → overlaps r (s ∷ []) ≡ []
unfolding overlaps
overlaps-one r s h = ground arith

overlap_regions-nil : (fuel : ℕ) (r : Region) → overlap_regions (suc fuel) r [] ≡ ok empty
unfolding overlap_regions overlaps
overlap_regions-nil fuel r =
    ground (arith, check_disjoint_ok [] refl, merge_regions-nil (overlap_regions fuel))

overlap_regions-one :
    (fuel : ℕ) (r s : Region)
    → overlapping r s ≡ false
    → overlap_regions (suc fuel) r (s ∷ []) ≡ ok empty
unfolding overlap_regions
overlap_regions-one fuel r s h = ground (
  arith,
  check_disjoint_ok (s ∷ []) refl,
  overlaps-one r s h,
  merge_regions-nil (overlap_regions fuel),
)

pub overlap_regions-FindsNone : (fuel : ℕ) → FindsNone (overlap_regions (suc fuel))
overlap_regions-FindsNone fuel = (overlap_regions-nil fuel, overlap_regions-one fuel)

-- Merging disjoint regions returns, within one round of the recursion, and leaves at most one
-- region: the first, extended by each later one that touches what has been merged so far to all
-- from the lower start of the two to the higher end.
pub merge_regions_lem :
    (fuel : ℕ) (rs : List Region)
    → Disjoint rs
    → merge_regions (overlap_regions (suc fuel)) rs ≡ ok (merged_of rs)
merge_regions_lem fuel =
    merge_regions_with_lem (overlap_regions (suc fuel)) (overlap_regions-FindsNone fuel)

-- Regions are clear of one another when one ends before the other starts, or one is empty.
abbrev Clear : Region → Region → Type 0
Clear r s = (max r ≤ min s) ⊎ (max s ≤ min r) ⊎ (r.size ≡ 0) ⊎ (s.size ≡ 0)

overlapping-Clear : (r s : Region) → overlapping r s ≡ false → Clear r s
unfolding overlap
overlapping-Clear r s h = ground arith

Clear-overlapping : (r s : Region) → Clear r s → overlapping r s ≡ false
unfolding overlap
Clear-overlapping r s h = ground arith

overlap_within :
    (r s : Region)
    → ((overlap r s).size ≡ 0) ⊎ ((min s ≤ min (overlap r s)) × (max (overlap r s) ≤ max s))
unfolding overlap
overlap_within r s = ground arith

overlap-clear :
    (r s t : Region) → overlapping s t ≡ false → overlapping (overlap r s) (overlap r t) ≡ false
overlap-clear r s t h =
    Clear-overlapping (overlap r s) (overlap r t)
      (ground (arith, overlapping-Clear s t h, overlap_within r s, overlap_within r t))

overlaps-none_of :
    (r s : Region) (rs : List Region)
    → none_of overlapping s rs ≡ true
    → none_of overlapping (overlap r s) (overlaps r rs) ≡ true
unfolding overlaps
overlaps-none_of r s [] h = refl
overlaps-none_of r s (t ∷ rs) h = ground (arith, overlap-clear r s t, overlaps-none_of r s rs)

overlaps-Disjoint : (r : Region) (rs : List Region) → Disjoint rs → Disjoint (overlaps r rs)
unfolding overlaps
overlaps-Disjoint r [] h = refl
overlaps-Disjoint r (s ∷ rs) h = ground (arith, overlaps-none_of r s rs, overlaps-Disjoint r rs)

abbrev pub first_or_empty : List Region → Region
first_or_empty [] = empty
first_or_empty (r ∷ rs) = r

at_most_one-merged_of :
    (rs : List Region) → at_most_one (merged_of rs) ≡ ok (first_or_empty (merged_of rs))
at_most_one-merged_of [] = refl
at_most_one-merged_of (r ∷ rs) = refl

-- The overlap of a region with disjoint regions returns, with the merge of the single overlaps.
pub overlap_regions_lem :
    (fuel : ℕ) (r : Region) (rs : List Region)
    → Disjoint rs
    → overlap_regions (suc (suc fuel)) r rs ≡ ok (first_or_empty (merged_of (overlaps r rs)))
unfolding overlap_regions
overlap_regions_lem fuel r rs h = ground (
  arith,
  check_disjoint_ok rs h,
  merge_regions_lem fuel (overlaps r rs) (overlaps-Disjoint r rs h),
  at_most_one-merged_of (overlaps r rs),
)

-- A region that touches no merged one is lost: of two regions with a gap between them only the
-- first is kept, whichever lies lower.
pub merge_regions-drops :
    (fuel : ℕ) (r s : Region)
    → (max r < min s) ⊎ (max s < min r)
    → merge_regions (overlap_regions (suc fuel)) (r ∷ s ∷ []) ≡ ok (r ∷ [])
unfolding overlap
merge_regions-drops fuel r s h =
    let clear : overlapping r s ≡ false = ground arith in
    let same : extended r s ≡ r = ground arith in
    merge_regions_lem fuel (r ∷ s ∷ []) (ground arith) ∙ ap (λ t. ok (t ∷ [])) same
