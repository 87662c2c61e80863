-- ===== src/Checks/Regions.antt =====
-- The theorems on regions, applied to halves of an eight-byte value.
use gensimd.Common.{◌≡◌, refl, [], ◌∷◌, ok}
use gensimd.Region.{Region, overlap, grow, disjoint, merge_regions, overlap_regions, overlaps}
use gensimd.Region.Disjoint.{apart}
use gensimd.Region.Merge.{
  sharing, disjoint_lem, merge_regions_lem, overlap_regions_lem, merged_of, first_or_empty,
}

abbrev low : Region
low = record { offset = 0; size = 4 }

abbrev high : Region
high = record { offset = 4; size = 4 }

abbrev far : Region
far = record { offset = 12; size = 4 }

abbrev middle : Region
middle = record { offset = 2; size = 4 }

disjoint_lem_example : disjoint (low ∷ middle ∷ []) ≡ apart sharing (low ∷ middle ∷ [])
disjoint_lem_example = disjoint_lem (low ∷ middle ∷ [])

merge_regions_lem_example :
    merge_regions (overlap_regions 2) (low ∷ high ∷ []) ≡ ok (record { offset = 0; size = 8 } ∷ [])
unfolding overlap grow
merge_regions_lem_example = merge_regions_lem 1 (low ∷ high ∷ []) refl

overlap_regions_lem_example :
    overlap_regions 3 middle (low ∷ high ∷ [])
    ≡ ok (first_or_empty (merged_of (overlaps middle (low ∷ high ∷ []))))
unfolding overlap
overlap_regions_lem_example = overlap_regions_lem 1 middle (low ∷ high ∷ []) refl
