-- ===== src/Storage/Initialized.antt =====
-- codegen/storage.go: the list of initialized regions of a memory.
use gensimd.Common.{
  ◌≤◌, ◌<◌, ◌≡◌, refl, ◌⊎◌, inl, inr, Bool, true, false, List, [], ◌∷◌, ok, arith, ◌∙◌,
}
use gensimd.Region.{Region, min, max, overlap, overlapping, overlaps, grow}
use gensimd.Region.Merge.{overlap_regions_lem, merge_regions_lem, grow-clear, overlapping_symm}
use gensimd.Storage.{is_initialized, set_initialized}

-- The region lies in what is initialized, or clear of it.
abbrev pub Compatible : List Region → Region → Type 0
Compatible [] rgn = Unit
Compatible (j ∷ []) rgn = ((min j ≤ min rgn) × (max rgn ≤ max j)) ⊎ (overlapping rgn j ≡ false)
Compatible (j ∷ k ∷ rest) rgn = ⊥

abbrev pub Within : Region → Region → Type 0
Within rgn j = (min j ≤ min rgn) × (max rgn ≤ max j)

is_initialized-nil : (rgn : Region) → is_initialized [] rgn ≡ ok false
unfolding is_initialized overlaps
is_initialized-nil rgn = ground (arith, overlap_regions_lem 0 rgn [] refl)

is_initialized-clear :
    (rgn j : Region) → overlapping rgn j ≡ false → is_initialized (j ∷ []) rgn ≡ ok false
unfolding is_initialized overlaps
is_initialized-clear rgn j h = ground (arith, overlap_regions_lem 0 rgn (j ∷ []) refl)

overlap-Within : (rgn j : Region) → 0 < rgn.size → Within rgn j → overlap rgn j ≡ rgn
unfolding overlap
overlap-Within rgn j p h = ground arith

is_initialized-Within :
    (rgn j : Region) → 0 < rgn.size → Within rgn j → is_initialized (j ∷ []) rgn ≡ ok true
unfolding is_initialized overlaps
is_initialized-Within rgn j p h =
    ground (arith, overlap-Within rgn j, overlap_regions_lem 0 rgn (j ∷ []) refl)

-- What `setInitialized` leaves.
abbrev pub initialized_after : List Region → Region → List Region
initialized_after [] rgn = rgn ∷ []
initialized_after (j ∷ rest) rgn = elim (overlapping rgn j) [
  | true ↦ j ∷ rest
  | false ↦ grow rgn j ∷ []
]

Within-overlapping : (rgn j : Region) → 0 < rgn.size → Within rgn j → overlapping rgn j ≡ true
unfolding overlap
Within-overlapping rgn j p h = ground arith

-- Marking a non-empty region as initialized, where at most one region is known and the new one lies
-- in it or clear of it, returns. The known region stays if it has the new one, and otherwise it is
-- extended by it where the two touch; where none is known the new one is kept.
pub set_initialized_lem :
    (regions : List Region) (rgn : Region)
    → 0 < rgn.size
    → Compatible regions rgn
    → set_initialized regions rgn ≡ ok (initialized_after regions rgn)
unfolding set_initialized
set_initialized_lem [] rgn p h =
    ground (arith, is_initialized-nil rgn, merge_regions_lem 1 (rgn ∷ []) refl)
set_initialized_lem (j ∷ []) rgn p (inl h) =
    ground (arith, is_initialized-Within rgn j p h, Within-overlapping rgn j p h)
set_initialized_lem (j ∷ []) rgn p (inr h) = ground (
  arith,
  is_initialized-clear rgn j h,
  overlapping_symm j rgn,
  merge_regions_lem 1 (j ∷ rgn ∷ []),
)
set_initialized_lem (j ∷ k ∷ rest) rgn p h = absurd h

pub is_initialized_lem :
    (regions : List Region) (rgn : Region)
    → 0 < rgn.size
    → Compatible regions rgn
    → (b : Bool) × (is_initialized regions rgn ≡ ok b)
is_initialized_lem [] rgn p h = (false, is_initialized-nil rgn)
is_initialized_lem (j ∷ []) rgn p (inl h) = (true, is_initialized-Within rgn j p h)
is_initialized_lem (j ∷ []) rgn p (inr h) = (false, is_initialized-clear rgn j h)
is_initialized_lem (j ∷ k ∷ rest) rgn p h = absurd h

grow-Within : (new j rgn : Region) → Within rgn j → Within rgn (grow new j)
unfolding grow
grow-Within new j rgn h = ground arith

overlapping_after :
    (j new rgn : Region) (o : Bool)
    → ((Within rgn j) ⊎ (overlapping rgn j ≡ false))
    → overlapping new rgn ≡ false
    → Compatible (elim o [ true ↦ j ∷ [] | false ↦ grow new j ∷ [] ]) rgn
overlapping_after j new rgn true h clear = h
overlapping_after j new rgn false (inl h) clear = inl (grow-Within new j rgn h)
overlapping_after j new rgn false (inr h) clear =
    inr
      (overlapping_symm rgn (grow new j) ∙ grow-clear new j rgn clear (overlapping_symm j rgn ∙ h))

-- A region that shares no byte with the new one stays compatible.
pub initialized_after-Compatible :
    (regions : List Region) (new rgn : Region)
    → Compatible regions rgn
    → overlapping new rgn ≡ false
    → Compatible (initialized_after regions new) rgn
initialized_after-Compatible [] new rgn h clear = inr (overlapping_symm rgn new ∙ clear)
initialized_after-Compatible (j ∷ []) new rgn h clear =
    overlapping_after j new rgn (overlapping new j) h clear
initialized_after-Compatible (j ∷ k ∷ rest) new rgn h clear = absurd h
