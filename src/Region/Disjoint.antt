-- ===== src/Region/Disjoint.antt =====
-- The loops of codegen/storage.go over all pairs of different indices, as a recursion.
use mathlib.Core.List.{append_assoc}
use gensimd.Common.{
  ℕ, ◌+◌, ◌<◌, ◌≡◌, refl, Bool, true, not, ◌&&◌, List, [], ◌∷◌, ◌++◌, arith, length, length-append,
}
use gensimd.Region.{any_other, any_pair_from, any_pair}

module _ {ℓ} {A : Type ℓ} (bad : A → A → Bool) where
  abbrev pub none_of : A → List A → Bool
  none_of a [] = true
  none_of a (b ∷ bs) = not (bad a b) && none_of a bs

  -- No two entries clash.
  abbrev pub apart : List A → Bool
  apart [] = true
  apart (a ∷ as') = none_of a as' && apart as'

  abbrev all_none_of : List A → List A → Bool
  all_none_of pre [] = true
  all_none_of pre (a ∷ as') = none_of a pre && all_none_of pre as'

  any_other_after :
      (i : ℕ) (a : A) (j : ℕ) (bs : List A) → i < j → any_other bad i a j bs ≡ not (none_of a bs)
  unfolding any_other
  any_other_after i a j [] h = refl
  any_other_after i a j (b ∷ bs) h = ground (arith, any_other_after i a (j + 1) bs)

  any_other_split :
      (i : ℕ) (a : A) (j : ℕ) (pre rest : List A)
      → i ≡ j + length pre
      → any_other bad i a j (pre ++ a ∷ rest) ≡ not (none_of a pre && none_of a rest)
  unfolding any_other
  any_other_split i a j [] rest h = ground (arith, any_other_after i a (j + 1) rest)
  any_other_split i a j (b ∷ pre) rest h = ground (arith, any_other_split i a (j + 1) pre rest)

  pub none_of-snoc :
      (b a : A) (pre : List A) → none_of b (pre ++ a ∷ []) ≡ none_of b pre && not (bad b a)
  none_of-snoc b a [] = ground arith
  none_of-snoc b a (c ∷ pre) = ground (arith, none_of-snoc b a pre)

  module _ (symmetric : (a b : A) → bad a b ≡ bad b a) where
    all_none_of-snoc :
        (a : A) (pre as' : List A)
        → all_none_of (pre ++ a ∷ []) as' ≡ all_none_of pre as' && none_of a as'
    all_none_of-snoc a pre [] = refl
    all_none_of-snoc a pre (b ∷ as') =
        ground (arith, none_of-snoc b a pre, symmetric a b, all_none_of-snoc a pre as')

    any_pair_from_lem :
        (i : ℕ) (pre as' : List A)
        → i ≡ length pre
        → any_pair_from bad i as' (pre ++ as') ≡ not (all_none_of pre as' && apart as')
    unfolding any_pair_from
    any_pair_from_lem i pre [] h = refl
    any_pair_from_lem i pre (a ∷ as') h =
        let rest =
          any_pair_from_lem (i + 1) (pre ++ a ∷ []) as'
            (omega (arith, length-append pre (a ∷ []))) in
        let regroup = append_assoc pre (a ∷ []) as' in
        ground
          (arith, any_other_split i a 0 pre as', rw regroup at rest, all_none_of-snoc a pre as')

    all_none_of-nil : (as' : List A) → all_none_of [] as' ≡ true
    all_none_of-nil [] = refl
    all_none_of-nil (a ∷ as') = all_none_of-nil as'

    -- The double loop over indices finds a clash exactly when the list is not apart.
    pub any_pair_lem : (xs : List A) → any_pair bad xs ≡ not (apart xs)
    unfolding any_pair
    any_pair_lem xs = ground (arith, any_pair_from_lem 0 [] xs, all_none_of-nil xs)
