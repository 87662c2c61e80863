-- ===== src/Text/Split.antt =====
-- Prefixes, and the pieces of a text.
use gensimd.Common.{
  ℕ, ◌≡◌, ◌≢◌, inl, inr, refl, sym, ap, ap₂, ◌∙◌, false, ◌||◌, List, [], ◌∷◌, ◌++◌, some, ◌==◌,
  ==_iff, arith, Bool-cases,
}
use gensimd.Text.{Bytes, after_prefix, split, add_first, has_byte, join, pieces_have}

pub after_prefix-append : (p s : Bytes) → after_prefix p (p ++ s) ≡ some s
unfolding after_prefix
after_prefix-append [] s = refl
after_prefix-append (c ∷ p) s = ground (arith, after_prefix-append p s)

pub after_prefix-some : (p s r : Bytes) → after_prefix p s ≡ some r → s ≡ p ++ r
unfolding after_prefix
after_prefix-some [] s r h = ground (arith, h)
after_prefix-some (p ∷ ps) [] r h = absurd (ground (arith, h))
after_prefix-some (p ∷ ps) (c ∷ s) r h = elim (Bool-cases (p == c)) [
  | inl e ↦ ap₂ ◌∷◌ (sym ((==_iff p c).0 e)) (after_prefix-some ps s r (ground (arith, h, e)))
  | inr e ↦ absurd (ground (arith, h, e))
]

-- A piece ends where the separator comes.
pub split-piece :
    (sep : ℕ) (x s : Bytes) → has_byte sep x ≡ false → split sep (x ++ sep ∷ s) ≡ x ∷ split sep s
unfolding split
split-piece sep [] s h = ground arith
split-piece sep (c ∷ x) s h = ground (arith, h, split-piece sep x s)

pub split-last : (sep : ℕ) (x : Bytes) → has_byte sep x ≡ false → split sep x ≡ x ∷ []
unfolding split
split-last sep [] h = refl
split-last sep (c ∷ x) h = ground (arith, h, split-last sep x)

join-add_first : (sep c : ℕ) (xs : List Bytes) → join sep (add_first c xs) ≡ c ∷ join sep xs
join-add_first sep c [] = refl
join-add_first sep c (x ∷ []) = refl
join-add_first sep c (x ∷ y ∷ ys) = refl

add_first-nonempty : (c : ℕ) (xs : List Bytes) → add_first c xs ≢ []
add_first-nonempty c [] h = ground (arith, h)
add_first-nonempty c (x ∷ xs) h = ground (arith, h)

split-nonempty : (sep : ℕ) (s : Bytes) → split sep s ≢ []
unfolding split
split-nonempty sep [] h = ground (arith, h)
split-nonempty sep (c ∷ s) h = ground (arith, h, add_first-nonempty c (split sep s))

join-empty : (sep : ℕ) (xs : List Bytes) → xs ≢ [] → join sep ([] ∷ xs) ≡ sep ∷ join sep xs
join-empty sep [] h = absurd (h refl)
join-empty sep (x ∷ xs) h = refl

pub join-split : (sep : ℕ) (s : Bytes) → join sep (split sep s) ≡ s
unfolding split
join-split sep [] = refl
join-split sep (c ∷ s) = elim (Bool-cases (c == sep)) [
  | inl e ↦ rw e (
      join-empty sep (split sep s) (split-nonempty sep s)
      ∙ ap₂ ◌∷◌ (sym ((==_iff c sep).0 e)) (join-split sep s))
  | inr e ↦ rw e (join-add_first sep c (split sep s) ∙ ap (λ (t : Bytes). c ∷ t) (join-split sep s))
]

pieces_have-add_first :
    (sep c : ℕ) (xs : List Bytes)
    → pieces_have sep (add_first c xs) ≡ ((c == sep) || pieces_have sep xs)
pieces_have-add_first sep c [] = ground arith
pieces_have-add_first sep c (x ∷ xs) = ground arith

pub split-clear : (sep : ℕ) (s : Bytes) → pieces_have sep (split sep s) ≡ false
unfolding split
split-clear sep [] = refl
split-clear sep (c ∷ s) =
    ground (arith, split-clear sep s, pieces_have-add_first sep c (split sep s))

-- Text of lines is split into these lines again.
pub split-join :
    (sep : ℕ) (x : Bytes) (xs : List Bytes)
    → pieces_have sep (x ∷ xs) ≡ false
    → split sep (join sep (x ∷ xs)) ≡ x ∷ xs
split-join sep x [] h = split-last sep x (ground (arith, h))
split-join sep x (y ∷ ys) h =
    split-piece sep x (join sep (y ∷ ys)) (ground (arith, h))
    ∙ ap (λ (l : List Bytes). x ∷ l) (split-join sep y ys (ground (arith, h)))
