-- ===== src/Text/Stripped.antt =====
-- The lines that stripDebug leaves.
use mathlib.Core.List.{append-nil}
use gensimd.Common.{
  ℕ, ◌≡◌, ◌⊎◌, inl, inr, refl, ap, ◌∙◌, Bool, false, ◌||◌, List, [], ◌∷◌, ◌++◌, if◌then◌else◌,
  arith, Bool-cases,
}
use gensimd.Text.{Bytes, after_prefix, split, join, pieces_have}
use gensimd.Text.Split.{split-clear, split-join}
use gensimd.Text.Debug.{is_debug, strip_lines, trim_newline, strip_debug}

-- The lines that are not debug comments.
abbrev pub kept : Bytes → List Bytes → List Bytes
kept indent [] = []
kept indent (line ∷ lines) =
    let rest = kept indent lines in if is_debug indent line then rest else line ∷ rest

abbrev pub any_debug : Bytes → List Bytes → Bool
any_debug indent [] = false
any_debug indent (line ∷ lines) = is_debug indent line || any_debug indent lines

abbrev terminated : List Bytes → Bytes
terminated [] = []
terminated (x ∷ xs) = x ++ 10 ∷ terminated xs

strip_lines-kept :
    (indent : Bytes) (ls : List Bytes) → strip_lines indent ls ≡ terminated (kept indent ls)
strip_lines-kept indent [] = refl
strip_lines-kept indent (l ∷ ls) = elim (Bool-cases (is_debug indent l)) [
  | inl e ↦ rw e (strip_lines-kept indent ls)
  | inr e ↦ rw e (ap (λ (t : Bytes). l ++ 10 ∷ t) (strip_lines-kept indent ls))
]

trim_newline-skip :
    (x : Bytes) (d : ℕ) (s : Bytes) → trim_newline (x ++ d ∷ s) ≡ x ++ trim_newline (d ∷ s)
trim_newline-skip [] d s = refl
trim_newline-skip (c ∷ []) d s = refl
trim_newline-skip (c ∷ e ∷ x) d s = ap (λ (t : Bytes). c ∷ t) (trim_newline-skip (e ∷ x) d s)

trim_newline-terminated :
    (x : Bytes) (xs : List Bytes) → trim_newline (terminated (x ∷ xs)) ≡ join 10 (x ∷ xs)
trim_newline-terminated x [] = trim_newline-skip x 10 [] ∙ append-nil x
trim_newline-terminated x ([] ∷ ys) =
    trim_newline-skip x 10 (terminated ([] ∷ ys))
    ∙ ap (λ (t : Bytes). x ++ 10 ∷ t) (trim_newline-terminated [] ys)
trim_newline-terminated x ((c ∷ y) ∷ ys) =
    trim_newline-skip x 10 (terminated ((c ∷ y) ∷ ys))
    ∙ ap (λ (t : Bytes). x ++ 10 ∷ t) (trim_newline-terminated (c ∷ y) ys)

kept-clear :
    (indent : Bytes) (ls : List Bytes)
    → pieces_have 10 ls ≡ false
    → pieces_have 10 (kept indent ls) ≡ false
kept-clear indent [] h = refl
kept-clear indent (l ∷ ls) h = ground (arith, h, kept-clear indent ls)

kept-no_debug : (indent : Bytes) (ls : List Bytes) → any_debug indent (kept indent ls) ≡ false
kept-no_debug indent [] = refl
kept-no_debug indent (l ∷ ls) = ground (arith, kept-no_debug indent ls)

empty-no_debug : (indent : Bytes) → is_debug indent [] ≡ false
unfolding after_prefix
empty-no_debug [] = refl
empty-no_debug (c ∷ indent) = refl

joined : (ls : List Bytes) → trim_newline (terminated ls) ≡ join 10 ls
joined [] = refl
joined (x ∷ xs) = trim_newline-terminated x xs

-- `lines` are those of `text`, which is empty if there are none.
abbrev pub LinesOf : List Bytes → Bytes → Type 0
LinesOf lines text = ((lines ≡ []) × (text ≡ [])) ⊎ (split 10 text ≡ lines)

join-LinesOf :
    (indent : Bytes) (ls : List Bytes)
    → pieces_have 10 ls ≡ false
    → any_debug indent ls ≡ false
    → (any_debug indent (split 10 (join 10 ls)) ≡ false) × LinesOf ls (join 10 ls)
unfolding split
join-LinesOf indent [] h n = (ground (arith, empty-no_debug indent), inl (refl, refl))
join-LinesOf indent (x ∷ xs) h n =
    (ap (any_debug indent) (split-join 10 x xs h) ∙ n, inr (split-join 10 x xs h))

-- No line of what stripDebug returns is a debug comment, and its lines are those of the text that
-- are none, in their order.
pub strip_debug_lem :
    (text indent : Bytes)
    → (any_debug indent (split 10 (strip_debug text indent)) ≡ false)
      × LinesOf (kept indent (split 10 text)) (strip_debug text indent)
unfolding strip_debug
strip_debug_lem text indent =
    let ls = split 10 text in
    rw (strip_lines-kept indent ls, joined (kept indent ls))
      (join-LinesOf indent (kept indent ls) (kept-clear indent ls (split-clear 10 text))
        (kept-no_debug indent ls))
