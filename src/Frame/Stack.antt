-- ===== src/Frame/Stack.antt =====
-- codegen/codegen.go: the places of the identifiers in the frame, one against another.
use mathlib.Core.Path.{subst}
use native.Mathlib.Nat.{mod-lt, mod-add-mod, mod_self}
use gensimd.Common.{
  Bool-cases, ℕ, zero, suc, ◌+◌, ◌-◌, ◌%◌, ◌≤◌, ◌<◌, ◌≡◌, refl, sym, ap, ◌∙◌, Bool, true, false,
  List, [], ◌∷◌, ◌++◌, Option, none, some, arith, inl, inr, if◌then◌else◌, ◌==◌, ltb, get_elem?,
}
use gensimd.Frame.{
  Layout, Local, Slot, reserved, zero_ssa_locals, local_idents_size, new_ident, new_idents,
  align_frame, params_size, cons_slot, local_slot, pad_to, ret_align, ret_offset,
}

-- Types whose alignment is at most their size.
abbrev pub NoPadding : List Layout → Type 0
NoPadding [] = Unit
NoPadding (t ∷ ts) = (t.align ≤ t.size) × NoPadding ts

abbrev pub layouts : List Local → List Layout
layouts [] = []
layouts (l ∷ ls) = l.layout ∷ layouts ls

of_some {ℓ} : {A : Type ℓ} {a b : A} → some a ≡ some b → a ≡ b
of_some e = cc

-- The slots lie one below the other without a gap, the first at depth `top`.
abbrev pub Stacked : ℕ → List Slot → Type 0
Stacked top [] = Unit
Stacked top (s ∷ ss) = (s.depth ≡ top + s.size) × Stacked s.depth ss

Stacked-snoc :
    (top : ℕ) (ss : List Slot) (s : Slot)
    → Stacked top ss
    → s.depth ≡ top + local_idents_size ss + s.size
    → Stacked top (ss ++ s ∷ [])
unfolding local_idents_size
Stacked-snoc top [] s h e = (omega arith, tt)
Stacked-snoc top (t ∷ ts) s h e = (h.0, Stacked-snoc t.depth ts s h.1 (omega (arith, h.0)))

-- A local in front of a stack.
local_in_front :
    (offset : ℕ) (t : Layout) (heap : Bool) (rest : Option (List Slot)) (ss : List Slot)
    → t.align ≤ t.size
    → ((rs : List Slot) → rest ≡ some rs → Stacked (offset + reserved t) rs)
    → (if heap then none else cons_slot (local_slot offset t) rest) ≡ some ss
    → Stacked offset ss
local_in_front offset t true rest ss n h e = cc
local_in_front offset t false none ss n h e = cc
local_in_front offset t false (some rs) ss n h e =
    let same : offset + reserved t ≡ offset + t.size = ground arith in
    subst (Stacked offset) (of_some e) (refl, subst (λ (d : ℕ). Stacked d rs) same (h rs refl))

zero_ssa_locals-Stacked :
    (offset : ℕ) (ls : List Local) (ss : List Slot)
    → NoPadding (layouts ls)
    → zero_ssa_locals offset ls ≡ some ss
    → Stacked offset ss
unfolding zero_ssa_locals
zero_ssa_locals-Stacked offset [] ss n e = subst (Stacked offset) (of_some e) tt
zero_ssa_locals-Stacked offset (l ∷ ls) ss n e =
    local_in_front offset l.layout l.heap (zero_ssa_locals (offset + reserved l.layout) ls) ss n.0
      (λ rs k. zero_ssa_locals-Stacked (offset + reserved l.layout) ls rs n.1 k) e

new_idents-Stacked :
    (ss : List Slot) (ts : List Layout) → NoPadding ts → Stacked 0 ss → Stacked 0 (new_idents ss ts)
unfolding new_idents
new_idents-Stacked ss [] n h = h
new_idents-Stacked ss (t ∷ ts) n h =
    new_idents-Stacked (ss ++ new_ident ss t ∷ []) ts n.1
      (Stacked-snoc 0 ss (new_ident ss t) h (ground (arith, n.0)))

Stacked-get_elem? :
    (top : ℕ) (ss : List Slot) (i : ℕ) (s : Slot)
    → Stacked top ss
    → get_elem? ss i ≡ some s
    → (top + s.size ≤ s.depth) × (s.depth ≤ top + local_idents_size ss)
unfolding local_idents_size
Stacked-get_elem? top [] i s h e = cc
Stacked-get_elem? top (t ∷ ts) zero s h e = ground (arith, h.0)
Stacked-get_elem? top (t ∷ ts) (suc i) s h e =
    let r = Stacked-get_elem? t.depth ts i s h.1 e in
    (omega (arith, r.0, h.0), omega (arith, r.1, h.0))

Stacked-pair :
    (top : ℕ) (ss : List Slot) (i j : ℕ) (s t : Slot)
    → Stacked top ss
    → i < j
    → get_elem? ss i ≡ some s
    → get_elem? ss j ≡ some t
    → s.depth + t.size ≤ t.depth
Stacked-pair top [] i j s t h l e k = cc
Stacked-pair top (u ∷ us) i zero s t h l e k = absurd (omega arith)
Stacked-pair top (u ∷ us) zero (suc j) s t h l e k =
    subst (λ (v : Slot). v.depth + t.size ≤ t.depth) (of_some e)
      (Stacked-get_elem? u.depth us j t h.1 k).0
Stacked-pair top (u ∷ us) (suc i) (suc j) s t h l e k =
    Stacked-pair u.depth us i j s t h.1 (omega arith) e k

-- The frame's size is a multiple of eight, above the size that it is made from and by eight at most.
pub align_frame_lem :
    (n : ℕ) → (n < align_frame n) × (align_frame n ≤ n + 8) × (align_frame n % 8 ≡ 0)
unfolding align_frame
align_frame_lem n = (omega arith, omega arith, omega arith)

pad_lem : (s a : ℕ) → 0 < a → (s + pad_to a (a - s % a)) % a ≡ 0
pad_lem s a p = elim (Bool-cases (a - s % a == a)) [
  | inl e ↦
      let none_left : s % a ≡ 0 = ground (arith, mod-lt s p) in
      rw e (ap (λ (n : ℕ). n % a) s_plus_zero ∙ none_left)
  | inr e ↦
      let full : s % a + (a - s % a) ≡ a = omega (arith, mod-lt s p) in
      rw e (sym (mod-add-mod s a (a - s % a)) ∙ ap (λ (n : ℕ). n % a) full ∙ mod_self a)
]
  where
    s_plus_zero : s + 0 ≡ s
    s_plus_zero = omega arith

pad-lt : (s a : ℕ) → 0 < a → pad_to a (a - s % a) < a
pad-lt s a p = ground arith

ret_align_pos : (t : Layout) → 0 < ret_align t
unfolding ret_align
ret_align_pos t = ground arith

abbrev pub greater : ℕ → ℕ → ℕ
greater a b = if ltb a b then b else a

-- The result's offset from FP lies behind the sum of the parameters' sizes, by less than the
-- alignment that is used, eight at least, and is a multiple of it.
pub ret_offset_lem :
    (vector : Bool) (t : Layout) (ts : List Layout)
    → (params_size ts ≤ ret_offset vector t ts)
      × (ret_offset vector t ts < params_size ts + (if vector then 8 else greater t.align 8))
      × (ret_offset vector t ts % (if vector then 8 else greater t.align 8) ≡ 0)
unfolding ret_offset ret_align
ret_offset_lem true t ts = (
  ground arith,
  omega (arith, pad-lt (params_size ts) 8),
  pad_lem (params_size ts) 8 (omega arith),
)
ret_offset_lem false t ts = (
  ground arith,
  omega (arith, pad-lt (params_size ts) (ret_align t), ret_align_pos t),
  pad_lem (params_size ts) (ret_align t) (ret_align_pos t),
)

-- The identifiers of a function, those of its SSA locals and those of its values in the order in
-- which they are made, where no type has an alignment above its size: the bytes of a later one lie
-- wholly below those of an earlier one, and each lies in the frame that `Func` declares.
pub new_idents_lem :
    (ls : List Local) (ts : List Layout) (ss : List Slot) (i j : ℕ) (s t : Slot)
    → NoPadding (layouts ls)
    → NoPadding ts
    → zero_ssa_locals 0 ls ≡ some ss
    → i < j
    → get_elem? (new_idents ss ts) i ≡ some s
    → get_elem? (new_idents ss ts) j ≡ some t
    → (s.depth + t.size ≤ t.depth)
      × (s.size ≤ s.depth)
      × (t.depth < align_frame (local_idents_size (new_idents ss ts)))
new_idents_lem ls ts ss i j s t n m z l e k =
    let h = new_idents-Stacked ss ts m (zero_ssa_locals-Stacked 0 ls ss n z) in
    let a = Stacked-get_elem? 0 (new_idents ss ts) i s h e in
    let b = Stacked-get_elem? 0 (new_idents ss ts) j t h k in
    let frame = align_frame_lem (local_idents_size (new_idents ss ts)) in
    (
      Stacked-pair 0 (new_idents ss ts) i j s t h l e k,
      omega (arith, a.0),
      omega (arith, b.1, frame.0),
    )
