-- ===== src/Alloc/Scan.antt =====
-- The two scans over the registers of codegen/codegen.go: the last unused fit, and, when there is
-- none, the first register that may be spilled.
use gensimd.Common.{
  ℕ, zero, suc, ◌+◌, ◌≡◌, refl, ◌∙◌, ap, ◌⊎◌, inl, inr, Bool, true, false, List, [], ◌∷◌, Option,
  none, some, arith, get_elem?, Bool-cases,
}
use gensimd.Common.Int.{pos, ltb_ℤ}
use gensimd.Reg.{Register, RegType}
use gensimd.Alloc.{eligible, usable, last_usable, best_victim, compare_victims}

-- No register of the list passes the test.
abbrev pub NoneIs : (Register → Bool) → List Register → Type 0
NoneIs p [] = Unit
NoneIs p (r ∷ rs) = (p r ≡ false) × NoneIs p rs

-- Entry `j` of the list is `r` and passes the test, and no later entry does.
abbrev pub LastIs : (Register → Bool) → List Register → ℕ → Register → Type 0
LastIs p [] j r = ⊥
LastIs p (s ∷ rs) zero r = (s ≡ r) × (p r ≡ true) × NoneIs p rs
LastIs p (s ∷ rs) (suc j) r = LastIs p rs j r

-- Entry `j` of the list is `r` and passes the test, and no earlier entry does.
abbrev pub FirstIs : (Register → Bool) → List Register → ℕ → Register → Type 0
FirstIs p [] j r = ⊥
FirstIs p (s ∷ rs) zero r = (s ≡ r) × (p r ≡ true)
FirstIs p (s ∷ rs) (suc j) r = (p s ≡ false) × FirstIs p rs j r

module _ (t : RegType) (size : ℕ) where
  abbrev pub LastFound : ℕ → Option ℕ → List Register → Option ℕ → Type 0
  LastFound i found rs res =
      ((res ≡ found) × NoneIs (usable t size) rs)
      ⊎ ((j : ℕ) × (r : Register) × (res ≡ some (i + j)) × LastIs (usable t size) rs j r)

  -- The scan gives the last usable register, or what it started with if there is none.
  pub last_usable_lem :
      (i : ℕ) (found : Option ℕ) (rs : List Register)
      → LastFound i found rs (last_usable t size i found rs)
  unfolding last_usable
  last_usable_lem i found [] = inl (refl, tt)
  last_usable_lem i found (r ∷ rs) = elim (Bool-cases (usable t size r)) [
    | inl u ↦ elim (last_usable_lem (i + 1) (some i) rs) [
      | inl h ↦ inr (0, r, rw u (h.0 ∙ ap some (omega arith)), (refl, u, h.1))
      | inr h ↦ inr (suc h.0, h.1, rw u (h.2 ∙ ap some (omega arith)), h.3)
    ]
    | inr n ↦ elim (last_usable_lem (i + 1) found rs) [
      | inl h ↦ inl (rw n h.0, (n, h.1))
      | inr h ↦ inr (suc h.0, h.1, rw n (h.2 ∙ ap some (omega arith)), h.3)
    ]
  ]

  not_better :
      (r v : Register)
      → usable t size r ≡ false
      → eligible t size r ≡ true
      → v.in_use ≡ false
      → ltb_ℤ (pos 0) (compare_victims r v) ≡ false
  unfolding usable eligible compare_victims
  not_better r v h k n = ground arith

  best_stays :
      (i k : ℕ) (v : Register) (rs : List Register)
      → v.in_use ≡ false
      → NoneIs (usable t size) rs
      → best_victim t size i (some (k, v)) rs ≡ some (k, v)
  unfolding best_victim
  best_stays i k v [] n h = refl
  best_stays i k v (r ∷ rs) n h = ground (arith, not_better r v, best_stays (i + 1) k v rs)

  eligible_free : (r : Register) → eligible t size r ≡ true → r.in_use ≡ false
  unfolding eligible
  eligible_free r h = ground arith

  abbrev pub FirstVictim : ℕ → List Register → Option (ℕ × Register) → Type 0
  FirstVictim i rs res =
      ((res ≡ none) × NoneIs (eligible t size) rs)
      ⊎ ((j : ℕ) × (r : Register) × (res ≡ some (i + j, r)) × FirstIs (eligible t size) rs j r)

  -- Where no register is unused, the victim is the first that may be spilled.
  pub best_victim_lem :
      (i : ℕ) (rs : List Register)
      → NoneIs (usable t size) rs
      → FirstVictim i rs (best_victim t size i none rs)
  unfolding best_victim
  best_victim_lem i [] h = inl (refl, tt)
  best_victim_lem i (r ∷ rs) h = elim (Bool-cases (eligible t size r)) [
    | inl e ↦ inr (
      0,
      r,
      rw e (
          best_stays (i + 1) i r rs (eligible_free r e) h.1
          ∙ ap (λ (k : ℕ). some (k, r)) (omega arith)),
      (refl, e),
    )
    | inr n ↦ elim (best_victim_lem (i + 1) rs h.1) [
      | inl k ↦ inl (rw n k.0, (n, k.1))
      | inr k ↦
          inr (suc k.0, k.1, rw n (k.2 ∙ ap (λ (l : ℕ). some (l, k.1)) (omega arith)), (n, k.3))
    ]
  ]

pub LastIs-get :
    (p : Register → Bool) (rs : List Register) (j : ℕ) (r : Register)
    → LastIs p rs j r
    → (get_elem? rs j ≡ some r) × (p r ≡ true)
LastIs-get p [] j r h = absurd h
LastIs-get p (s ∷ rs) zero r h = (ap some h.0, h.1)
LastIs-get p (s ∷ rs) (suc j) r h = LastIs-get p rs j r h

pub FirstIs-get :
    (p : Register → Bool) (rs : List Register) (j : ℕ) (r : Register)
    → FirstIs p rs j r
    → (get_elem? rs j ≡ some r) × (p r ≡ true)
FirstIs-get p [] j r h = absurd h
FirstIs-get p (s ∷ rs) zero r h = (ap some h.0, h.1)
FirstIs-get p (s ∷ rs) (suc j) r h = FirstIs-get p rs j r h.1

pub NoneIs-get :
    (p : Register → Bool) (rs : List Register) (j : ℕ) (r : Register)
    → NoneIs p rs
    → get_elem? rs j ≡ some r
    → p r ≡ false
NoneIs-get p [] j r h e = cc
NoneIs-get p (s ∷ rs) zero r h e = ground (arith, h.0)
NoneIs-get p (s ∷ rs) (suc j) r h e = NoneIs-get p rs j r h.1 e
