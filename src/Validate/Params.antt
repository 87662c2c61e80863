-- ===== src/Validate/Params.antt =====
-- validParams on parameters that share a field.
use gensimd.Common.{
  ℕ, zero, suc, ◌+◌, ◌<◌, ◌≤◌, ◌≡◌, refl, inl, inr, Bool, true, false, not, ◌||◌, List, [], ◌∷◌,
  some, ok, fault, ◌>>◌, ◌==◌, get_elem?, length, arith, Bool-cases, Option-cases, ==_iff, ap, ◌∙◌,
}
use gensimd.Validate.{Check, valid_param_type}
use gensimd.Validate.File.{Field, one_name, params_from, valid_params}

abbrev pub passes : Check → Bool
passes (ok u) = true
passes (fault e) = false

-- A field without a name or with more than one.
abbrev pub grouped : List Field → Bool
grouped [] = false
grouped (p ∷ ps) = not (p.names == 1) || grouped ps

grouped-get :
    (fs : List Field)
    → grouped fs ≡ true
    → (j : ℕ) × (p : Field) × (j < length fs) × (get_elem? fs j ≡ some p) × ((p.names == 1) ≡ false)
grouped-get [] h = cc
grouped-get (p ∷ ps) h = elim (Bool-cases (p.names == 1)) [
  | inr e ↦ (0, p, omega arith, refl, e)
  | inl e ↦
      let rest = grouped-get ps (ground (arith, h, e)) in
      (suc rest.0, rest.1, omega (arith, rest.2), rest.3, rest.4)
]

last-fails : (c d : Check) → passes d ≡ false → passes (c >> d) ≡ false
last-fails (ok u) d h = h
last-fails (fault e) d h = refl

module _ (num_fields : List Field → ℕ) (n : ℕ) where
  from-fails :
      (fs : List Field) (count i j : ℕ) (p : Field)
      → i ≤ j
      → j < i + count
      → get_elem? fs j ≡ some p
      → (p.names == 1) ≡ false
      → passes (params_from num_fields n fs i count) ≡ false
  unfolding params_from
  from-fails fs zero i j p a b e h = absurd (omega arith)
  from-fails fs (suc count) i j p a b e h = elim (Bool-cases (i == j)) [
    | inl s ↦
        let here : get_elem? fs i ≡ some p = ap (get_elem? fs) ((==_iff i j).0 s) ∙ e in
        rw (params_from, here, h) refl
    | inr s ↦ elim (Option-cases (get_elem? fs i)) [
      | inl none_there ↦ rw (params_from, none_there) refl
      | inr (q, there) ↦
          rw (params_from, there)
            (last-fails (one_name num_fields n q) _ (
              last-fails (valid_param_type n q.typ) (params_from num_fields n fs (suc i) count)
                (from-fails fs count (suc i) j p (ground (arith, s)) (omega arith) e h)))
    ]
  ]

  -- Where NumFields counts at least one for each field, validParams passes no parameters of which some
  -- field has no name or more than one.
  pub valid_params_error :
      (fs : List Field)
      → length fs ≤ num_fields fs
      → grouped fs ≡ true
      → passes (valid_params num_fields n fs) ≡ false
  unfolding valid_params
  valid_params_error [] l h = cc
  valid_params_error (p ∷ ps) l h =
      let g = grouped-get (p ∷ ps) h in
      from-fails (p ∷ ps) (num_fields (p ∷ ps)) 0 g.0 g.1 (omega arith) (omega (arith, l, g.2)) g.3
        g.4
