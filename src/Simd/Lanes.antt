-- ===== src/Simd/Lanes.antt =====
-- simd/simd_common.go: what each lane of a result is, and the operations that undo others.
use gensimd.Common.{
  ℕ, zero, suc, ◌+◌, ◌*◌, ◌/◌, ◌%◌, ◌^◌, ◌<◌, ◌≤◌, ◌≡◌, refl, sym, ap, ◌∙◌, ◌≢◌, ◌⊎◌, inl, inr,
  List, [], ◌∷◌, arith, get_or, set, replicate, length, length-set, length-replicate,
}
use gensimd.Simd.{
  fill, for_lanes, Width, modulus, add_lane, sub_lane, add, sub, shl_64x2, shr_64x2, shuffle_32x4,
  choose,
}

-- A vector of `n` lanes that fit the width.
pub record Vector (w : Width) (n : ℕ) (x : List ℕ) : Type 0 where
  pub lanes : length x ≡ n
  pub fits : (i : ℕ) → i < n → get_or x i 0 < modulus w

get_or-set_self {ℓ} :
    {A : Type ℓ} (xs : List A) (i : ℕ) (v d : A) → i < length xs → get_or (set xs i v) i d ≡ v
get_or-set_self [] i v d h = elim h [ ]
get_or-set_self (x ∷ xs) zero v d h = refl
get_or-set_self (x ∷ xs) (suc i) v d h = get_or-set_self xs i v d (omega arith)

get_or-set_ne {ℓ} :
    {A : Type ℓ} (xs : List A) (i j : ℕ) (v d : A) → i ≢ j → get_or (set xs i v) j d ≡ get_or xs j d
get_or-set_ne [] i j v d h = refl
get_or-set_ne (x ∷ xs) zero zero v d h = absurd (h refl)
get_or-set_ne (x ∷ xs) zero (suc j) v d h = refl
get_or-set_ne (x ∷ xs) (suc i) zero v d h = refl
get_or-set_ne (x ∷ xs) (suc i) (suc j) v d h = get_or-set_ne xs i j v d (λ e. h (ap suc e))

module _ {ℓ} {A : Type ℓ} (d : A) (g : ℕ → A) where
  length-fill :
      (n i : ℕ) (body : ℕ → List A → A) (val : List A) → length (fill n i body val) ≡ length val
  unfolding fill
  length-fill zero i body val = refl
  length-fill (suc n) i body val =
      length-fill n (suc i) body (set val i (body i val)) ∙ length-set val i (body i val)

  -- The lanes before the loop's index keep what they have.
  fill-before :
      (n i j : ℕ) (val : List A) → j < i → get_or (fill n i (λ k _. g k) val) j d ≡ get_or val j d
  unfolding fill
  fill-before zero i j val h = refl
  fill-before (suc n) i j val h =
      fill-before n (suc i) j (set val i (g i)) (omega arith)
      ∙ get_or-set_ne val i j (g i) d (omega arith)

  fill-at :
      (n i j : ℕ) (val : List A)
      → i ≤ j
      → j < i + n
      → i + n ≤ length val
      → get_or (fill n i (λ k _. g k) val) j d ≡ g j
  unfolding fill
  fill-at zero i j val h k l = absurd (omega arith)
  fill-at (suc n) i j val h k l = elim (split i j h) [
    | inl e ↦
        fill-before n (suc i) j (set val i (g i)) (omega arith)
        ∙ ap (λ (x : ℕ). get_or (set val i (g i)) x d) (sym e)
        ∙ get_or-set_self val i (g i) d (omega arith)
        ∙ ap g e
    | inr e ↦
        fill-at n (suc i) j (set val i (g i)) e (omega arith)
          (omega (arith, length-set val i (g i)))
  ]
    where
      split : (i j : ℕ) → i ≤ j → (i ≡ j) ⊎ (suc i ≤ j)
      split i j h = omega arith

  -- The loop over the lanes gives each lane its value.
  pub for_lanes-at : (n j : ℕ) → j < n → get_or (for_lanes n d (λ k _. g k)) j d ≡ g j
  unfolding for_lanes
  for_lanes-at n j h =
      fill-at n 0 j (replicate n d) (omega arith) (omega arith)
        (omega (arith, length-replicate n d))

  pub length-for_lanes : (n : ℕ) → length (for_lanes n d (λ k _. g k)) ≡ n
  unfolding for_lanes
  length-for_lanes n = length-fill n 0 (λ k _. g k) (replicate n d) ∙ length-replicate n d

-- Two vectors with the same lanes.
pub by_lanes {ℓ} :
    {A : Type ℓ} (d : A) (xs ys : List A)
    → length xs ≡ length ys
    → ((i : ℕ) → i < length xs → get_or xs i d ≡ get_or ys i d)
    → xs ≡ ys
by_lanes d [] [] e h = refl
by_lanes d [] (y ∷ ys) e h = absurd (omega arith)
by_lanes d (x ∷ xs) [] e h = absurd (omega arith)
by_lanes d (x ∷ xs) (y ∷ ys) e h =
    cc (h 0 (omega arith), by_lanes d xs ys (omega arith) (λ i l. h (suc i) (omega arith)))

sub_lane-add_lane :
    (w : Width) (a b : ℕ) → a < modulus w → b < modulus w → sub_lane w (add_lane w a b) b ≡ a
sub_lane-add_lane Width.w8 a b h k = omega arith
sub_lane-add_lane Width.w16 a b h k = omega arith
sub_lane-add_lane Width.w32 a b h k = omega arith
sub_lane-add_lane Width.w64 a b h k = omega arith

-- Subtracting the vector that was added gives the first vector back, at every width and number of
-- lanes, sums that wrap around included.
pub sub-add :
    (w : Width) (n : ℕ) (x y : List ℕ) → Vector w n x → Vector w n y → sub w n (add w n x y) y ≡ x
unfolding sub add
sub-add w n x y vx vy =
    by_lanes 0 (sub w n (add w n x y) y) x
      (length-for_lanes 0 (λ i. sub_lane w (get_or (add w n x y) i 0) (get_or y i 0)) n
        ∙ sym vx.lanes)
      (λ i h. at i (
        omega (
          arith,
          length-for_lanes 0 (λ i. sub_lane w (get_or (add w n x y) i 0) (get_or y i 0)) n,
        )))
  where
    at : (i : ℕ) → i < n → get_or (sub w n (add w n x y) y) i 0 ≡ get_or x i 0
    at i h =
        for_lanes-at 0 (λ i. sub_lane w (get_or (add w n x y) i 0) (get_or y i 0)) n i h
        ∙ ap (λ (a : ℕ). sub_lane w a (get_or y i 0))
            (for_lanes-at 0 (λ i. add_lane w (get_or x i 0) (get_or y i 0)) n i h)
        ∙ sub_lane-add_lane w (get_or x i 0) (get_or y i 0) (vx.fits i h) (vy.fits i h)

choose_lem : (x : List ℕ) (k v : ℕ) → k < 4 → choose x k v ≡ get_or x k 0
choose_lem x zero v h = refl
choose_lem x (suc zero) v h = refl
choose_lem x (suc (suc zero)) v h = refl
choose_lem x (suc (suc (suc zero))) v h = refl
choose_lem x (suc (suc (suc (suc k)))) v h = absurd (omega arith)

-- Lane i of a shuffled vector is the lane of `x` that bits 2i and 2i + 1 of the order name, for each
-- of the four lanes.
pub shuffle_lem :
    (x : List ℕ) (order i : ℕ)
    → i < 4
    → get_or (shuffle_32x4 x order) i 0 ≡ get_or x (order / 4 ^ i % 4) 0
unfolding shuffle_32x4 for_lanes fill
shuffle_lem x order zero h = choose_lem x (order / 1 % 4) 0 (omega arith)
shuffle_lem x order (suc zero) h = choose_lem x (order / 4 % 4) 0 (omega arith)
shuffle_lem x order (suc (suc zero)) h = choose_lem x (order / 16 % 4) 0 (omega arith)
shuffle_lem x order (suc (suc (suc zero))) h = choose_lem x (order / 64 % 4) 0 (omega arith)
shuffle_lem x order (suc (suc (suc (suc i)))) h = absurd (omega arith)

zero_mul : (b : ℕ) → 0 * b % 18446744073709551616 ≡ 0
zero_mul b = omega arith

zero_div : (b : ℕ) → 0 / b ≡ 0
zero_div zero = refl
zero_div (suc b) = omega arith

-- The 64-bit shifts give the zero vector, whatever they are given to shift and by how much: they
-- read the lanes of their result, not those of their argument.
pub shift_64x2-zero :
    (x shift : ℕ) → (shl_64x2 x shift ≡ 0 ∷ 0 ∷ []) × (shr_64x2 x shift ≡ 0 ∷ 0 ∷ [])
unfolding shl_64x2 shr_64x2 for_lanes fill
shift_64x2-zero x shift = (rw (zero_mul (2 ^ shift)), rw (zero_div (2 ^ shift)))
