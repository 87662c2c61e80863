-- ===== src/Copy/Chunks.antt =====
-- StoreValAddr: which bytes of a value its chunks hold.
use gensimd.Common.{
  ℕ, zero, suc, ◌-◌, Bool-cases, inl, inr, ◌+◌, ◌*◌, ◌%◌, ◌<◌, ◌≤◌, ◌≡◌, ◌↔◌, ◌⊎◌, Bool, true,
  false, ◌||◌, ◌==◌, arith,
}
use gensimd.Copy.{chunk_width, chunk_count, chunk_at, uneven_size}

-- The sizes whose chunks are even.
abbrev pub whole_chunks : ℕ → Bool
whole_chunks size = (size == 1) || ((size == 2) || ((size == 4) || (size % 8 == 0)))

chunks_cover : (size : ℕ) → whole_chunks size ≡ true → chunk_count size * chunk_width size ≡ size
unfolding chunk_count chunk_width
chunks_cover size h = ground arith

chunks_miss :
    (size : ℕ)
    → uneven_size size ≡ false
    → whole_chunks size ≡ false
    → chunk_count size * chunk_width size < size
unfolding chunk_count chunk_width
chunks_miss size u h = ground arith

-- The chunk in which byte `b` of a value lies.
abbrev pub Covered : ℕ → ℕ → Type 0
Covered size b =
    (i : ℕ) × (i < chunk_count size)
    × ((chunk_at (chunk_width size) i).offset ≤ b)
    × (b < (chunk_at (chunk_width size) i).offset + chunk_width size)

chunk_of : (n w b : ℕ) → b < n * w → (i : ℕ) × (i < n) × (i * w ≤ b) × (b < i * w + w)
chunk_of zero w b h = absurd (omega arith)
chunk_of (suc n) w b h = elim (split b w) [
  | inl l ↦ (0, omega arith, omega arith, omega (arith, l))
  | inr g ↦
      let rest = chunk_of n w (b - w) (omega (arith, g)) in
      (suc rest.0, omega (arith, rest.1), omega (arith, rest.2, g), omega (arith, rest.3, g))
]
  where
    split : (a c : ℕ) → (a < c) ⊎ (c ≤ a)
    split a c = omega arith

chunk_below : (n w i : ℕ) → i < n → i * w + w ≤ n * w
chunk_below zero w i h = absurd (omega arith)
chunk_below (suc n) w zero h = omega arith
chunk_below (suc n) w (suc i) h = omega (arith, chunk_below n w i (omega arith))

-- For every size that StoreValAddr accepts, its chunks hold each byte of the value exactly for the
-- sizes one, two, four and the multiples of eight.
pub chunks_iff :
    (size : ℕ)
    → uneven_size size ≡ false
    → ((b : ℕ) → b < size → Covered size b) ↔ (whole_chunks size ≡ true)
chunks_iff size u = (
  λ all. elim (Bool-cases (whole_chunks size)) [
    | inl h ↦ h
    | inr n ↦
        let b = all (chunk_count size * chunk_width size) (chunks_miss size u n) in
        absurd (omega (arith, chunk_below (chunk_count size) (chunk_width size) b.0 b.1, b.3))
  ],
  λ h b l. chunk_of (chunk_count size) (chunk_width size) b (omega (arith, chunks_cover size h, l)),
)
