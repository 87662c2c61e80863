-- ===== src/Phi/Malformed.antt =====
-- computePhi where a phi has an edge without a predecessor.
use gensimd.Common.{
  ℕ, zero, suc, ◌+◌, ◌<◌, ◌≤◌, ◌≡◌, refl, ap, ◌∙◌, inl, inr, false, List, [], ◌∷◌, some, Result,
  ice, ◌>>=◌, leb, get_elem?, length, arith, Bool-cases, Option-cases,
}
use gensimd.Phi.{
  BlockInstr, phi, other, PhiBlock, PhiInfo, no_info, append_info, compute_edges, compute_phi_instr,
  compute_basic_block_phi, compute_phi,
}
use gensimd.Phi.Edges.{phis_match, blocks_match, compute_edges_lem, compute_basic_block_phi_lem}

in_range : (preds : List ℕ) (i pred : ℕ) → get_elem? preds i ≡ some pred → i < length preds
in_range [] i pred h = cc
in_range (x ∷ xs) zero pred h = omega arith
in_range (x ∷ xs) (suc i) pred h = omega (arith, in_range xs i pred h)

compute_edges-ice :
    (info : PhiInfo) (block : ℕ) (preds : List ℕ) (id i : ℕ) (edges : List ℕ)
    → i ≤ length preds
    → length preds < i + length edges
    → compute_edges info block preds id i edges ≡ ice
unfolding compute_edges
compute_edges-ice info block preds id i [] p h = ground arith
compute_edges-ice info block preds id i (edge ∷ rest) p h =
    elim (Option-cases (get_elem? preds i)) [
      | inl e ↦ rw (e, compute_edges) refl
      | inr (pred, e) ↦
          rw (e, compute_edges)
            (compute_edges-ice (append_info info pred block record { value = edge; target = id })
              block preds id (suc i) rest (omega (arith, in_range preds i pred e))
              (omega (arith, h)))
    ]

-- A fault of the first step is one of the whole.
first_ice : {A : Type 0} (r : Result A) (k : A → Result A) → r ≡ ice → (r >>= k) ≡ ice
first_ice r k h = rw h refl

compute_basic_block_phi-ice :
    (info : PhiInfo) (block : PhiBlock) (instrs : List BlockInstr)
    → phis_match block.preds instrs ≡ false
    → compute_basic_block_phi info block instrs ≡ ice
unfolding compute_basic_block_phi compute_phi_instr
compute_basic_block_phi-ice info block [] h = ground arith
compute_basic_block_phi-ice info block (other ∷ rest) h =
    compute_basic_block_phi-ice info block rest h
compute_basic_block_phi-ice info block (phi instr ∷ rest) h =
    elim (Bool-cases (leb (length instr.edges) (length block.preds))) [
      | inr e ↦
          first_ice (compute_phi_instr info block instr)
            (λ info'. compute_basic_block_phi info' block rest)
            (compute_edges-ice info block.index block.preds instr.id 0 instr.edges (omega arith)
              (ground (arith, e)))
      | inl e ↦
          let one =
            compute_edges_lem info block.index block.preds instr.id 0 instr.edges
              (ground (arith, e)) in
          ap (λ (r : Result PhiInfo). r >>= λ info'. compute_basic_block_phi info' block rest) one.1
          ∙ compute_basic_block_phi-ice one.0 block rest (ground (arith, h, e))
    ]

compute_phi_from-ice :
    (info : PhiInfo) (blocks : List PhiBlock)
    → blocks_match blocks ≡ false
    → compute_phi info blocks ≡ ice
unfolding compute_phi
compute_phi_from-ice info [] h = ground arith
compute_phi_from-ice info (block ∷ rest) h =
    elim (Bool-cases (phis_match block.preds block.instrs)) [
      | inr e ↦
          first_ice (compute_basic_block_phi info block block.instrs)
            (λ info'. compute_phi info' rest)
            (compute_basic_block_phi-ice info block block.instrs e)
      | inl e ↦
          let one = compute_basic_block_phi_lem info block block.instrs e in
          ap (λ (r : Result PhiInfo). r >>= λ info'. compute_phi info' rest) one.1
          ∙ compute_phi_from-ice one.0 rest (ground (arith, h, e))
    ]

-- Where some phi has more edges than its block has predecessors, computePhi ends in its internal error
-- for a malformed control flow.
pub compute_phi_error :
    (blocks : List PhiBlock) → blocks_match blocks ≡ false → compute_phi no_info blocks ≡ ice
compute_phi_error blocks h = compute_phi_from-ice no_info blocks h
