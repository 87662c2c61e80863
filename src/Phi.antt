-- ===== src/Phi.antt =====
-- codegen/codegen.go: computePhi, the copies that each edge of the control flow needs for phis. Of the
-- blocks of go/ssa the model keeps the index, the indices of the predecessors and the phis with the
-- values of their edges; phiInfo is a function of the two block indices.
pub mod Edges
pub mod Malformed
use gensimd.Common.{
  ℕ, suc, Bool, ◌&&◌, List, [], ◌∷◌, ◌++◌, Option, none, some, Result, ok, ice, ◌>>=◌,
  if◌then◌else◌, ◌==◌, get_elem?,
}

pub record PhiInstr : Type 0 where
  pub id : ℕ
  pub edges : List ℕ

pub data BlockInstr : Type 0 where
  phi : PhiInstr → BlockInstr
  other : BlockInstr

pub record PhiBlock : Type 0 where
  pub index : ℕ
  pub preds : List ℕ
  pub instrs : List BlockInstr

-- The value of an edge, and the phi that takes it.
pub record PhiCopy : Type 0 where
  pub value : ℕ
  pub target : ℕ

abbrev pub PhiInfo : Type 0
PhiInfo = ℕ → ℕ → List PhiCopy

abbrev pub no_info : PhiInfo
no_info p b = []

-- The two maps, of which the inner one is made when it is missing.
abbrev pub append_info : PhiInfo → ℕ → ℕ → PhiCopy → PhiInfo
append_info info pred block entry p b =
    if (p == pred) && (b == block) then info p b ++ entry ∷ [] else info p b

-- The edges from number `i` on.
unfoldable pub compute_edges : PhiInfo → ℕ → List ℕ → ℕ → ℕ → List ℕ → Result PhiInfo
compute_edges info block preds id i [] = ok info
compute_edges info block preds id i (edge ∷ rest) = elim (get_elem? preds i) [
  | none ↦ ice
  | some pred ↦
      compute_edges (append_info info pred block record { value = edge; target = id }) block preds
        id (suc i) rest
]

unfoldable pub compute_phi_instr : PhiInfo → PhiBlock → PhiInstr → Result PhiInfo
unfolding compute_edges
compute_phi_instr info block instr =
    compute_edges info block.index block.preds instr.id 0 instr.edges

unfoldable pub compute_basic_block_phi : PhiInfo → PhiBlock → List BlockInstr → Result PhiInfo
unfolding compute_phi_instr
compute_basic_block_phi info block [] = ok info
compute_basic_block_phi info block (phi instr ∷ rest) =
    compute_phi_instr info block instr >>= λ info'. compute_basic_block_phi info' block rest
compute_basic_block_phi info block (other ∷ rest) = compute_basic_block_phi info block rest

unfoldable pub compute_phi : PhiInfo → List PhiBlock → Result PhiInfo
unfolding compute_basic_block_phi
compute_phi info [] = ok info
compute_phi info (block ∷ rest) =
    compute_basic_block_phi info block block.instrs >>= λ info'. compute_phi info' rest
