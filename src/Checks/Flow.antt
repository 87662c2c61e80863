-- ===== src/Checks/Flow.antt =====
-- A loop whose header has two phis that exchange their values, and a phi with an edge too many.
use gensimd.Common.{ℕ, ◌≡◌, refl, List, [], ◌∷◌, Returns}
use gensimd.Phi.{phi, other, PhiBlock, PhiCopy, no_info, compute_phi}
use gensimd.Phi.Edges.{edge_copies, compute_phi_lem}

abbrev header : PhiBlock
header = record {
  index = 1;
  preds = 0 ∷ 2 ∷ [];
  instrs =
      phi record { id = 10; edges = 5 ∷ 11 ∷ [] }
      ∷ phi record { id = 11; edges = 6 ∷ 10 ∷ [] }
      ∷ other
      ∷ [];
}

abbrev loop : List PhiBlock
loop =
    record { index = 0; preds = []; instrs = other ∷ [] }
    ∷ header
    ∷ record { index = 2; preds = 1 ∷ []; instrs = [] }
    ∷ []

abbrev swap : List PhiCopy
swap = record { value = 11; target = 10 } ∷ record { value = 10; target = 11 } ∷ []

back_edge_copies : edge_copies 2 1 loop ≡ swap
back_edge_copies = refl

abbrev broken : List PhiBlock
broken = record header { preds = 0 ∷ [] } ∷ []

compute_phi_lem_example :
    Returns (compute_phi no_info loop) (λ info. (p b : ℕ) → info p b ≡ edge_copies p b loop)
compute_phi_lem_example = compute_phi_lem loop refl
