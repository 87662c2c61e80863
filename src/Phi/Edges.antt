-- ===== src/Phi/Edges.antt =====
-- The entries of phiInfo against the phis of the blocks.
use mathlib.Core.Path.{subst}
use mathlib.Core.List.{append_assoc, append-nil}
use gensimd.Common.{
  ℕ, zero, suc, ◌+◌, ◌<◌, ◌≤◌, ◌≡◌, refl, sym, ap, ◌∙◌, Bool, true, ◌&&◌, List, [], ◌∷◌, ◌++◌, none,
  some, Result, ok, ice, ◌>>=◌, Returns, if◌then◌else◌, ◌==◌, leb, get_elem?, length, arith,
}
use gensimd.Phi.{
  BlockInstr, phi, other, PhiBlock, PhiCopy, PhiInfo, no_info, append_info, compute_edges,
  compute_phi_instr, compute_basic_block_phi, compute_phi,
}

-- The values that a phi takes from the predecessor `p`, in the order of its edges.
abbrev pub taken_from : ℕ → ℕ → List ℕ → List ℕ → List PhiCopy
taken_from p id preds [] = []
taken_from p id [] (edge ∷ edges) = []
taken_from p id (pred ∷ preds) (edge ∷ edges) =
    let rest = taken_from p id preds edges in
    if p == pred then record { value = edge; target = id } ∷ rest else rest

abbrev pub phi_copies : ℕ → List ℕ → List BlockInstr → List PhiCopy
phi_copies p preds [] = []
phi_copies p preds (phi instr ∷ rest) =
    taken_from p instr.id preds instr.edges ++ phi_copies p preds rest
phi_copies p preds (other ∷ rest) = phi_copies p preds rest

-- The copies that the edge from `p` to `b` needs: those of all phis of the block, in their order.
abbrev pub edge_copies : ℕ → ℕ → List PhiBlock → List PhiCopy
edge_copies p b [] = []
edge_copies p b (block ∷ rest) =
    (if b == block.index then phi_copies p block.preds block.instrs else []) ++ edge_copies p b rest

-- No phi has more edges than its block has predecessors.
abbrev pub phis_match : List ℕ → List BlockInstr → Bool
phis_match preds [] = true
phis_match preds (phi instr ∷ rest) =
    leb (length instr.edges) (length preds) && phis_match preds rest
phis_match preds (other ∷ rest) = phis_match preds rest

abbrev pub blocks_match : List PhiBlock → Bool
blocks_match [] = true
blocks_match (block ∷ rest) = phis_match block.preds block.instrs && blocks_match rest

abbrev pub drop : ℕ → List ℕ → List ℕ
drop zero xs = xs
drop (suc n) [] = []
drop (suc n) (x ∷ xs) = drop n xs

-- `info` after entries of one block were appended.
abbrev pub grown : PhiInfo → ℕ → (ℕ → List PhiCopy) → PhiInfo
grown info block more p b = if b == block then info p b ++ more p else info p b

drop_step :
    (i : ℕ) (preds : List ℕ) (pred : ℕ)
    → get_elem? preds i ≡ some pred
    → drop i preds ≡ pred ∷ drop (suc i) preds
drop_step i [] pred h = cc
drop_step zero (x ∷ xs) pred h = ground arith
drop_step (suc i) (x ∷ xs) pred h = drop_step i xs pred h

found_at :
    (preds : List ℕ) (i : ℕ) → i < length preds → (pred : ℕ) × (get_elem? preds i ≡ some pred)
found_at [] i h = ground arith
found_at (x ∷ xs) zero h = (x, refl)
found_at (x ∷ xs) (suc i) h = found_at xs i (omega (arith, h))

-- Appending one entry, and then those of later edges.
grown-append :
    (info : PhiInfo) (block pred : ℕ) (id edge : ℕ) (preds rest : List ℕ) (p b : ℕ)
    → grown
        (append_info info pred block record { value = edge; target = id })
        block
        (λ q. taken_from q id preds rest)
        p
        b
      ≡ grown info block (λ q. taken_from q id (pred ∷ preds) (edge ∷ rest)) p b
grown-append info block pred id edge preds rest p b = ground (
  arith,
  append_assoc (info p b) (record { value = edge; target = id } ∷ []) (taken_from p id preds rest),
)

grown-nil : (info : PhiInfo) (block p b : ℕ) → info p b ≡ grown info block (λ q. []) p b
grown-nil info block p b = ground (arith, append-nil (info p b))

-- What a run over the edges appends.
pub compute_edges_lem :
    (info : PhiInfo) (block : ℕ) (preds : List ℕ) (id i : ℕ) (edges : List ℕ)
    → i + length edges ≤ length preds
    → (info' : PhiInfo) × (compute_edges info block preds id i edges ≡ ok info')
      × ((p b : ℕ) → info' p b ≡ grown info block (λ q. taken_from q id (drop i preds) edges) p b)
unfolding compute_edges
compute_edges_lem info block preds id i [] h = (info, refl, λ p b. grown-nil info block p b)
compute_edges_lem info block preds id i (edge ∷ rest) h =
    let found = found_at preds i (omega (arith, h)) in
    let next : PhiInfo = append_info info found.0 block record { value = edge; target = id } in
    let ih = compute_edges_lem next block preds id (suc i) rest (omega (arith, h)) in
    (
      ih.0,
      ap
            (λ o. elim o [
              | none ↦ ice
              | some pred ↦
                  compute_edges (append_info info pred block record { value = edge; target = id })
                    block preds id (suc i) rest
            ])
            found.1
          ∙ ih.1,
      λ p b.
          ih.2 p b
          ∙ grown-append info block found.0 id edge (drop (suc i) preds) rest p b
          ∙ ap (λ ps. grown info block (λ q. taken_from q id ps (edge ∷ rest)) p b)
              (sym (drop_step i preds found.0 found.1)),
    )

-- Appending twice to the entries of one block.
grown-grown :
    (info info' : PhiInfo) (block : ℕ) (first second : ℕ → List PhiCopy) (p b : ℕ)
    → info' p b ≡ grown info block first p b
    → grown info' block second p b ≡ grown info block (λ q. first q ++ second q) p b
grown-grown info info' block first second p b h =
    ground (arith, h, append_assoc (info p b) (first p) (second p))

pub compute_basic_block_phi_lem :
    (info : PhiInfo) (block : PhiBlock) (instrs : List BlockInstr)
    → phis_match block.preds instrs ≡ true
    → (info' : PhiInfo) × (compute_basic_block_phi info block instrs ≡ ok info')
      × ((p b : ℕ) → info' p b ≡ grown info block.index (λ q. phi_copies q block.preds instrs) p b)
unfolding compute_basic_block_phi compute_phi_instr
compute_basic_block_phi_lem info block [] h = (info, refl, λ p b. grown-nil info block.index p b)
compute_basic_block_phi_lem info block (other ∷ rest) h =
    compute_basic_block_phi_lem info block rest h
compute_basic_block_phi_lem info block (phi instr ∷ rest) h =
    let one =
      compute_edges_lem info block.index block.preds instr.id 0 instr.edges (ground (arith, h)) in
    let all = compute_basic_block_phi_lem one.0 block rest (ground (arith, h)) in
    (
      all.0,
      ap (λ (r : Result PhiInfo). r >>= λ info'. compute_basic_block_phi info' block rest) one.1
          ∙ all.1,
      λ p b.
          all.2 p b
          ∙ grown-grown info one.0 block.index (λ q. taken_from q instr.id block.preds instr.edges)
              (λ q. phi_copies q block.preds rest) p b (one.2 p b),
    )

compute_phi_from :
    (info : PhiInfo) (blocks : List PhiBlock)
    → blocks_match blocks ≡ true
    → (info' : PhiInfo) × (compute_phi info blocks ≡ ok info')
      × ((p b : ℕ) → info' p b ≡ info p b ++ edge_copies p b blocks)
unfolding compute_phi
compute_phi_from info [] h = (info, refl, λ p b. sym (append-nil (info p b)))
compute_phi_from info (block ∷ rest) h =
    let one = compute_basic_block_phi_lem info block block.instrs (ground (arith, h)) in
    let all = compute_phi_from one.0 rest (ground (arith, h)) in
    (
      all.0,
      ap (λ (r : Result PhiInfo). r >>= λ info'. compute_phi info' rest) one.1 ∙ all.1,
      λ p b.
          all.2 p b
          ∙ ground (
            arith,
            one.2 p b,
            append_assoc (info p b) (phi_copies p block.preds block.instrs) (edge_copies p b rest),
          ),
    )

-- Where no phi has more edges than its block has predecessors, computePhi returns, and phiInfo for an
-- edge of the control flow holds one copy for each phi of the block that it leads to and each edge value
-- that comes by it, in the order of the phis, and nothing else.
pub compute_phi_lem :
    (blocks : List PhiBlock)
    → blocks_match blocks ≡ true
    → Returns (compute_phi no_info blocks) (λ info. (p b : ℕ) → info p b ≡ edge_copies p b blocks)
compute_phi_lem blocks h =
    let c = compute_phi_from no_info blocks h in
    subst
      (λ (res : Result PhiInfo).
        Returns res (λ info. (p b : ℕ) → info p b ≡ edge_copies p b blocks))
      (sym c.1) c.2
