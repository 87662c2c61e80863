-- ===== src/Flow.antt =====
-- codegen/codegen.go: jumps between blocks. On the edge to a block its phis are set and every register
-- is spilled.
pub mod Jumps
use gensimd.Common.{ℕ, ◌%◌, List, [], ◌∷◌, ◌++◌, Option, none, some, ice, String}
use gensimd.Phi.{PhiInfo, PhiCopy}
use gensimd.Function.{Function, Location}
use gensimd.State.{Asm, Label, block, jump, M, pure, ◌>>=◌, ◌>>◌, lift, slot}
use gensimd.Alloc.{free_reg, spill_registers}
use gensimd.Load.Constant.{Const}
use gensimd.Emit.Compare.{cmp_reg_imm32}
use gensimd.Translate.{size_of, load_whole}
use gensimd.Copy.{store_val_addr, copy_and_spill}

-- What go/ssa says of the block that a jump stands in.
pub record Site : Type 0 where
  pub index : ℕ
  pub succs : List ℕ

unfoldable pub two_successors : List ℕ → Option (ℕ × ℕ)
two_successors [] = none
two_successors (a ∷ []) = none
two_successors (a ∷ b ∷ []) = some (a, b)
two_successors (a ∷ b ∷ c ∷ rest) = none

-- `info` is phiInfo, which computePhi has made before.
module _ (consts : ℕ → Const) (info : PhiInfo) where
  -- The loop over the phis of the edge.
  unfoldable pub copy_phis : Option Location → List PhiCopy → M Asm
  unfolding copy_and_spill store_val_addr
  copy_phis loc [] = pure []
  copy_phis loc (c ∷ cs) = do
    a ← copy_and_spill consts loc c.target (store_val_addr consts loc c.value c.target)
    rest ← copy_phis loc cs
    pure (a ++ rest)

  unfoldable pub jump_preamble : Option Location → ℕ → ℕ → M Asm
  unfolding copy_phis spill_registers
  jump_preamble loc from to = do
    a ← copy_phis loc (info from to)
    b ← spill_registers loc
    pure (a ++ b)

  unfoldable pub jump_instr : Option Location → Option Site → M Asm
  unfolding jump_preamble
  jump_instr loc none = lift ice
  jump_instr loc (some here) = elim here.succs [
    | [] ↦ lift ice
    | to ∷ more ↦ elim more [
      | [] ↦ jump_preamble loc here.index to >>= λ a. pure (a ++ jump "JMP" (block to) ∷ [])
      | other ∷ rest ↦ lift ice
    ]
  ]

  -- `If` with its two successors.
  unfoldable pub branch : Option Location → ℕ → ℕ → ℕ → ℕ → M Asm
  branch loc from cond if_true if_false = do
    found ← load_whole consts loc cond
    a ← jump_preamble loc from if_false
    size ← size_of cond
    b ← cmp_reg_imm32 loc (slot found.1) 0 size
    free_reg found.1
    c ← jump_preamble loc from if_true
    pure (
        found.0
        ++ a
        ++ b
        ++ (jump "JEQ" (block if_false) ∷ [])
        ++ c
        ++ jump "JMP" (block if_true) ∷ [])

  unfoldable pub if_instr : Option Location → Option Site → ℕ → M Asm
  unfolding branch two_successors
  if_instr loc none cond = lift ice
  if_instr loc (some here) cond = elim (two_successors here.succs) [
    | none ↦ lift ice
    | some (if_true, if_false) ↦ branch loc here.index cond if_true if_false
  ]
