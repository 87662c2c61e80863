-- ===== src/Liveness.antt =====
-- codegen/liveness.go: whether an identifier is used at or after an instruction of its block.
pub mod Uses
use text.Mathlib.Text.{◌==◌ as str_eq}
use gensimd.Common.{
  ℕ, Bool, true, false, not, ◌&&◌, ◌||◌, List, [], ◌∷◌, Option, none, some, Result, ok, ice,
  if◌then◌else◌, ◌==◌, leb, length,
}
use gensimd.Function.{
  Operand, SsaInstr, BasicBlock, Location, Identifier, Function, ssa_value, is_ssa_local, is_param,
  is_phi, is_ret_ident,
}

abbrev names : Identifier → Option Operand → Bool
names ident none = false
names ident (some op) = str_eq (Operand.name op) ident.name

abbrev any_names : Identifier → List (Option Operand) → Bool
any_names ident [] = false
any_names ident (op ∷ ops) = names ident op || any_names ident ops

unfoldable pub instrs_name : Identifier → List SsaInstr → Bool
unfolding is_ret_ident
instrs_name ident [] = false
instrs_name ident (i ∷ is) =
    ((is_ret_ident ident && SsaInstr.is_return i) || any_names ident (SsaInstr.operands i))
    || instrs_name ident is

unfoldable pub in_block : Identifier → BasicBlock → Bool
unfolding instrs_name
in_block ident b = instrs_name ident b.instrs

unfoldable pub get_blocks : Identifier → List BasicBlock → List BasicBlock
unfolding in_block
get_blocks ident [] = []
get_blocks ident (b ∷ bs) =
    let rest = get_blocks ident bs in if in_block ident b then b ∷ rest else rest

unfoldable pub is_block_local : List BasicBlock → Identifier → Bool
unfolding is_phi is_ret_ident get_blocks
is_block_local blocks ident =
    if is_ssa_local ident || (is_param ident || (is_phi ident || is_ret_ident ident))
    then false
    else leb (length (get_blocks ident blocks)) 1

abbrev is_value : ℕ → Option Operand → Bool
is_value value none = false
is_value value (some op) = Operand.value op == value

abbrev pub uses : ℕ → List (Option Operand) → Bool
uses value [] = false
uses value (op ∷ ops) = is_value value op || uses value ops

-- The loop of `aliveTest` over the block, with its `start` flag.
unfoldable pub scan : ℕ → ℕ → Bool → Bool → List SsaInstr → Bool
scan value loc after start [] = false
scan value loc after start (i ∷ is) =
    let start' = start || (not after && (SsaInstr.id i == loc)) in
    (start' && uses value (SsaInstr.operands i))
    || scan value loc after (start' || (after && (SsaInstr.id i == loc))) is

unfoldable pub scan_block : Option ℕ → Location → Option BasicBlock → Bool → Result Bool
unfolding scan
scan_block value loc none after = ice
scan_block none loc (some b) after = ok true
scan_block (some value) loc (some b) after =
    ok (scan value (Location.instr loc) after false (BasicBlock.instrs b))

abbrev test_local : Option ℕ → Option Location → Bool → Result Bool
test_local value none after = ice
test_local value (some loc) after = scan_block value loc (Location.block loc) after

unfoldable pub alive_test : List BasicBlock → Identifier → Option Location → Bool → Result Bool
unfolding is_block_local ssa_value scan_block
alive_test blocks ident loc after =
    if is_block_local blocks ident then test_local (ssa_value ident) loc after else ok true

unfoldable pub alive : Function → Identifier → Option Location → Result Bool
unfolding alive_test
alive f ident loc = alive_test f.blocks ident loc false

unfoldable pub alive_after : Function → Identifier → Option Location → Result Bool
unfolding alive_test
alive_after f ident loc = alive_test f.blocks ident loc true
