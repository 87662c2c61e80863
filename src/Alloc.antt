-- ===== src/Alloc.antt =====
-- codegen/codegen.go: register allocation. A register is a slot of Function.registers; the debug
-- comments around a spill are left out.
pub mod Scan
pub mod Total
pub mod Flush
use gensimd.Common.{
  ℕ, zero, suc, length, ◌++◌, ◌+◌, Bool, true, false, not, ◌&&◌, ◌||◌, List, [], ◌∷◌, Option, none,
  some, Result, ok, ice, if◌then◌else◌, ◌==◌, leb,
}
use gensimd.Common.Int.{ℤ, pos, negsuc, ltb_ℤ}
use gensimd.Reg.{Register, RegType, same_type, exclude_reg}
use gensimd.Function.{Function, Location}
use gensimd.State.{Asm, M, pure, ◌>>=◌, ◌>>◌, lift, ice_when, read, get_reg, put_reg}
use gensimd.Liveness.{is_block_local}
use gensimd.Storage.{spill}

abbrev has_parent : Option ℕ → Bool
has_parent none = false
has_parent (some m) = true

abbrev pub has_size : ℕ → List ℕ → Bool
has_size size [] = false
has_size size (s ∷ ss) = (s == size) || has_size size ss

-- The tests of `chooseVictim`, and those of `allocUnusedReg`.
unfoldable pub eligible : RegType → ℕ → Register → Bool
eligible t size r =
    not (exclude_reg r) && (not r.in_use && (same_type r.typ t && has_size size r.datasizes))

unfoldable pub usable : RegType → ℕ → Register → Bool
usable t size r =
    not (exclude_reg r)
    && (not (r.in_use || has_parent r.parent) && (same_type r.typ t && has_size size r.datasizes))

-- The loop of `allocUnusedReg`: it breaks out of the sizes only, so the last fit is kept.
unfoldable pub last_usable : RegType → ℕ → ℕ → Option ℕ → List Register → Option ℕ
unfolding usable
last_usable t size i found [] = found
last_usable t size i found (r ∷ rs) =
    last_usable t size (i + 1) (if usable t size r then some i else found) rs

-- What an allocated register is set to.
abbrev pub taken : Register → Register
taken r = record r { in_use = true; dirty = false; parent = none }

abbrev pub take_reg : ℕ → M (Unit {0})
take_reg i = get_reg i >>= λ r. put_reg i (taken r)

abbrev take_found : Option ℕ → M (Option ℕ)
take_found none = pure none
take_found (some i) = take_reg i >>= λ _. pure (some i)

unfoldable pub alloc_unused_reg : RegType → ℕ → M (Option ℕ)
unfolding last_usable
alloc_unused_reg t size = do
  f ← read λ f. f
  take_found (last_usable t size 0 none (Function.registers f))

abbrev same_parent : Option ℕ → Option ℕ → Bool
same_parent none none = true
same_parent none (some m) = false
same_parent (some n) none = false
same_parent (some n) (some m) = n == m

unfoldable pub compare_victims : Register → Register → ℤ
compare_victims vic1 vic2 =
    if not vic1.in_use && vic2.in_use
    then pos 1
    else if vic1.in_use && not vic2.in_use
    then negsuc 0
    else if same_parent vic1.parent vic2.parent
    then pos 0
    else if has_parent vic1.parent
    then negsuc 0
    else pos 1

abbrev better : Register → Option (ℕ × Register) → Bool
better r none = true
better r (some (j, victim)) = ltb_ℤ (pos 0) (compare_victims r victim)

-- The loop of `chooseVictim`.
unfoldable pub best_victim :
    RegType → ℕ → ℕ → Option (ℕ × Register) → List Register → Option (ℕ × Register)
unfolding eligible compare_victims
best_victim t size i victim [] = victim
best_victim t size i victim (r ∷ rs) =
    best_victim t size (i + 1)
      (if eligible t size r && better r victim then some (i, r) else victim) rs

abbrev victim_or_ice : Option (ℕ × Register) → Result ℕ
victim_or_ice none = ice
victim_or_ice (some (i, r)) = ok i

unfoldable pub choose_victim : RegType → ℕ → M ℕ
unfolding best_victim
choose_victim t size = do
  f ← read λ f. f
  lift (victim_or_ice (best_victim t size 0 none (Function.registers f)))

abbrev pub reg_dead : Register → Bool
reg_dead r = not r.in_use && not (has_parent r.parent)

-- The part of `allocReg` for when no register is unused.
unfoldable pub take_victim : Option Location → RegType → ℕ → M (Asm × ℕ)
unfolding choose_victim spill
take_victim loc t size = do
  i ← choose_victim t size
  r ← get_reg i
  ice_when r.in_use
  asm ← (if reg_dead r then pure [] else spill loc i)
  take_reg i
  pure (asm, i)

unfoldable pub alloc_reg : Option Location → RegType → ℕ → M (Asm × ℕ)
unfolding alloc_unused_reg take_victim
alloc_reg loc t size = do
  unused ← alloc_unused_reg t size
  elim unused [ some i ↦ take_reg i >>= λ _. pure ([], i) | none ↦ take_victim loc t size ]

-- `allocTempReg` spills at no location, and returns an unused register as it is.
unfoldable pub alloc_temp_reg : RegType → ℕ → M (Asm × ℕ)
unfolding alloc_unused_reg choose_victim spill
alloc_temp_reg t size = do
  unused ← alloc_unused_reg t size
  elim unused [
    | some i ↦ pure ([], i)
    | none ↦ choose_victim t size >>= λ i. get_reg i >>= λ r.
        (if reg_dead r then pure [] else spill none i) >>= λ asm. take_reg i >>= λ _. pure (asm, i)
  ]

unfoldable pub free_reg : ℕ → M (Unit {0})
free_reg i = get_reg i >>= λ r. put_reg i (record r { in_use = false })

-- `spillRegisters` and `spillNonBlockRegisters` differ in the registers that they pass over.
abbrev pub Skip : Type 0
Skip = Function → Register → Bool

unfoldable pub spill_from : Skip → Option Location → ℕ → ℕ → M Asm
unfolding spill
spill_from skip loc i zero = pure []
spill_from skip loc i (suc n) = do
  r ← get_reg i
  skipped ← read λ f. skip f r
  asm ← (if skipped then pure [] else spill loc i)
  rest ← spill_from skip loc (i + 1) n
  pure (asm ++ rest)

abbrev pub skip_excluded : Skip
skip_excluded f r = exclude_reg r

abbrev pub parent_block_local : Function → Option ℕ → Bool
parent_block_local f none = false
parent_block_local f (some m) = is_block_local f.blocks (f.identifiers m)

abbrev pub skip_block_local : Skip
skip_block_local f r = exclude_reg r || parent_block_local f r.parent

unfoldable pub spill_registers : Option Location → M Asm
unfolding spill_from
spill_registers loc = do f ← read λ f. f; spill_from skip_excluded loc 0 (length f.registers)

unfoldable pub spill_non_block_registers : Option Location → M Asm
unfolding spill_from
spill_non_block_registers loc = do
  f ← read λ f. f
  spill_from skip_block_local loc 0 (length f.registers)
