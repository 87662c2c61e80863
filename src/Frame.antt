-- ===== src/Frame.antt =====
-- codegen/codegen.go: the layout of a function's frame. The locals lie below SP, the parameters and
-- the result above FP. Sizes and alignments are those that `sizeof` and `align` of sizeinfo.go give.
pub mod Stack
use gensimd.Common.{
  ℕ, ◌+◌, ◌-◌, ◌%◌, Bool, true, false, List, [], ◌∷◌, ◌++◌, Option, none, some, if◌then◌else◌, ltb,
  ◌==◌,
}

-- A type's size and alignment in bytes.
pub record Layout : Type 0 where
  pub size : ℕ
  pub align : ℕ

pub record Local : Type 0 where
  pub heap : Bool
  pub layout : Layout

-- An identifier's bytes: `depth` is minus its offset from SP.
pub record Slot : Type 0 where
  pub depth : ℕ
  pub size : ℕ

-- An identifier's bytes above FP.
pub record ParamSlot : Type 0 where
  pub offset : ℕ
  pub size : ℕ

-- The alignment, where it is larger than the size.
abbrev pub reserved : Layout → ℕ
reserved t = if ltb t.size t.align then t.align else t.size

abbrev pub local_slot : ℕ → Layout → Slot
local_slot offset t = record { depth = offset + t.size; size = t.size }

abbrev pub cons_slot : Slot → Option (List Slot) → Option (List Slot)
cons_slot s none = none
cons_slot s (some ss) = some (s ∷ ss)

-- `ZeroSsaLocals`, where a local on the heap is an error.
unfoldable pub zero_ssa_locals : ℕ → List Local → Option (List Slot)
zero_ssa_locals offset [] = some []
zero_ssa_locals offset (l ∷ ls) =
    let rest = zero_ssa_locals (offset + reserved l.layout) ls in
    if l.heap then none else cons_slot (local_slot offset l.layout) rest

-- The sum over the identifiers that are neither constants, parameters nor the result.
unfoldable pub local_idents_size : List Slot → ℕ
local_idents_size [] = 0
local_idents_size (s ∷ ss) = s.size + local_idents_size ss

unfoldable pub new_ident : List Slot → Layout → Slot
unfolding local_idents_size
new_ident slots t = record { depth = local_idents_size slots + reserved t; size = t.size }

-- `newIdent` for the values of a function, in turn.
unfoldable pub new_idents : List Slot → List Layout → List Slot
unfolding new_ident
new_idents slots [] = slots
new_idents slots (t ∷ ts) = new_idents (slots ++ new_ident slots t ∷ []) ts

-- `align`.
abbrev pub stack_alignment : ℕ
stack_alignment = 8

unfoldable pub align_frame : ℕ → ℕ
align_frame size = size + (stack_alignment - size % stack_alignment)

unfoldable pub params : ℕ → List Layout → List ParamSlot
params offset [] = []
params offset (t ∷ ts) = record { offset = offset; size = t.size } ∷ params (offset + reserved t) ts

unfoldable pub params_size : List Layout → ℕ
params_size [] = 0
params_size (t ∷ ts) = t.size + params_size ts

unfoldable pub ret_align : Layout → ℕ
ret_align t = if ltb t.align 8 then 8 else t.align

abbrev pub pad_to : ℕ → ℕ → ℕ
pad_to size padding = if padding == size then 0 else padding

-- `vector` is whether the result has a type of the simd or sse2 package.
unfoldable pub ret_offset : Bool → Layout → List Layout → ℕ
unfolding ret_align params_size
ret_offset vector t ts =
    let a = if vector then 8 else ret_align t in params_size ts + pad_to a (a - params_size ts % a)
