-- ===== src/Packed/Table.antt =====
-- codegen/simdintrinsics.go: the instructions of the packed operations, at the types that
-- simd/simd_common.go declares them at.
use mathlib.Core.Path.{subst}
use gensimd.Common.{
  arith, ℕ, zero, suc, get_elem?, ◌≡◌, refl, Bool, true, false, not, ◌&&◌, List, [], ◌∷◌, Option,
  none, some, String, Result, ok, fault,
}
use gensimd.Types.{named}
use gensimd.Instr.Entry.{Instruction}
use gensimd.Instr.Flags.{InstrInfo, has, left_rdwr, right_rdwr}
use gensimd.Instr.Table.{instr_table}
use gensimd.Instr.Forms.{InstructionType}
use gensimd.Packed.{get_simd_instr, simd_intrinsic_instr}

-- The functions of the simd package with the type of their first argument.
abbrev pub signatures : List (String × String)
signatures =
    ("AddI8x16", "I8x16")
    ∷ ("SubI8x16", "I8x16")
    ∷ ("AddI16x8", "I16x8")
    ∷ ("SubI16x8", "I16x8")
    ∷ ("MulI16x8", "I16x8")
    ∷ ("ShlI16x8", "I16x8")
    ∷ ("ShrI16x8", "I16x8")
    ∷ ("AddI32x4", "I32x4")
    ∷ ("SubI32x4", "I32x4")
    ∷ ("MulI32x4", "I32x4")
    ∷ ("ShlI32x4", "I32x4")
    ∷ ("ShrI32x4", "I32x4")
    ∷ ("ShuffleI32x4", "I32x4")
    ∷ ("AddI64x2", "I64x2")
    ∷ ("SubI64x2", "I64x2")
    ∷ ("AddU8x16", "U8x16")
    ∷ ("SubU8x16", "U8x16")
    ∷ ("AddU16x8", "U16x8")
    ∷ ("SubU16x8", "U16x8")
    ∷ ("MulU16x8", "U16x8")
    ∷ ("ShlU16x8", "U16x8")
    ∷ ("ShrU16x8", "U16x8")
    ∷ ("AddU32x4", "U32x4")
    ∷ ("SubU32x4", "U32x4")
    ∷ ("MulU32x4", "U32x4")
    ∷ ("ShlU32x4", "U32x4")
    ∷ ("ShrU32x4", "U32x4")
    ∷ ("ShuffleU32x4", "U32x4")
    ∷ ("AddU64x2", "U64x2")
    ∷ ("SubU64x2", "U64x2")
    ∷ ("AddF32x4", "F32x4")
    ∷ ("SubF32x4", "F32x4")
    ∷ ("MulF32x4", "F32x4")
    ∷ ("DivF32x4", "F32x4")
    ∷ ("AddF64x2", "F64x2")
    ∷ ("SubF64x2", "F64x2")
    ∷ ("MulF64x2", "F64x2")
    ∷ ("DivF64x2", "F64x2")
    ∷ []

abbrev only_right : Option InstrInfo → Bool
only_right none = false
only_right (some info) = has info.flags right_rdwr && not (has info.flags left_rdwr)

-- The instruction has an entry in `instrTable`, which changes its right operand and not its left.
unfoldable pub writes_right : Instruction → Bool
unfolding instr_table
writes_right instr = only_right (instr_table instr)

abbrev works : Result Instruction → Bool
works (ok instr) = writes_right instr
works (fault e) = false

abbrev translated : Option InstructionType → String → Bool
translated none typ = true
translated (some op) typ = works (simd_intrinsic_instr op (named typ))

abbrev all {ℓ} : {A : Type ℓ} → (A → Bool) → List A → Bool
all p [] = true
all p (x ∷ xs) = p x && all p xs

all-get_elem? {ℓ} :
    {A : Type ℓ} (p : A → Bool) (xs : List A) (i : ℕ) (x : A)
    → all p xs ≡ true
    → get_elem? xs i ≡ some x
    → p x ≡ true
all-get_elem? p [] i x h e = cc
all-get_elem? p (y ∷ ys) zero x h e = ground arith
all-get_elem? p (y ∷ ys) (suc i) x h e = all-get_elem? p ys i x (ground arith) e

signatures-translated :
    all (λ (s : String × String). translated (get_simd_instr s.0) s.1) signatures ≡ true
unfolding get_simd_instr simd_intrinsic_instr writes_right
signatures-translated = refl

chosen :
    (res : Result Instruction)
    → works res ≡ true
    → (instr : Instruction) × (res ≡ ok instr) × (writes_right instr ≡ true)
chosen (ok instr) h = (instr, refl, h)
chosen (fault b) h = cc

-- For each function of the simd package that has an entry in `simdToGoAsm`, and the type of its
-- argument, an instruction is selected; `instrTable` knows it, and it changes its right operand and
-- not its left.
pub simd_intrinsic_instr_lem :
    (i : ℕ) (name typ : String) (op : InstructionType)
    → get_elem? signatures i ≡ some (name, typ)
    → get_simd_instr name ≡ some op
    → (instr : Instruction) × (simd_intrinsic_instr op (named typ) ≡ ok instr)
      × (writes_right instr ≡ true)
simd_intrinsic_instr_lem i name typ op h e = chosen (simd_intrinsic_instr op (named typ)) (
    subst (λ (o : Option InstructionType). translated o typ ≡ true) e
      (all-get_elem? (λ (s : String × String). translated (get_simd_instr s.0) s.1) signatures i
        (name, typ) signatures-translated h))
