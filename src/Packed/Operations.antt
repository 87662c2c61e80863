-- ===== src/Packed/Operations.antt =====
-- codegen/simdintrinsics.go: the code of the packed operations.
use text.Mathlib.Text.{◌==◌ as str_eq}
use gensimd.Common.{
  ℕ, zero, suc, ◌+◌, ◌%◌, ◌^◌, Bool, true, false, not, ◌||◌, [], ◌∷◌, ◌++◌, Option, none, some,
  if◌then◌else◌, ◌==◌,
}
use gensimd.Common.Int.{pos}
use gensimd.Reg.{Register, data_reg, xmm_reg, same_type, reg_size, xmm_reg_size}
use gensimd.Types.{XmmData, OpDataType, op_packed, op_xmm, xmm_f64, xmm_2x_f64}
use gensimd.Instr.Entry.{Instruction}
use gensimd.Instr.Forms.{InstructionType, i_psrl}
use gensimd.Function.{Function, Location, is_const}
use gensimd.State.{
  imm_reg, imm_reg_reg, Asm, M, pure, ◌>>=◌, ◌>>◌, lift, ice_when, read, get_reg, get_ref, RegRef,
  slot,
}
use gensimd.Alloc.{alloc_reg, free_reg}
use gensimd.Load.Constant.{Const}
use gensimd.Packed.{packed_instr}
use gensimd.Emit.Write.{flags_of, writes_right, modified, instr_reg_reg}
use gensimd.Emit.Move.{mov_reg_reg}
use gensimd.Emit.Logic.{shift_reg_reg, shift_right}
use gensimd.Translate.{load_whole, store_value}

unfoldable pub instr_imm8_reg : Option Location → Instruction → ℕ → RegRef → Bool → M Asm
unfolding flags_of modified
instr_imm8_reg loc instr imm8 dst spills = do
  flags ← lift (flags_of instr)
  ice_when (not (writes_right flags))
  asm ← modified loc spills dst
  d ← get_ref dst
  pure (asm ++ imm_reg instr (pos imm8) (Register.name d) ∷ [])

unfoldable pub instr_imm8_reg_reg :
    Option Location → Instruction → ℕ → RegRef → RegRef → Bool → M Asm
unfolding flags_of modified
instr_imm8_reg_reg loc instr imm8 src dst spills = do
  flags ← lift (flags_of instr)
  ice_when (not (writes_right flags))
  asm ← modified loc spills dst
  s ← get_ref src
  d ← get_ref dst
  pure (asm ++ imm_reg_reg instr (pos imm8) (Register.name s) (Register.name d) ∷ [])

-- A packed move, for which MovRegReg looks at the registers only.
abbrev pub packed_type : OpDataType
packed_type = record { op = op_packed; size = 0; signed = false; xmmvariant = xmm_2x_f64 }

module _ (consts : ℕ → Const) where
  unfoldable pub load_simd : Option Location → ℕ → M (Asm × ℕ)
  unfolding load_whole alloc_reg mov_reg_reg free_reg
  load_simd loc m = do
    found ← load_whole consts loc m
    r ← get_reg found.1
    if same_type (Register.typ r) xmm_reg then pure found else (do
      vector ← alloc_reg loc xmm_reg 16
      c ← mov_reg_reg loc (record packed_type { op = op_xmm }) (slot found.1) (slot vector.1) false
      free_reg found.1
      pure (found.0 ++ vector.0 ++ c, vector.1))

  -- `x`, `y` and `result` are identifiers.
  unfoldable pub packed_op : Option Location → InstructionType → XmmData → ℕ → ℕ → ℕ → M Asm
  unfolding packed_instr load_simd instr_reg_reg store_value free_reg
  packed_op loc instrtype optypes x y result = do
    instr ← lift (packed_instr instrtype optypes)
    a ← load_simd loc x
    b ← load_simd loc y
    c ← instr_reg_reg loc instr (slot a.1) (slot b.1) (not (result == y))
    d ← store_value loc result b.1
    free_reg a.1
    free_reg b.1
    pure (a.0 ++ b.0 ++ c ++ d)

  -- The products of the even lanes, and those of the odd ones, which are moved down by four bytes.
  unfoldable pub mul_i32x4 : Option Location → ℕ → ℕ → ℕ → M Asm
  unfolding alloc_reg load_simd mov_reg_reg instr_reg_reg instr_imm8_reg instr_imm8_reg_reg
      store_value free_reg
  mul_i32x4 loc x y result = do
    tmp1 ← alloc_reg loc xmm_reg 16
    a ← load_simd loc x
    b ← load_simd loc y
    c ← mov_reg_reg loc packed_type (slot b.1) (slot tmp1.1) false
    d ← instr_reg_reg loc "PMULULQ" (slot a.1) (slot tmp1.1) false
    e ← instr_imm8_reg loc "PSRLO" 4 (slot a.1) true
    rx ← get_reg a.1
    ry ← get_reg b.1
    g ←
        (if str_eq (Register.name ry) (Register.name rx)
          then pure []
          else instr_imm8_reg loc "PSRLO" 4 (slot b.1) true)
    tmp2 ← alloc_reg loc xmm_reg 16
    h ← mov_reg_reg loc packed_type (slot b.1) (slot tmp2.1) false
    k ← instr_reg_reg loc "PMULULQ" (slot a.1) (slot tmp2.1) false
    shuffle1 ← alloc_reg loc xmm_reg 16
    l ← instr_imm8_reg_reg loc "PSHUFD" 8 (slot tmp1.1) (slot shuffle1.1) false
    shuffle2 ← alloc_reg loc xmm_reg 16
    n ← instr_imm8_reg_reg loc "PSHUFD" 8 (slot tmp2.1) (slot shuffle2.1) false
    o ← instr_reg_reg loc "PUNPCKLLQ" (slot shuffle2.1) (slot shuffle1.1) false
    p ← store_value loc result shuffle1.1
    free_reg a.1
    free_reg b.1
    free_reg tmp1.1
    free_reg tmp2.1
    free_reg shuffle1.1
    free_reg shuffle2.1
    pure (
        tmp1.0 ++ a.0 ++ b.0 ++ c ++ d ++ e ++ g ++ tmp2.0 ++ h ++ k ++ shuffle1.0 ++ l
        ++ shuffle2.0 ++ n ++ o ++ p)

  -- Each word is moved to a data register and back; `n` of the eight words are left.
  unfoldable pub shift_words : ℕ → ℕ → Option Location → ℕ → ℕ → ℕ → ℕ → M Asm
  unfolding instr_imm8_reg_reg shift_reg_reg
  shift_words zero i loc reg count word tmp = pure []
  shift_words (suc n) i loc reg count word tmp = do
    a ← instr_imm8_reg_reg loc "PEXTRW" i (slot reg) (slot word) true
    w ← get_reg word
    b ← shift_reg_reg loc false shift_right (slot word) (slot count) (slot tmp) (reg_size w) true
    c ← instr_imm8_reg_reg loc "PINSRW" i (slot word) (slot reg) true
    d ← shift_words n (i + 1) loc reg count word tmp
    pure (a ++ b ++ c ++ d)

  -- `later` tells whether the Go version is known and later than 1.6 (Version/Parse).
  unfoldable pub shr_u16x8 : Bool → Option Location → ℕ → ℕ → ℕ → M Asm
  unfolding packed_op load_simd load_whole alloc_reg shift_words store_value
  shr_u16x8 true loc x count result = packed_op loc i_psrl xmm_f64 count x result
  shr_u16x8 false loc x count result = do
    found ← load_simd loc x
    a ← load_whole consts loc count
    r ← get_reg a.1
    ice_when (not (same_type (Register.typ r) data_reg))
    word ← alloc_reg loc data_reg 8
    tmp ← alloc_reg loc data_reg 8
    b ← shift_words 8 0 loc found.1 a.1 word.1 tmp.1
    c ← store_value loc result found.1
    pure (found.0 ++ a.0 ++ word.0 ++ tmp.0 ++ b ++ c)

  -- The parts of `shufU32x4` behind each step; the value `none` is an error message.
  unfoldable pub shuffle_into : Option Location → ℕ → ℕ → Asm × ℕ → Asm × ℕ → M (Option Asm)
  unfolding instr_imm8_reg_reg store_value free_reg
  shuffle_into loc imm8 result src dst = do
    a ← instr_imm8_reg_reg loc "PSHUFL" imm8 (slot src.1) (slot dst.1) false
    b ← store_value loc result dst.1
    free_reg dst.1
    pure (some (src.0 ++ dst.0 ++ a ++ b))

  -- The order is no constant, or not one of eight bits.
  unfoldable pub bad_order : ℕ → Function → Bool
  bad_order order f =
      not (is_const (f.identifiers order))
      || not (Const.uint64 (consts order) % 2 ^ 8 == Const.uint64 (consts order))

  unfoldable pub shuffle_by : Option Location → ℕ → ℕ → Asm × ℕ → M (Option Asm)
  unfolding alloc_reg shuffle_into bad_order
  shuffle_by loc result order src = do
    bad ← read (bad_order order)
    if bad
        then pure none
        else (alloc_reg loc xmm_reg xmm_reg_size >>= λ dst.
            shuffle_into loc (Const.uint64 (consts order)) result src dst)

  unfoldable pub shuf_u32x4 : Option Location → ℕ → ℕ → ℕ → M (Option Asm)
  unfolding load_simd shuffle_by
  shuf_u32x4 loc x result order = load_simd loc x >>= λ src. shuffle_by loc result order src
