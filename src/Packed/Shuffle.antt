-- ===== src/Packed/Shuffle.antt =====
-- shufU32x4, whose instruction has no entry in instrTable.
use gensimd.Common.{
  ℕ, if◌then◌else◌, ◌≡◌, refl, Bool, true, false, Option, none, some, Result, ok, fault, ice, arith,
}
use gensimd.Reg.{xmm_reg, xmm_reg_size}
use gensimd.Function.{Function, Location}
use gensimd.State.{Asm, M, ◌>>=◌, pure, RegRef, slot}
use gensimd.Load.Constant.{Const}
use gensimd.Alloc.{alloc_reg}
use gensimd.Emit.Write.{flags_of}
use gensimd.Packed.Operations.{
  instr_imm8_reg_reg, shuf_u32x4, load_simd, shuffle_into, shuffle_by, bad_order,
}

no_flags : flags_of "PSHUFL" ≡ ice
unfolding flags_of
no_flags = refl

shuffle_ice :
    (loc : Option Location) (imm8 : ℕ) (src dst : RegRef) (f : Function)
    → instr_imm8_reg_reg loc "PSHUFL" imm8 src dst false f ≡ ice
unfolding instr_imm8_reg_reg
shuffle_ice loc imm8 src dst f = ground (arith, no_flags)

-- No run of shufU32x4 returns code.
abbrev pub no_code : Result (Option Asm × Function) → Bool
no_code (fault e) = true
no_code (ok (none, f)) = true
no_code (ok (some asm, f)) = false

-- A first step changes nothing about that.
after_step :
    {A : Type 0} (res : Result (A × Function)) (k : A → M (Option Asm))
    → ((a : A) (g : Function) → no_code (k a g) ≡ true)
    → no_code (elim res [ ok (a, g) ↦ k a g | fault e ↦ fault e ]) ≡ true
after_step (ok (a, g)) k h = h a g
after_step (fault e) k h = refl

module _ (consts : ℕ → Const) (loc : Option Location) (x result order : ℕ) where
  shuffle_into-no_code :
      (src dst : Asm × ℕ) (f : Function)
      → no_code (shuffle_into consts loc (Const.uint64 (consts order)) result src dst f) ≡ true
  unfolding shuffle_into
  shuffle_into-no_code src dst f =
      ground (arith, shuffle_ice loc (Const.uint64 (consts order)) (slot src.1) (slot dst.1) f)

  shuffle_by-no_code :
      (src : Asm × ℕ) (f : Function) → no_code (shuffle_by consts loc result order src f) ≡ true
  unfolding shuffle_by
  shuffle_by-no_code src f = by_test (bad_order consts order f)
    where
      by_test :
          (b : Bool)
          → no_code (
              (if b
                  then pure none
                  else (alloc_reg loc xmm_reg xmm_reg_size >>= λ dst.
                      shuffle_into consts loc (Const.uint64 (consts order)) result src dst))
                f)
            ≡ true
      by_test true = refl
      by_test false =
          after_step (alloc_reg loc xmm_reg xmm_reg_size f)
            (λ dst. shuffle_into consts loc (Const.uint64 (consts order)) result src dst)
            (λ dst g. shuffle_into-no_code src dst g)

  -- From any state, shufU32x4 ends in an error message or a panic, whatever the order: where it is a
  -- constant of eight bits, instrTable has no entry for the instruction.
  pub shuf_u32x4_error : (f : Function) → no_code (shuf_u32x4 consts loc x result order f) ≡ true
  unfolding shuf_u32x4
  shuf_u32x4_error f =
      after_step (load_simd consts loc x f) (λ src. shuffle_by consts loc result order src)
        shuffle_by-no_code
