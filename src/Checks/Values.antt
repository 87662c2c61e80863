-- ===== src/Checks/Values.antt =====
-- The theorems on liveness, vectors and versions, at concrete values.
use gensimd.Common.{
  ℕ, ◌≡◌, refl, ◌↔◌, ◌<◌, ◌≤◌, ◌+◌, ◌%◌, List, [], ◌∷◌, none, some, ok, arith, zero, suc, true,
  false, get_or,
}
use gensimd.Common.Int.{negsuc}
use gensimd.Function.{SsaInstr, BasicBlock, Identifier, Function, ssa_value}
use gensimd.Liveness.{alive, alive_after, is_block_local}
use gensimd.Liveness.Uses.{alive_lem}
use gensimd.Types.{basic, int64, named}
use gensimd.Instr.Entry.{Instruction}
use gensimd.Instr.Forms.{i_pimul}
use gensimd.Packed.{get_simd_instr, simd_intrinsic_instr}
use gensimd.Packed.Table.{writes_right, simd_intrinsic_instr_lem}
use gensimd.Simd.{w8, add, sub}
use gensimd.Simd.Lanes.{Vector, sub-add}
use gensimd.Frame.{
  Layout, zero_ssa_locals, new_idents, local_idents_size, align_frame, params_size, ret_offset,
}
use gensimd.Frame.Stack.{new_idents_lem, ret_offset_lem}
use gensimd.Zero.{zero_memory}
use gensimd.Zero.Cover.{Zeroes, zero_memory_lem}
use gensimd.Text.{codes, split, atoi, after_prefix}
use gensimd.Version.{GoVersion, cmp_go_version, Earlier}
use gensimd.Version.Parse.{v160, go_version, later_than_1_6}
use gensimd.Version.Reading.{ReleaseOf, later_than_1_6_iff}
use gensimd.Checks.State.{state, r8 as sp}

abbrev load : SsaInstr
load = record { id = 1; operands = []; is_return = false }

abbrev use_t0 : SsaInstr
use_t0 = record {
  id = 2;
  operands = some record { value = 7; name = "t0" } ∷ none ∷ [];
  is_return = false;
}

abbrev block : BasicBlock
block = record { index = 0; instrs = load ∷ use_t0 ∷ [] }

-- The value of instruction `load`, which the instruction behind it uses.
abbrev t0 : Identifier
t0 = record {
  name = "t0";
  typ = basic int64;
  offset = negsuc 7;
  local = none;
  param = none;
  cnst = none;
  value = some 7;
  value_is_phi = false;
  spilling = false;
  ptr = none;
}

abbrev body : Function
body = record state { blocks = block ∷ [] }

alive_lem_example :
    (alive body t0 (some record { block = some block; instr = 2 }) ≡ ok true)
    × (alive_after body t0 (some record { block = some block; instr = 2 }) ≡ ok false)
unfolding is_block_local ssa_value
alive_lem_example =
    alive_lem body t0 record { block = some block; instr = 2 } block 7 (load ∷ []) [] use_t0 refl
      refl refl refl refl refl

abbrev bytes : ℕ → List ℕ
bytes a = a ∷ 255 ∷ []

bytes-Vector : Vector w8 2 (bytes 200)
bytes-Vector = record { lanes = refl; fits = fits }
  where
    fits : (i : ℕ) → i < 2 → get_or (bytes 200) i 0 < 256
    fits zero h = omega arith
    fits (suc zero) h = omega arith
    fits (suc (suc i)) h = absurd (omega arith)

sub-add_example : sub w8 2 (add w8 2 (bytes 200) (bytes 200)) (bytes 200) ≡ bytes 200
sub-add_example = sub-add w8 2 (bytes 200) (bytes 200) bytes-Vector bytes-Vector

later_than_1_6_iff_example :
    (later_than_1_6 (codes "go1.6.2") ≡ true)
    ↔ ((v : GoVersion) × ReleaseOf (codes "go1.6.2") v × Earlier v160 v)
later_than_1_6_iff_example = later_than_1_6_iff (codes "go1.6.2")

patched : later_than_1_6 (codes "go1.6.2") ≡ true
unfolding later_than_1_6 cmp_go_version go_version atoi split after_prefix
patched = refl

-- The first release of a series has no patch number.
first_of_series : later_than_1_6 (codes "go1.7") ≡ false
unfolding later_than_1_6 cmp_go_version go_version atoi split after_prefix
first_of_series = refl

simd_intrinsic_instr_lem_example :
    (instr : Instruction) × (simd_intrinsic_instr i_pimul (named "I16x8") ≡ ok instr)
    × (writes_right instr ≡ true)
unfolding get_simd_instr
simd_intrinsic_instr_lem_example = simd_intrinsic_instr_lem 4 "MulI16x8" "I16x8" i_pimul refl refl

abbrev int64_layout : Layout
int64_layout = record { size = 8; align = 8 }

abbrev int8_layout : Layout
int8_layout = record { size = 1; align = 1 }

-- An SSA local of one byte, and a value of eight.
new_idents_lem_example : (1 + 8 ≤ 9) × (1 ≤ 1) × (9 < align_frame 9)
unfolding zero_ssa_locals new_idents local_idents_size
new_idents_lem_example =
    new_idents_lem (record { heap = false; layout = int8_layout } ∷ []) (int64_layout ∷ [])
      (record { depth = 1; size = 1 } ∷ []) 0 1 record { depth = 1; size = 1 }
      record { depth = 9; size = 8 } (omega arith, tt) (omega arith, tt) refl (omega arith) refl
      refl

ret_offset_lem_example :
    (params_size (int8_layout ∷ []) ≤ ret_offset false int64_layout (int8_layout ∷ []))
    × (ret_offset false int64_layout (int8_layout ∷ []) < params_size (int8_layout ∷ []) + 8)
    × (ret_offset false int64_layout (int8_layout ∷ []) % 8 ≡ 0)
ret_offset_lem_example = ret_offset_lem false int64_layout (int8_layout ∷ [])

-- Six bytes are three words.
zero_memory_lem_example : Zeroes "t0" (negsuc 5) 6 sp (zero_memory "t0" (negsuc 5) 6 sp)
zero_memory_lem_example = zero_memory_lem "t0" (negsuc 5) 6 sp
