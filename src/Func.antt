-- ===== src/Func.antt =====
-- codegen/codegen.go: Func, which puts the parts of a function together.
pub mod Rejected
use gensimd.Common.{
  ℕ, ◌+◌, ◌-◌, ◌%◌, ◌^◌, Bool, true, false, not, ◌&&◌, ◌||◌, List, [], ◌∷◌, ◌++◌, Option, none,
  some, String, Result, ok, fault, ice, panics, unsupported, if◌then◌else◌,
}
use gensimd.Common.Int.{ℤ, pos, sub_ℕ}
use gensimd.Reg.{Register, get_register}
use gensimd.Reg.Names.{reg_sp, reg_fp}
use gensimd.Types.{GoType, sizeof, align, is_simd, is_sse2}
use gensimd.Function.{Function, Identifier, is_const, is_param, is_ret_ident, ret_name, ident_size}
use gensimd.State.{Asm, M, pure, ◌>>=◌, ◌>>◌, lift, or_nil}
use gensimd.Storage.{get_ident}
use gensimd.Load.Constant.{Const}
use gensimd.Phi.{no_info, PhiBlock, compute_phi}
use gensimd.Frame.{Layout, reserved, align_frame, params_size, ret_offset}
use gensimd.Zero.{zero_memory}
use gensimd.Translate.{size_of}
use gensimd.Blocks.{CodeBlock, basic_blocks, supported_param}

pub record SsaLocal : Type 0 where
  pub heap : Bool
  pub name : String
  pub typ : GoType

-- What go/ssa says of a function, and the identifiers of its values, parameters, locals and result.
pub record SsaFunction : Type 0 where
  pub name : String
  pub params : List GoType
  pub locals : List SsaLocal
  pub results : List GoType
  pub phis : List PhiBlock
  pub blocks : List CodeBlock
  pub idents : List ℕ
  pub result : ℕ

-- The TEXT line, with the sizes of the frame and of the arguments, and the code.
pub record Text : Type 0 where
  pub name : String
  pub frame_size : ℕ
  pub args_size : ℕ
  pub code : Asm

unfoldable pub check_params : List GoType → Result (Unit {0})
unfolding supported_param
check_params [] = ok tt
check_params (t ∷ ts) =
    let rest = check_params ts in if supported_param t then rest else unsupported

unfoldable pub layout_of : GoType → Result Layout
unfolding sizeof align
layout_of t = elim (sizeof t) [
  | fault e ↦ fault e
  | ok size ↦ elim (align t) [ fault e ↦ fault e | ok a ↦ ok record { size = size; align = a } ]
]

abbrev cons_layout : Result Layout → Result (List Layout) → Result (List Layout)
cons_layout (fault e) rest = fault e
cons_layout (ok l) (fault e) = fault e
cons_layout (ok l) (ok ls) = ok (l ∷ ls)

unfoldable pub layouts_of : List GoType → Result (List Layout)
unfolding layout_of
layouts_of [] = ok []
layouts_of (t ∷ ts) = cons_layout (layout_of t) (layouts_of ts)

-- The nil type of a function without a result has no size.
unfoldable pub ret_type : List GoType → Result GoType
ret_type [] = ice
ret_type (t ∷ []) = ok t
ret_type (t ∷ u ∷ rest) = fault panics

-- The result's type is one of the simd or sse2 package.
abbrev vector_type : GoType → Bool
vector_type t = is_simd t || is_sse2 t

unfoldable pub zero_ret_value : GoType → Layout → List Layout → Result Asm
unfolding is_simd is_sse2 ret_offset get_register zero_memory
zero_ret_value t ret ps = elim (or_nil (get_register reg_fp)) [
  | fault e ↦ fault e
  | ok fp ↦ zero_memory ret_name (pos (ret_offset (vector_type t) ret ps)) (Layout.size ret) fp
]

abbrev pub append_code : Result Asm → Result Asm → Result Asm
append_code (fault e) rest = fault e
append_code (ok a) (fault e) = fault e
append_code (ok a) (ok b) = ok (a ++ b)

-- The code of `ZeroSsaLocals`, for the locals from `offset` on.
unfoldable pub zero_local : ℕ → SsaLocal → Layout → Result Asm
unfolding get_register zero_memory
zero_local offset l t = elim (or_nil (get_register reg_sp)) [
  | fault e ↦ fault e
  | ok sp ↦ zero_memory l.name (sub_ℕ 0 (offset + t.size)) t.size sp
]

unfoldable pub zero_locals : ℕ → List SsaLocal → Result Asm
unfolding layout_of zero_local
zero_locals offset [] = ok []
zero_locals offset (l ∷ ls) = if l.heap then unsupported else elim (layout_of l.typ) [
  | fault e ↦ fault e
  | ok t ↦ append_code (zero_local offset l t) (zero_locals (offset + reserved t) ls)
]

abbrev in_frame : Identifier → Bool
in_frame ident = not (is_const ident) && (not (is_param ident) && not (is_ret_ident ident))

-- `localIdentsSize`, in 32 bits.
unfoldable pub locals_size : List ℕ → M ℕ
unfolding is_ret_ident size_of
locals_size [] = pure 0
locals_size (m ∷ ms) = do
  ident ← get_ident m
  size ← (if in_frame ident then size_of m else pure 0)
  rest ← locals_size ms
  pure ((size + rest) % 2 ^ 32)

module _ (consts : ℕ → Const) (same_type : ℕ → ℕ → Bool) (later : Bool) where
  unfoldable pub func : SsaFunction → M Text
  unfolding check_params ret_type layout_of layouts_of zero_ret_value zero_locals compute_phi
      basic_blocks locals_size align_frame is_simd is_sse2 ret_offset
  func s = do
    _ ← lift (check_params s.params)
    t ← lift (ret_type s.results)
    ret ← lift (layout_of t)
    ps ← lift (layouts_of s.params)
    zero_ret ← lift (zero_ret_value t ret ps)
    zeroed ← lift (zero_locals 0 s.locals)
    info ← lift (compute_phi no_info s.phis)
    code ← basic_blocks consts same_type later s.result info s.blocks
    frame ← locals_size s.idents
    pure record {
      name = s.name;
      frame_size = align_frame frame % 2 ^ 32;
      args_size = ret_offset (vector_type t) ret ps + Layout.size ret;
      code = zero_ret ++ zeroed ++ code;
    }
