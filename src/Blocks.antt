-- ===== src/Blocks.antt =====
-- codegen/codegen.go: the translation of each SSA instruction, of the blocks and of a function.
pub mod Rejected
use gensimd.Common.{
  ℕ, ◌+◌, ◌%◌, ◌^◌, Bool, true, false, not, ◌&&◌, ◌||◌, List, [], ◌∷◌, ◌++◌, Option, none, some,
  String, Result, ok, fault, ice, panics, unsupported, if◌then◌else◌,
}
use gensimd.Common.Int.{ℤ, pos, sub_ℕ}
use gensimd.Region.{Region}
use gensimd.Reg.{Register, get_register}
use gensimd.Reg.Names.{reg_sp, reg_fp}
use gensimd.Types.{
  GoType, basic, BasicKind, bool, int, int8, int16, int32, int64, uint, uint8, uint16, uint32,
  uint64, float32, float64, complex64, complex128, other_kind, sizeof, align, is_simd, is_sse2,
}
use gensimd.Function.{
  Function, Identifier, Location, Storer, memory, constant, is_const, is_param, is_ret_ident,
  ret_name, ident_size,
}
use gensimd.State.{Asm, block, label, M, pure, ◌>>=◌, ◌>>◌, lift, or_nil}
use gensimd.Storage.{get_ident}
use gensimd.Alloc.{spill_non_block_registers}
use gensimd.Load.Constant.{Const}
use gensimd.Emit.Arith.{Token}
use gensimd.Phi.{PhiInfo, no_info, PhiBlock, compute_phi}
use gensimd.Frame.{Layout, reserved, align_frame, ret_offset}
use gensimd.Zero.{zero_memory}
use gensimd.Translate.{bin_op}
use gensimd.Copy.{store_instr, return_instr}
use gensimd.Flow.{Site, jump_instr, if_instr}
use gensimd.Pointers.{UnToken, un_op, index_addr, alloc_instr}
use gensimd.Conversions.{convert_instr}
use gensimd.Intrinsics.{Call, call_instr}

-- The instructions that are always an error.
pub data Unsupported : Type 0 where
  change_interface change_type defer extract field field_addr go_instr lookup : Unsupported
  make_chan make_closure make_interface make_map make_slice map_update next : Unsupported
  panic_instr range select_instr run_defers send type_assert slice_instr unknown : Unsupported

-- The instructions of go/ssa, with the identifiers of their operands.
pub data SsaOp : Type 0 where
  alloc : Bool → SsaOp
  binary : Token → ℕ → ℕ → SsaOp
  call : Call → SsaOp
  convert : ℕ → SsaOp
  debug_ref index phi : SsaOp
  if_op : Option Site → ℕ → SsaOp
  index_of : ℕ → ℕ → SsaOp
  jump_op : Option Site → SsaOp
  return_op : List ℕ → SsaOp
  store : ℕ → ℕ → SsaOp
  unary : UnToken → ℕ → SsaOp
  other : Unsupported → SsaOp

-- An instruction, where it stands, and the identifier of its value.
pub record Step : Type 0 where
  pub loc : Option Location
  pub value : ℕ
  pub op : SsaOp

pub record CodeBlock : Type 0 where
  pub index : ℕ
  pub steps : List Step

abbrev pub last_step : List Step → Result Step
last_step [] = fault panics
last_step (s ∷ []) = ok s
last_step (s ∷ t ∷ rest) = last_step (t ∷ rest)

-- `result` is the identifier of the function's result.
module _ (consts : ℕ → Const) (same_type : ℕ → ℕ → Bool) (later : Bool) (result : ℕ)
    (info : PhiInfo) where
  unfoldable pub instr : Step → M Asm
  unfolding alloc_instr bin_op call_instr convert_instr if_instr index_addr jump_instr return_instr
      store_instr un_op
  instr s = elim s.op [
    | alloc heap ↦ alloc_instr heap s.value
    | binary token x y ↦ bin_op consts s.loc token s.value x y
    | call c ↦ call_instr consts same_type later s.loc c s.value
    | convert x ↦ convert_instr consts s.loc s.value x
    | debug_ref ↦ pure []
    | index ↦ lift (fault panics)
    | phi ↦ pure []
    | if_op here cond ↦ if_instr consts info s.loc here cond
    | index_of x i ↦ index_addr consts s.loc s.value x i
    | jump_op here ↦ jump_instr consts info s.loc here
    | return_op results ↦ return_instr consts s.loc result results
    | store addr val ↦ store_instr consts s.loc val addr
    | unary token x ↦ un_op consts s.loc token s.value x
    | other u ↦ lift unsupported
  ]

  unfoldable pub instrs : List Step → M Asm
  unfolding instr
  instrs [] = pure []
  instrs (s ∷ ss) = do a ← instr s; rest ← instrs ss; pure (a ++ rest)

  -- The code of the last spills is dropped.
  unfoldable pub basic_block : CodeBlock → M Asm
  unfolding instrs spill_non_block_registers
  basic_block b = do
    a ← instrs b.steps
    last ← lift (last_step b.steps)
    dropped ← spill_non_block_registers (Step.loc last)
    pure (label (block b.index) ∷ a)

  unfoldable pub basic_blocks : List CodeBlock → M Asm
  unfolding basic_block
  basic_blocks [] = pure []
  basic_blocks (b ∷ bs) = do a ← basic_block b; rest ← basic_blocks bs; pure (a ++ rest)

-- `initStorage` for an identifier that is none of a constant, a parameter or another.
unfoldable pub init_storage : Identifier → Result Storer
unfolding ident_size
init_storage ident =
    if is_const ident
    then ok (constant [])
    else if is_param ident
    then elim (ident_size ident) [
      | ok size ↦ ok (memory [] (record { offset = 0; size = size } ∷ []))
      | fault e ↦ fault e
    ]
    else ok (memory [] [])

unfoldable pub supported_kind : BasicKind → Bool
supported_kind bool = true
supported_kind int = true
supported_kind int8 = true
supported_kind int16 = true
supported_kind int32 = true
supported_kind int64 = true
supported_kind uint = true
supported_kind uint8 = true
supported_kind uint16 = true
supported_kind uint32 = true
supported_kind uint64 = true
supported_kind float32 = true
supported_kind float64 = true
supported_kind complex64 = false
supported_kind complex128 = false
supported_kind other_kind = false

unfoldable pub supported_param : GoType → Bool
unfolding supported_kind
supported_param (basic k) = supported_kind k
supported_param t = true
