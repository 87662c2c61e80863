-- ===== src/Function.antt =====
-- The state of code generation: codegen/codegen.go's Function, codegen/identifier.go's identifier
-- and codegen/storage.go's storers. Identifiers are numbered, and a storer has the number of its
-- owner, so a register's parent pointer is a number. Of jmpLabels the model keeps the length. Of an SSA instruction the model keeps what
-- the code reads: its identity, its operands and whether it is a return.
use text.Mathlib.Text.{◌==◌ as str_eq}
use gensimd.Common.{
  ℕ, Bool, true, false, not, ◌&&◌, ◌||◌, List, Option, none, some, String, Result, if◌then◌else◌,
  ◌==◌,
}
use gensimd.Common.Int.{ℤ}
use gensimd.Region.{Region}
use gensimd.Reg.{Register, RegType, data_reg, xmm_reg}
use gensimd.Types.{GoType, sizeof}
use gensimd.Types.Operand.{is_xmm}

pub record Operand : Type 0 where
  pub value : ℕ
  pub name : String

pub record SsaInstr : Type 0 where
  pub id : ℕ
  pub operands : List (Option Operand)
  pub is_return : Bool

pub record BasicBlock : Type 0 where
  pub index : ℕ
  pub instrs : List SsaInstr

-- An instruction, with the block that it stands in.
pub record Location : Type 0 where
  pub block : Option BasicBlock
  pub instr : ℕ

pub record Alias : Type 0 where
  pub dst : ℕ
  pub region : Region

pub data Storer : Type 0 where
  memory : List Alias → List Region → Storer
  constant : List Alias → Storer

-- The SSA values behind an identifier, by their identity.
pub record Identifier : Type 0 where
  pub name : String
  pub typ : GoType
  pub offset : ℤ
  pub local : Option ℕ
  pub param : Option ℕ
  pub cnst : Option ℕ
  pub value : Option ℕ
  pub value_is_phi : Bool
  pub spilling : Bool
  pub ptr : Option ℕ

pub record Function : Type 0 where
  pub optimize : Bool
  pub registers : List Register
  pub identifiers : ℕ → Identifier
  pub storage : ℕ → Storer
  pub blocks : List BasicBlock
  pub jmp_labels : ℕ

abbrev pub aliases_of : Storer → List Alias
aliases_of (memory aliases regions) = aliases
aliases_of (constant aliases) = aliases

abbrev pub with_aliases : Storer → List Alias → Storer
with_aliases (memory old regions) aliases = memory aliases regions
with_aliases (constant old) aliases = constant aliases

abbrev pub update {ℓ} : {A : Type ℓ} → (ℕ → A) → ℕ → A → ℕ → A
update f i a j = if i == j then a else f j

abbrev is_some : Option ℕ → Bool
is_some none = false
is_some (some v) = true

abbrev or_else : Option ℕ → Option ℕ → Option ℕ
or_else none b = b
or_else (some a) b = some a

-- The methods of identifier.
unfoldable pub ssa_value : Identifier → Option ℕ
ssa_value ident = or_else ident.cnst (or_else ident.local (or_else ident.param ident.value))

abbrev pub is_ssa_local : Identifier → Bool
is_ssa_local ident = is_some ident.local

abbrev pub is_param : Identifier → Bool
is_param ident = is_some ident.param

abbrev pub is_const : Identifier → Bool
is_const ident = is_some ident.cnst

abbrev pub ret_name : String
ret_name = "ret0"

unfoldable pub is_ret_ident : Identifier → Bool
is_ret_ident ident = str_eq ident.name ret_name

-- The value of `ssaValue` is a phi only if no other field comes before it.
unfoldable pub is_phi : Identifier → Bool
is_phi ident =
    ident.value_is_phi && not (is_some ident.cnst || (is_some ident.local || is_some ident.param))

unfoldable pub ident_size : Identifier → Result ℕ
unfolding sizeof
ident_size ident = sizeof ident.typ

-- `regType` of sizeinfo.go.
unfoldable pub reg_type : GoType → RegType
unfolding is_xmm
reg_type t = if is_xmm t then xmm_reg else data_reg
