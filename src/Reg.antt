-- ===== src/Reg.antt =====
-- codegen/reg.go: registers, their table, and those that the allocator leaves alone. The parent
-- of a register, a pointer to the storage that it caches, is the number of that storage.
pub mod Names
use text.Mathlib.Text.{◌==◌ as str_eq}
use gensimd.Common.{
  ℕ, ◌/◌, Bool, true, false, List, [], ◌∷◌, Option, none, some, String, if◌then◌else◌, ◌==◌,
}
use Names.{
  Reg, reg_al, reg_cl, reg_dl, reg_bl, reg_ax, reg_cx, reg_dx, reg_si, reg_di, reg_bx, reg_bp,
  reg_sp, reg_fp, reg_r8, reg_r9, reg_r10, reg_r11, reg_r12, reg_r13, reg_r14, reg_r15, reg_x0,
  reg_x1, reg_x2, reg_x3, reg_x4, reg_x5, reg_x6, reg_x7, reg_x8, reg_x9, reg_x10, reg_x11, reg_x12,
  reg_x13, reg_x14, reg_x15,
}

pub data RegType : Type 0 where
  invalid_reg data_reg sp_reg fp_reg xmm_reg : RegType

abbrev pub reg_type_iota : RegType → ℕ
reg_type_iota invalid_reg = 0
reg_type_iota data_reg = 1
reg_type_iota sp_reg = 2
reg_type_iota fp_reg = 3
reg_type_iota xmm_reg = 4

abbrev pub same_type : RegType → RegType → Bool
same_type t u = reg_type_iota t == reg_type_iota u

pub record Register : Type 0 where
  pub name : String
  pub in_use : Bool
  pub regconst : Reg
  pub typ : RegType
  pub width : ℕ
  pub datasizes : List ℕ
  pub dirty : Bool
  pub parent : Option ℕ

abbrev pub reg_size : Register → ℕ
reg_size r = r.width / 8

abbrev pub data_reg_size : ℕ
data_reg_size = 8

abbrev pub xmm_reg_size : ℕ
xmm_reg_size = 16

abbrev pub long_sizes : List ℕ
long_sizes = 1 ∷ 2 ∷ 4 ∷ []

abbrev pub quad_sizes : List ℕ
quad_sizes = 1 ∷ 2 ∷ 4 ∷ 8 ∷ []

abbrev pub quad_size : List ℕ
quad_size = 8 ∷ []

abbrev pub xmm_data_sizes : List ℕ
xmm_data_sizes = 1 ∷ 2 ∷ 4 ∷ 8 ∷ 16 ∷ []

abbrev new_register : String → Reg → RegType → ℕ → List ℕ → Register
new_register name regconst typ width datasizes = record {
  name = name;
  in_use = false;
  regconst = regconst;
  typ = typ;
  width = width;
  datasizes = datasizes;
  dirty = false;
  parent = none;
}

unfoldable pub registers : List Register
registers =
    new_register "AL" reg_al data_reg 32 long_sizes
    ∷ new_register "CL" reg_cl data_reg 32 long_sizes
    ∷ new_register "DL" reg_dl data_reg 32 long_sizes
    ∷ new_register "BL" reg_bl data_reg 32 long_sizes
    ∷ new_register "AX" reg_ax data_reg 64 quad_sizes
    ∷ new_register "CX" reg_cx data_reg 64 quad_sizes
    ∷ new_register "DX" reg_dx data_reg 64 quad_sizes
    ∷ new_register "SI" reg_si data_reg 64 quad_size
    ∷ new_register "DI" reg_di data_reg 64 quad_size
    ∷ new_register "BX" reg_bx data_reg 64 quad_size
    ∷ new_register "BP" reg_bp data_reg 64 quad_size
    ∷ new_register "SP" reg_sp sp_reg 64 quad_size
    ∷ new_register "FP" reg_fp fp_reg 64 quad_size
    ∷ new_register "R8" reg_r8 data_reg 64 quad_sizes
    ∷ new_register "R9" reg_r9 data_reg 64 quad_sizes
    ∷ new_register "R10" reg_r10 data_reg 64 quad_sizes
    ∷ new_register "R11" reg_r11 data_reg 64 quad_sizes
    ∷ new_register "R12" reg_r12 data_reg 64 quad_sizes
    ∷ new_register "R13" reg_r13 data_reg 64 quad_sizes
    ∷ new_register "R14" reg_r14 data_reg 64 quad_sizes
    ∷ new_register "R15" reg_r15 data_reg 64 quad_sizes
    ∷ new_register "X0" reg_x0 xmm_reg 128 xmm_data_sizes
    ∷ new_register "X1" reg_x1 xmm_reg 128 xmm_data_sizes
    ∷ new_register "X2" reg_x2 xmm_reg 128 xmm_data_sizes
    ∷ new_register "X3" reg_x3 xmm_reg 128 xmm_data_sizes
    ∷ new_register "X4" reg_x4 xmm_reg 128 xmm_data_sizes
    ∷ new_register "X5" reg_x5 xmm_reg 128 xmm_data_sizes
    ∷ new_register "X6" reg_x6 xmm_reg 128 xmm_data_sizes
    ∷ new_register "X7" reg_x7 xmm_reg 128 xmm_data_sizes
    ∷ new_register "X8" reg_x8 xmm_reg 128 xmm_data_sizes
    ∷ new_register "X9" reg_x9 xmm_reg 128 xmm_data_sizes
    ∷ new_register "X10" reg_x10 xmm_reg 128 xmm_data_sizes
    ∷ new_register "X11" reg_x11 xmm_reg 128 xmm_data_sizes
    ∷ new_register "X12" reg_x12 xmm_reg 128 xmm_data_sizes
    ∷ new_register "X13" reg_x13 xmm_reg 128 xmm_data_sizes
    ∷ new_register "X14" reg_x14 xmm_reg 128 xmm_data_sizes
    ∷ new_register "X15" reg_x15 xmm_reg 128 xmm_data_sizes
    ∷ []

unfoldable pub excluded_registers : List Register
excluded_registers =
    new_register "AL" reg_al data_reg 32 long_sizes
    ∷ new_register "BL" reg_al data_reg 32 long_sizes
    ∷ new_register "CL" reg_cl data_reg 32 long_sizes
    ∷ new_register "DL" reg_dl data_reg 32 long_sizes
    ∷ new_register "AX" reg_ax data_reg 64 quad_sizes
    ∷ new_register "CX" reg_cx data_reg 64 quad_sizes
    ∷ new_register "DX" reg_dx data_reg 64 quad_sizes
    ∷ new_register "SP" reg_sp sp_reg 64 quad_size
    ∷ new_register "FP" reg_fp fp_reg 64 quad_size
    ∷ []

unfoldable pub find_register : Reg → List Register → Option Register
find_register reg [] = none
find_register reg (r ∷ rs) = if r.regconst == reg then some r else find_register reg rs

unfoldable pub get_register : Reg → Option Register
unfolding find_register registers
get_register reg = find_register reg registers

unfoldable pub has_name : String → List Register → Bool
has_name name [] = false
has_name name (r ∷ rs) = if str_eq r.name name then true else has_name name rs

-- `excludeReg` of codegen.go.
unfoldable pub exclude_reg : Register → Bool
unfolding has_name excluded_registers
exclude_reg r = has_name r.name excluded_registers
