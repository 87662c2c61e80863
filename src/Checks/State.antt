-- ===== src/Checks/State.antt =====
-- A state of code generation with two registers: R8 caches a newer value of the parameter x, an
-- int64, and X0 holds nothing.
use gensimd.Common.{ℕ, zero, suc, ◌≡◌, refl, true, false, [], ◌∷◌, none, some, arith}
use gensimd.Common.Int.{pos}
use gensimd.Region.{Region}
use gensimd.Region.Disjoint.{apart}
use gensimd.Reg.{Register, data_reg, xmm_reg, quad_sizes, xmm_data_sizes}
use gensimd.Reg.Names.{reg_r8, reg_x0}
use gensimd.Types.{basic, bool, int64}
use gensimd.Types.Operand.{is_xmm, get_integer_op_data_type}
use gensimd.Instr.Select.{get_instr}
use gensimd.Function.{Function, Identifier, Alias, Storer, memory, aliases_of, ident_size}
use gensimd.Storage.{has_dst, clash}
use gensimd.Storage.Save.{Fits}
use gensimd.Storage.Invariant.{Inv, StorerGood, is_constant, parent_of}

abbrev pub r8 : Register
r8 = record {
  name = "R8";
  in_use = false;
  regconst = reg_r8;
  typ = data_reg;
  width = 64;
  datasizes = quad_sizes;
  dirty = true;
  parent = some 0;
}

abbrev pub x0 : Register
x0 = record {
  name = "X0";
  in_use = false;
  regconst = reg_x0;
  typ = xmm_reg;
  width = 128;
  datasizes = xmm_data_sizes;
  dirty = false;
  parent = none;
}

abbrev pub x : Identifier
x = record {
  name = "x";
  typ = basic int64;
  offset = pos 8;
  local = none;
  param = some 0;
  cnst = none;
  value = none;
  value_is_phi = false;
  spilling = false;
  ptr = none;
}

abbrev pub whole : Region
whole = record { offset = 0; size = 8 }

unfoldable pub x_fits : Fits x whole
unfolding ident_size is_xmm get_instr
x_fits = record {
  total = 8;
  has_size = refl;
  inside = omega arith;
  positive = omega arith;
  optype = get_integer_op_data_type false 8;
  has_type = refl;
  instr = "MOVQ";
  has_mov = refl;
}

-- Storer 0 is the memory of the identifier, of which R8 caches a region.
abbrev pub cached_as : Region → Alias
cached_as rgn = record { dst = 0; region = rgn }

abbrev pub in_r8 : Alias
in_r8 = cached_as whole

abbrev pub cached : Region → ℕ → Storer
cached rgn zero = memory (cached_as rgn ∷ []) []
cached rgn (suc m) = memory [] []

abbrev pub caching : Identifier → Region → Function
caching ident rgn = record {
  optimize = false;
  registers = r8 ∷ x0 ∷ [];
  identifiers = λ _. ident;
  storage = cached rgn;
  blocks = [];
  jmp_labels = 0;
}

abbrev pub state : Function
state = caching x whole

module _ (ident : Identifier) (rgn : Region) (fits : Fits ident rgn) where
  owned :
      (i m : ℕ)
      → has_dst i (aliases_of (cached rgn m)) ≡ true
      → parent_of (caching ident rgn) i ≡ some m
  owned zero zero h = refl
  owned (suc i) zero h = absurd (ground arith)
  owned i (suc m) h = absurd (ground arith)

  listed :
      (i m : ℕ)
      → parent_of (caching ident rgn) i ≡ some m
      → has_dst i (aliases_of (cached rgn m)) ≡ true
  listed zero zero h = refl
  listed zero (suc m) h = absurd (ground arith)
  listed (suc zero) m h = absurd (ground arith)
  listed (suc (suc i)) m h = absurd (ground arith)

  clear : (m : ℕ) → apart clash (aliases_of (cached rgn m)) ≡ true
  clear zero = refl
  clear (suc m) = refl

  good : (m : ℕ) → StorerGood ident (cached rgn m)
  good zero = (fits, tt, tt)
  good (suc m) = tt

  clean : (m : ℕ) → (is_constant (cached rgn m) ≡ true) → false ≡ true
  clean zero h = cc
  clean (suc m) h = cc

  pub caching-Inv : Inv (caching ident rgn)
  caching-Inv = record {
    owned = owned;
    listed = listed;
    clear = clear;
    good = good;
    clean = λ i m r h p c. absurd (cc (clean m c));
  }

pub state-Inv : Inv state
state-Inv = caching-Inv x whole x_fits

-- A truth value, in the low byte of R8.
abbrev pub flag : Identifier
flag = record x { typ = basic bool }

abbrev pub low_byte : Region
low_byte = record { offset = 0; size = 1 }

flag_fits : Fits flag low_byte
unfolding ident_size is_xmm get_instr
flag_fits = record {
  total = 1;
  has_size = refl;
  inside = omega arith;
  positive = omega arith;
  optype = get_integer_op_data_type false 1;
  has_type = refl;
  instr = "MOVB";
  has_mov = refl;
}

abbrev pub flagged : Function
flagged = caching flag low_byte

pub flagged-Inv : Inv flagged
flagged-Inv = caching-Inv flag low_byte flag_fits
