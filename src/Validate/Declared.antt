-- ===== src/Validate/Declared.antt =====
-- The checks of types: where they return, and where an interface keeps them from it.
use gensimd.Common.{ℕ, zero, suc, ◌≡◌, refl, fault, out_of_fuel, unsupported}
use gensimd.Validate.{
  DeclType, basic, named, interface, other_type, pointer, slice, array, Check, result_kind,
  valid_result_type, valid_var_decl_type, valid_param_type,
}

-- What a type is built on decides: a basic kind is looked up, and an interface is never done with.
abbrev pub param_verdict : DeclType → Check
param_verdict (basic k) = result_kind k
param_verdict named = unsupported
param_verdict interface = fault out_of_fuel
param_verdict other_type = unsupported
param_verdict (pointer t) = param_verdict t
param_verdict (slice t) = param_verdict t
param_verdict (array t) = param_verdict t

interface_loops : (n : ℕ) → valid_var_decl_type n interface ≡ fault out_of_fuel
unfolding valid_var_decl_type
interface_loops zero = refl
interface_loops (suc n) = interface_loops n

-- One round of validVarDeclType is enough for validParamType on every type that is not built by
-- pointers, slices and arrays on an interface: it returns what the type at the bottom is worth. On an
-- interface there no number of rounds is enough.
pub valid_param_type_lem : (n : ℕ) (t : DeclType) → valid_param_type (suc n) t ≡ param_verdict t
unfolding valid_param_type valid_var_decl_type valid_result_type
valid_param_type_lem n (basic k) = refl
valid_param_type_lem n named = refl
valid_param_type_lem n interface = interface_loops n
valid_param_type_lem n other_type = refl
valid_param_type_lem n (pointer t) = valid_param_type_lem n t
valid_param_type_lem n (slice t) = valid_param_type_lem n t
valid_param_type_lem n (array t) = valid_param_type_lem n t
