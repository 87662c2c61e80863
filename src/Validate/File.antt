-- ===== src/Validate/File.antt =====
-- simd/parse.go: Valid, for the declarations of a file and the signatures of its functions.
use gensimd.Common.{
  ℕ, zero, suc, Bool, List, [], ◌∷◌, Option, none, some, fault, panics, nil_dereference,
  unsupported, ◌>>=◌, ◌>>◌, if◌then◌else◌, ◌==◌, get_elem?,
}
use gensimd.Validate.{
  Check, passed, on_error, DeclType, DeclToken, import, var, other_token, Stmt, valid_result_type,
  valid_var_decl_type, valid_param_type,
}
use gensimd.Validate.Body.{valid_func_body}

-- A field with the number of its names.
pub record Field : Type 0 where
  pub names : ℕ
  pub typ : DeclType

pub record FuncDecl : Type 0 where
  pub is_method : Bool
  pub params : List Field
  pub results : List Field
  pub body : Option (List Stmt)

pub data TopDecl : Type 0 where
  nil_decl other_top : TopDecl
  gen : DeclToken → TopDecl
  function : FuncDecl → TopDecl

-- `num_fields` is NumFields of go/ast; `n` is the fuel of the checks of types.
module _ (num_fields : List Field → ℕ) (n : ℕ) where
  abbrev pub one_name : Field → Check
  one_name p = if p.names == 1 then passed else fault panics

  -- The fields from number `i` on, of which `count` are looked at.
  unfoldable pub params_from : List Field → ℕ → ℕ → Check
  unfolding valid_param_type
  params_from fields i zero = passed
  params_from fields i (suc count) = elim (get_elem? fields i) [
    | none ↦ fault panics
    | some p ↦ one_name p >> (valid_param_type n p.typ >> params_from fields (suc i) count)
  ]

  unfoldable pub valid_params : List Field → Check
  unfolding params_from
  valid_params [] = passed
  valid_params (p ∷ ps) = params_from (p ∷ ps) 0 (num_fields (p ∷ ps))

  -- The text of the error says whether the type is one for variables or parameters.
  unfoldable pub valid_result : Field → Check
  unfolding valid_result_type valid_var_decl_type valid_param_type
  valid_result r =
      if r.names == 0
      then on_error (valid_result_type r.typ)
          (on_error (valid_var_decl_type n r.typ) (valid_param_type n r.typ) >>= λ u. unsupported)
      else unsupported

  unfoldable pub valid_results : List Field → Check
  unfolding valid_result
  valid_results [] = passed
  valid_results (r ∷ rs) = if num_fields (r ∷ rs) == 1 then valid_result r else unsupported

  unfoldable pub valid_body : Option (List Stmt) → Check
  unfolding valid_func_body
  valid_body none = fault nil_dereference
  valid_body (some ss) = valid_func_body n ss

  unfoldable pub valid_top_level_decl : TopDecl → Check
  unfolding valid_params valid_results valid_body
  valid_top_level_decl nil_decl = unsupported
  valid_top_level_decl other_top = unsupported
  valid_top_level_decl (gen import) = passed
  valid_top_level_decl (gen var) = unsupported
  valid_top_level_decl (gen other_token) = unsupported
  valid_top_level_decl (function d) =
      if d.is_method
      then unsupported
      else valid_params d.params >> (valid_results d.results >> valid_body d.body)

  -- `Valid`.
  unfoldable pub valid : List TopDecl → Check
  unfolding valid_top_level_decl
  valid [] = passed
  valid (d ∷ ds) = valid_top_level_decl d >> valid ds
