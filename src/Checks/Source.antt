-- ===== src/Checks/Source.antt =====
-- The checks of source files, on small syntax trees.
use gensimd.Common.{ℕ, ◌≡◌, refl, false, List, [], ◌∷◌, arith}
use gensimd.Types.{int, float32}
use gensimd.Validate.{
  basic, interface, pointer, slice, gen_decl, var, value_spec, Stmt, decl, if_stmt, block, done,
  ident, other_stmt, nil_stmt, valid_stmt, valid_param_type, result_kind, passed, valid_specs,
  valid_spec, valid_decl_stmt, valid_var_decl_type, valid_result_type,
}
use gensimd.Validate.Declared.{param_verdict, valid_param_type_lem}
use gensimd.Validate.Statements.{complete, plain, verdict, valid_stmt_lem}
use gensimd.Validate.Body.{valid_func_body}
use gensimd.Validate.Bodies.{leading_decls, valid_func_body_lem}
use gensimd.Validate.File.{Field, valid_params}
use gensimd.Validate.Params.{passes, valid_params_error}

valid_param_type_lem_example :
    valid_param_type 1 (pointer (slice interface)) ≡ param_verdict (pointer (slice interface))
valid_param_type_lem_example = valid_param_type_lem 0 (pointer (slice interface))

abbrev declared : Stmt
declared = decl (gen_decl var (value_spec 1 0 (basic float32) ∷ []))

-- A declaration, and a statement that the source's form does not allow, without a return.
abbrev unusual : List Stmt
unusual = declared ∷ other_stmt ∷ declared ∷ []

valid_func_body_lem_example : valid_func_body 1 unusual ≡ leading_decls 1 unusual
unfolding complete
valid_func_body_lem_example = valid_func_body_lem 1 declared (other_stmt ∷ declared ∷ []) refl

unusual_passes : leading_decls 1 unusual ≡ passed
unfolding valid_decl_stmt valid_specs valid_spec valid_var_decl_type valid_result_type result_kind
unusual_passes = refl

valid_stmt_lem_example :
    valid_stmt (if_stmt ident false (block done) nil_stmt)
    ≡ verdict (plain (if_stmt ident false (block done) nil_stmt))
unfolding complete
valid_stmt_lem_example = valid_stmt_lem (if_stmt ident false (block done) nil_stmt) refl

-- `func(a, b int)`, of which NumFields counts two.
abbrev shared : List Field
shared = record { names = 2; typ = basic int } ∷ []

abbrev names_counted : List Field → ℕ
names_counted fs = 2

valid_params_error_example : passes (valid_params names_counted 1 shared) ≡ false
valid_params_error_example = valid_params_error names_counted 1 shared (omega arith) refl
