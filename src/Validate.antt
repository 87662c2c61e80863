-- ===== src/Validate.antt =====
-- simd/parse.go: the checks of a file before it is translated. A syntax tree has what the checks look
-- at; `nil` is a constructor or an empty list. That no error is found is `ok`.
pub mod Declared
pub mod Body
pub mod Statements
pub mod Bodies
pub mod File
pub mod Params
use gensimd.Common.{
  ℕ, zero, suc, ◌+◌, Bool, true, false, not, ◌&&◌, ◌||◌, List, [], ◌∷◌, Option, none, some, Result,
  ok, fault, Fault, internal_error, error_message, panics, nil_dereference, out_of_fuel,
  unsupported, ◌>>=◌, ◌>>◌, if◌then◌else◌, ◌==◌, get_elem?,
}
use gensimd.Types.{
  BasicKind, bool, int, int8, int16, int32, int64, uint, uint8, uint16, uint32, uint64, float32,
  float64, complex64, complex128, other_kind,
}

-- The types of go/types that the checks tell apart.
pub data DeclType : Type 0 where
  basic : BasicKind → DeclType
  named interface other_type : DeclType
  pointer slice array : DeclType → DeclType

abbrev pub Check : Type 0
Check = Result (Unit {0})

abbrev pub passed : Check
passed = ok tt

unfoldable pub result_kind : BasicKind → Check
result_kind bool = passed
result_kind int = passed
result_kind int8 = passed
result_kind int16 = passed
result_kind int32 = passed
result_kind int64 = passed
result_kind uint = passed
result_kind uint8 = passed
result_kind uint16 = passed
result_kind uint32 = passed
result_kind uint64 = passed
result_kind float32 = passed
result_kind float64 = passed
result_kind complex64 = unsupported
result_kind complex128 = unsupported
result_kind other_kind = unsupported

unfoldable pub valid_result_type : DeclType → Check
unfolding result_kind
valid_result_type (basic k) = result_kind k
valid_result_type named = unsupported
valid_result_type interface = unsupported
valid_result_type other_type = unsupported
valid_result_type (pointer t) = unsupported
valid_result_type (slice t) = unsupported
valid_result_type (array t) = unsupported

-- The type under an interface is the interface itself, on which the check is called again.
unfoldable pub valid_var_decl_type : ℕ → DeclType → Check
unfolding valid_result_type
valid_var_decl_type zero t = fault out_of_fuel
valid_var_decl_type (suc n) (basic k) = valid_result_type (basic k)
valid_var_decl_type (suc n) named = unsupported
valid_var_decl_type (suc n) interface = valid_var_decl_type n interface
valid_var_decl_type (suc n) other_type = valid_result_type other_type
valid_var_decl_type (suc n) (pointer t) = valid_result_type (pointer t)
valid_var_decl_type (suc n) (slice t) = valid_result_type (slice t)
valid_var_decl_type (suc n) (array t) = valid_result_type (array t)

-- What follows an error; a panic is passed on.
abbrev pub on_error : Check → Check → Check
on_error (ok u) next = ok u
on_error (fault internal_error) next = fault internal_error
on_error (fault error_message) next = next
on_error (fault panics) next = fault panics
on_error (fault nil_dereference) next = fault nil_dereference
on_error (fault out_of_fuel) next = fault out_of_fuel

unfoldable pub valid_param_type : ℕ → DeclType → Check
unfolding valid_var_decl_type
valid_param_type n (basic k) = valid_var_decl_type n (basic k)
valid_param_type n named = valid_var_decl_type n named
valid_param_type n interface = valid_var_decl_type n interface
valid_param_type n other_type = valid_var_decl_type n other_type
valid_param_type n (pointer t) =
    let rest = valid_param_type n t in on_error (valid_var_decl_type n (pointer t)) rest
valid_param_type n (slice t) =
    let rest = valid_param_type n t in on_error (valid_var_decl_type n (slice t)) rest
valid_param_type n (array t) =
    let rest = valid_param_type n t in on_error (valid_var_decl_type n (array t)) rest

pub data DeclToken : Type 0 where
  import var other_token : DeclToken

-- A value specification with the numbers of its names and values.
pub data Spec : Type 0 where
  value_spec : ℕ → ℕ → DeclType → Spec
  other_spec : Spec

pub data Decl : Type 0 where
  gen_decl : DeclToken → List Spec → Decl
  other_decl : Decl

abbrev error_if : Bool → Check
error_if true = unsupported
error_if false = passed

-- The error's text says whether the type is one for parameters; it stays an error.
unfoldable pub valid_spec : ℕ → Spec → Check
unfolding valid_var_decl_type valid_param_type
valid_spec n other_spec = unsupported
valid_spec n (value_spec names values t) =
    error_if (not (names == 1))
    >> (error_if (not (values == 0))
        >> on_error (valid_var_decl_type n t) (valid_param_type n t >> unsupported))

unfoldable pub valid_specs : ℕ → List Spec → Check
unfolding valid_spec
valid_specs n [] = unsupported
valid_specs n (s ∷ []) = valid_spec n s
valid_specs n (s ∷ t ∷ rest) = unsupported

unfoldable pub valid_decl_stmt : ℕ → Decl → Check
unfolding valid_specs
valid_decl_stmt n other_decl = unsupported
valid_decl_stmt n (gen_decl var specs) = valid_specs n specs
valid_decl_stmt n (gen_decl import specs) = unsupported
valid_decl_stmt n (gen_decl other_token specs) = unsupported

pub data Expr : Type 0 where
  nil_expr ident other_expr : Expr

-- An `if` has its condition, whether it has an initialization, its body and its else branch.
mutual
  pub data Stmt : Type 0 where
    nil_stmt empty for_stmt other_stmt : Stmt
    decl : Decl → Stmt
    assign : ℕ → ℕ → Stmt
    if_stmt : Expr → Bool → Stmt → Stmt → Stmt
    block : Stmts → Stmt
    ret : List Expr → Stmt
    inc_dec : Expr → Stmt

  pub data Stmts : Type 0 where
    done : Stmts
    stmt_then : Stmt → Stmts → Stmts

unfoldable pub valid_expr : Expr → Check
valid_expr nil_expr = fault nil_dereference
valid_expr ident = passed
valid_expr other_expr = passed

unfoldable pub valid_ret_expr : Expr → Check
valid_ret_expr nil_expr = fault nil_dereference
valid_ret_expr ident = passed
valid_ret_expr other_expr = unsupported

-- `validRetStmt`, which `validStmt` repeats.
unfoldable pub valid_ret_stmt : List Expr → Check
unfolding valid_ret_expr
valid_ret_stmt [] = passed
valid_ret_stmt (e ∷ []) = valid_ret_expr e
valid_ret_stmt (e ∷ g ∷ rest) = unsupported

-- An `if`, a block and an increment fall through to the error at the end.
unfoldable mutual
  unfolding valid_expr valid_ret_stmt

  pub valid_stmt : Stmt → Check
  valid_stmt nil_stmt = passed
  valid_stmt (assign l r) = if (l == 1) && (r == 1) then passed else unsupported
  valid_stmt (if_stmt c init body els) =
      valid_expr c >> (error_if init >> (valid_stmt body >> (valid_stmt els >> unsupported)))
  valid_stmt (block ss) = valid_stmts ss >> unsupported
  valid_stmt empty = passed
  valid_stmt (ret es) = valid_ret_stmt es
  valid_stmt (inc_dec e) = valid_expr e >> unsupported
  valid_stmt (decl d) = unsupported
  valid_stmt for_stmt = unsupported
  valid_stmt other_stmt = unsupported

  pub valid_stmts : Stmts → Check
  valid_stmts done = passed
  valid_stmts (stmt_then s ss) = valid_stmt s >> valid_stmts ss
