-- ===== src/Validate/Statements.antt =====
-- What validStmt accepts.
use gensimd.Common.{
  ◌≡◌, refl, ap, ◌∙◌, Bool, true, false, ◌&&◌, List, [], ◌∷◌, unsupported, ◌>>◌, if◌then◌else◌,
  ◌==◌, arith,
}
use gensimd.Validate.{
  Check, passed, Expr, nil_expr, ident, other_expr, Stmt, nil_stmt, empty, for_stmt, other_stmt,
  decl, assign, if_stmt, block, ret, inc_dec, Stmts, done, stmt_then, valid_expr, valid_ret_expr,
  valid_ret_stmt, valid_stmt, valid_stmts,
}

abbrev is_expr : Expr → Bool
is_expr nil_expr = false
is_expr ident = true
is_expr other_expr = true

abbrev all_exprs : List Expr → Bool
all_exprs [] = true
all_exprs (e ∷ es) = is_expr e && all_exprs es

-- No expression is nil.
unfoldable mutual
  pub complete : Stmt → Bool
  complete nil_stmt = true
  complete empty = true
  complete for_stmt = true
  complete other_stmt = true
  complete (decl d) = true
  complete (assign l r) = true
  complete (if_stmt c i body els) = is_expr c && (complete body && complete els)
  complete (block ss) = complete_each ss
  complete (ret es) = all_exprs es
  complete (inc_dec e) = is_expr e

  pub complete_each : Stmts → Bool
  complete_each done = true
  complete_each (stmt_then s ss) = complete s && complete_each ss

abbrev pub returns_variable : List Expr → Bool
returns_variable [] = true
returns_variable (ident ∷ []) = true
returns_variable (nil_expr ∷ []) = false
returns_variable (other_expr ∷ []) = false
returns_variable (e ∷ g ∷ rest) = false

-- The statements that pass: none, the empty one, an assignment of one value to one variable, and a
-- return of at most one variable.
abbrev pub plain : Stmt → Bool
plain nil_stmt = true
plain empty = true
plain for_stmt = false
plain other_stmt = false
plain (decl d) = false
plain (assign l r) = (l == 1) && (r == 1)
plain (if_stmt c i body els) = false
plain (block ss) = false
plain (ret es) = returns_variable es
plain (inc_dec e) = false

abbrev pub verdict : Bool → Check
verdict b = if b then passed else unsupported

expr_lem : (e : Expr) → is_expr e ≡ true → valid_expr e ≡ passed
unfolding valid_expr
expr_lem nil_expr h = cc
expr_lem ident h = refl
expr_lem other_expr h = refl

ret_lem : (es : List Expr) → all_exprs es ≡ true → valid_ret_stmt es ≡ verdict (returns_variable es)
unfolding valid_ret_stmt valid_ret_expr
ret_lem [] h = refl
ret_lem (nil_expr ∷ []) h = cc
ret_lem (ident ∷ []) h = refl
ret_lem (other_expr ∷ []) h = refl
ret_lem (e ∷ g ∷ rest) h = refl

then_error : (b : Bool) (rest : Check) → rest ≡ unsupported → (verdict b >> rest) ≡ unsupported
then_error true rest h = h
then_error false rest h = refl

abbrev failing : Check → Check
failing c = c >> unsupported

pass_on : (b : Bool) (c : Check) → failing c ≡ unsupported → failing (verdict b >> c) ≡ unsupported
pass_on true c h = h
pass_on false c h = refl

mutual
  unfolding complete valid_stmt

  stmt_cases : (s : Stmt) → complete s ≡ true → valid_stmt s ≡ verdict (plain s)
  stmt_cases nil_stmt h = refl
  stmt_cases empty h = refl
  stmt_cases for_stmt h = refl
  stmt_cases other_stmt h = refl
  stmt_cases (decl d) h = refl
  stmt_cases (assign l r) h = refl
  stmt_cases (if_stmt c true body els) h = rw (expr_lem c (ground (arith, h))) refl
  stmt_cases (if_stmt c false body els) h =
      rw
        (
          expr_lem c (ground (arith, h)),
          stmt_cases body (ground (arith, h)),
          stmt_cases els (ground (arith, h)),
        )
        (then_error (plain body) (verdict (plain els) >> unsupported)
          (then_error (plain els) unsupported refl))
  stmt_cases (block ss) h = each_cases ss h
  stmt_cases (ret es) h = ret_lem es h
  stmt_cases (inc_dec e) h = rw (expr_lem e h) refl

  each_cases : (ss : Stmts) → complete_each ss ≡ true → failing (valid_stmts ss) ≡ unsupported
  each_cases done h = refl
  each_cases (stmt_then s ss) h =
      ap (λ (c : Check). failing (c >> valid_stmts ss)) (stmt_cases s (ground (arith, h)))
      ∙ pass_on (plain s) (valid_stmts ss) (each_cases ss (ground (arith, h)))

-- Of complete statements validStmt accepts the plain ones, and refuses all others with an error, every
-- conditional, block and increment among them.
pub valid_stmt_lem : (s : Stmt) → complete s ≡ true → valid_stmt s ≡ verdict (plain s)
valid_stmt_lem s h = stmt_cases s h
