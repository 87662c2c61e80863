-- ===== src/Validate/Body.antt =====
-- simd/parse.go: validFuncBody, whose loop takes each statement through the sections of a function in
-- turn. The lists of statements that it also returns are not read.
use gensimd.Common.{
  ℕ, Bool, true, List, [], ◌∷◌, Result, ok, fault, internal_error, error_message, panics,
  nil_dereference, out_of_fuel, unsupported, ◌>>=◌, ◌>>◌, if◌then◌else◌,
}
use gensimd.Validate.{
  Check, passed, Stmt, nil_stmt, empty, for_stmt, other_stmt, decl, assign, if_stmt, block, ret,
  inc_dec, valid_decl_stmt, valid_stmt, valid_ret_stmt,
}

pub data Section : Type 0 where
  decls init for_loop finish : Section

abbrev pub valid_for_stmt : Stmt → Bool
valid_for_stmt s = true

abbrev pub valid_finish_stmt : Stmt → Bool
valid_finish_stmt s = true

-- The last section, which ends in the panic that no section is left.
unfoldable pub ret_section : Stmt → Check
unfolding valid_ret_stmt
ret_section (ret es) = valid_ret_stmt es >> fault panics
ret_section nil_stmt = unsupported
ret_section empty = unsupported
ret_section for_stmt = unsupported
ret_section other_stmt = unsupported
ret_section (decl d) = unsupported
ret_section (assign l r) = unsupported
ret_section (if_stmt c i body els) = unsupported
ret_section (block ss) = unsupported
ret_section (inc_dec e) = unsupported

-- The section that a statement is taken in, of those from the given one on, if it passes.
abbrev pub Outcome : Type 0
Outcome = Result Section

unfoldable pub in_finish : Stmt → Outcome
unfolding ret_section
in_finish s = if valid_finish_stmt s then ok finish else ret_section s >> fault panics

unfoldable pub in_for : Stmt → Outcome
unfolding in_finish
in_for for_stmt = if valid_for_stmt for_stmt then in_finish for_stmt else unsupported
in_for nil_stmt = in_finish nil_stmt
in_for empty = in_finish empty
in_for other_stmt = in_finish other_stmt
in_for (decl d) = in_finish (decl d)
in_for (assign l r) = in_finish (assign l r)
in_for (if_stmt c i body els) = in_finish (if_stmt c i body els)
in_for (block ss) = in_finish (block ss)
in_for (ret es) = in_finish (ret es)
in_for (inc_dec e) = in_finish (inc_dec e)

-- After `validStmt`: an error moves the statement on, and a panic is passed on.
abbrev pub after_init : Check → Outcome → Outcome
after_init (ok u) next = ok init
after_init (fault internal_error) next = fault internal_error
after_init (fault error_message) next = next
after_init (fault panics) next = fault panics
after_init (fault nil_dereference) next = fault nil_dereference
after_init (fault out_of_fuel) next = fault out_of_fuel

unfoldable pub in_init : Stmt → Outcome
unfolding valid_stmt in_for
in_init s = after_init (valid_stmt s) (in_for s)

unfoldable pub in_decls : ℕ → Stmt → Outcome
unfolding valid_decl_stmt in_init
in_decls n (decl d) = valid_decl_stmt n d >> ok decls
in_decls n nil_stmt = in_init nil_stmt
in_decls n empty = in_init empty
in_decls n for_stmt = in_init for_stmt
in_decls n other_stmt = in_init other_stmt
in_decls n (assign l r) = in_init (assign l r)
in_decls n (if_stmt c i body els) = in_init (if_stmt c i body els)
in_decls n (block ss) = in_init (block ss)
in_decls n (ret es) = in_init (ret es)
in_decls n (inc_dec e) = in_init (inc_dec e)

unfoldable pub in_section : ℕ → Section → Stmt → Outcome
unfolding in_decls in_init in_for in_finish
in_section n decls s = in_decls n s
in_section n init s = in_init s
in_section n for_loop s = in_for s
in_section n finish s = in_finish s

unfoldable pub body_from : ℕ → Section → List Stmt → Check
unfolding in_section
body_from n sec [] = passed
body_from n sec (s ∷ ss) = in_section n sec s >>= λ next. body_from n next ss

-- A body without statements is an error.
unfoldable pub valid_func_body : ℕ → List Stmt → Check
unfolding body_from
valid_func_body n [] = unsupported
valid_func_body n (s ∷ ss) = body_from n decls (s ∷ ss)
