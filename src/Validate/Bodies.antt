-- ===== src/Validate/Bodies.antt =====
-- What validFuncBody accepts.
use gensimd.Common.{
  ℕ, ◌≡◌, refl, ap, ◌∙◌, Bool, true, false, ◌&&◌, List, [], ◌∷◌, Result, ok, fault, ◌>>=◌, ◌>>◌,
  arith,
}
use gensimd.Validate.{
  Check, passed, Stmt, nil_stmt, empty, for_stmt, other_stmt, decl, assign, if_stmt, block, ret,
  inc_dec, valid_decl_stmt,
}
use gensimd.Validate.Body.{
  Section, decls, init, finish, in_finish, in_for, in_init, in_decls, in_section, body_from,
  valid_func_body, after_init,
}
use gensimd.Validate.Statements.{complete, plain, verdict, valid_stmt_lem}

abbrev pub all_complete : List Stmt → Bool
all_complete [] = true
all_complete (s ∷ ss) = complete s && all_complete ss

-- The declarations at the start, up to the first other statement.
abbrev pub leading_decls : ℕ → List Stmt → Check
leading_decls n [] = passed
leading_decls n (decl d ∷ ss) = valid_decl_stmt n d >> leading_decls n ss
leading_decls n (nil_stmt ∷ ss) = passed
leading_decls n (empty ∷ ss) = passed
leading_decls n (for_stmt ∷ ss) = passed
leading_decls n (other_stmt ∷ ss) = passed
leading_decls n (assign l r ∷ ss) = passed
leading_decls n (if_stmt c i body els ∷ ss) = passed
leading_decls n (block b ∷ ss) = passed
leading_decls n (ret es ∷ ss) = passed
leading_decls n (inc_dec e ∷ ss) = passed

finish_lem : (n : ℕ) (ss : List Stmt) → body_from n finish ss ≡ passed
unfolding body_from in_section in_finish
finish_lem n [] = refl
finish_lem n (s ∷ ss) = finish_lem n ss

for_lem : (s : Stmt) → in_for s ≡ ok finish
unfolding in_for in_finish
for_lem nil_stmt = refl
for_lem empty = refl
for_lem for_stmt = refl
for_lem other_stmt = refl
for_lem (decl d) = refl
for_lem (assign l r) = refl
for_lem (if_stmt c i body els) = refl
for_lem (block ss) = refl
for_lem (ret es) = refl
for_lem (inc_dec e) = refl

after_verdict :
    (n : ℕ) (b : Bool) (ss : List Stmt)
    → body_from n init ss ≡ passed
    → (after_init (verdict b) (ok finish) >>= λ next. body_from n next ss) ≡ passed
after_verdict n true ss h = h
after_verdict n false ss h = finish_lem n ss

init_step :
    (n : ℕ) (s : Stmt) (ss : List Stmt)
    → complete s ≡ true
    → body_from n init ss ≡ passed
    → (in_init s >>= λ next. body_from n next ss) ≡ passed
unfolding in_init
init_step n s ss c h =
    ap (λ (v : Check). after_init v (in_for s) >>= λ next. body_from n next ss) (valid_stmt_lem s c)
    ∙ ap (λ (o : Result Section). after_init (verdict (plain s)) o >>= λ next. body_from n next ss)
        (for_lem s)
    ∙ after_verdict n (plain s) ss h

init_lem : (n : ℕ) (ss : List Stmt) → all_complete ss ≡ true → body_from n init ss ≡ passed
unfolding body_from in_section
init_lem n [] h = refl
init_lem n (s ∷ ss) h = init_step n s ss (ground (arith, h)) (init_lem n ss (ground (arith, h)))

decl_step :
    (n : ℕ) (c : Check) (ss : List Stmt)
    → body_from n decls ss ≡ leading_decls n ss
    → ((c >> ok decls) >>= λ next. body_from n next ss) ≡ (c >> leading_decls n ss)
decl_step n (ok u) ss h = h
decl_step n (fault e) ss h = refl

decls_lem :
    (n : ℕ) (ss : List Stmt) → all_complete ss ≡ true → body_from n decls ss ≡ leading_decls n ss
unfolding body_from in_section in_decls complete
decls_lem n [] h = refl
decls_lem n (decl d ∷ ss) h = decl_step n (valid_decl_stmt n d) ss (decls_lem n ss h)
decls_lem n (nil_stmt ∷ ss) h = init_lem n (nil_stmt ∷ ss) h
decls_lem n (empty ∷ ss) h = init_lem n (empty ∷ ss) h
decls_lem n (for_stmt ∷ ss) h = init_lem n (for_stmt ∷ ss) h
decls_lem n (other_stmt ∷ ss) h = init_lem n (other_stmt ∷ ss) h
decls_lem n (assign l r ∷ ss) h = init_lem n (assign l r ∷ ss) h
decls_lem n (if_stmt c i body els ∷ ss) h = init_lem n (if_stmt c i body els ∷ ss) h
decls_lem n (block b ∷ ss) h = init_lem n (block b ∷ ss) h
decls_lem n (ret es ∷ ss) h = init_lem n (ret es ∷ ss) h
decls_lem n (inc_dec e ∷ ss) h = init_lem n (inc_dec e ∷ ss) h

-- Of a body whose statements are complete validFuncBody checks that it has a statement and that the
-- declarations at its start, up to the first other statement, are valid; all behind them passes.
pub valid_func_body_lem :
    (n : ℕ) (s : Stmt) (ss : List Stmt)
    → all_complete (s ∷ ss) ≡ true
    → valid_func_body n (s ∷ ss) ≡ leading_decls n (s ∷ ss)
unfolding valid_func_body
valid_func_body_lem n s ss h = decls_lem n (s ∷ ss) h
