-- ===== src/Query/Parser/Complete.antt =====
-- The parser of src/lib/schwa/dr/query.cc finds every derivation of the grammar.
use libschwa.Prelude.{
  ℕ, zero, suc, ◌+◌, ◌*◌, ◌≤◌, ◌≡◌, ◌↔◌, refl, sym, ap, ◌∙◌, Bool, true, List, [], ◌∷◌, ◌++◌,
  append-nil, append_assoc, length, length-append, arith,
}
use libschwa.Exec.{ok}
use libschwa.Exec.Post.{step}
use libschwa.Query.Syntax.{
  Text, literal_integer, literal_regex, literal_string, op_boolean, op_comparison, op_numeric3,
  op_numeric4, function, var, open_paren, close_paren, Token, Expr, Exprs,
}
use libschwa.Query.Grammar.{
  E1, E2, E3, E4, E5, Args, e1_single, e1_binary, e2_single, e2_binary, e3_single, e3_binary,
  e4_single, e4_binary, e5_paren, e5_integer, e5_regex, e5_string, e5_variable, e5_attribute,
  e5_call, args_end, args_first, args_next,
}
use libschwa.Query.Parser.{
  parse_e1, parse_e2, parse_e3, parse_e4, parse_e5, parse_args, finish, parse,
}
use libschwa.Query.Parser.Ensures.{Ensures-ok}
use libschwa.Query.Parser.Sound.{parse-Ensures}
use libschwa.Query.Parser.Steps.{
  Stops, Starts-append, rank, take_op-none, Stops-le, E1-Starts, alone, both, E5-front,
  args_end_case, args_first_case, args_next_case, paren_case, integer_case, regex_case, string_case,
  variable_case, attribute_case, call_case, Args-Stops, Starts-positive, Stops-at,
}

module _ (compiles : Text → Bool) where
  mutual
    unfolding parse_e1 rank

    complete-E1 :
        {us : List Token} {e : Expr}
        → E1 compiles us e
        → (f : ℕ) (rest : List Token) → 6 * length us + 6 ≤ f
        → Stops 5 rest
        → parse_e1 compiles f (us ++ rest) ≡ (ok e, rest)
    complete-E1 d zero rest h s = absurd (omega arith)
    complete-E1 (e1_single {us = us} {e} d) (suc f) rest h s =
        alone op_boolean (parse_e2 compiles f) (parse_e1 compiles f) (us ++ rest) rest e
          (complete-E2 d f rest (omega arith) (Stops-le 4 5 rest (omega arith) s))
          (take_op-none op_boolean 5 rest (omega arith) s)
    complete-E1 (e1_binary {us = us} {vs} {l} {r} t d o k) (suc f) rest h s =
        both op_boolean (parse_e2 compiles f) (parse_e1 compiles f) us vs rest t l r
          (complete-E2 d f (t ∷ (vs ++ rest)) (omega (arith, length-append us (t ∷ vs)))
            (Stops-at 4 5 op_boolean t (vs ++ rest) o refl (omega arith)))
          o (complete-E1 k f rest (omega (arith, length-append us (t ∷ vs))) s)

    complete-E2 :
        {us : List Token} {e : Expr}
        → E2 compiles us e
        → (f : ℕ) (rest : List Token) → 6 * length us + 5 ≤ f
        → Stops 4 rest
        → parse_e2 compiles f (us ++ rest) ≡ (ok e, rest)
    complete-E2 d zero rest h s = absurd (omega arith)
    complete-E2 (e2_single {us = us} {e} d) (suc f) rest h s =
        alone op_comparison (parse_e3 compiles f) (parse_e3 compiles f) (us ++ rest) rest e
          (complete-E3 d f rest (omega arith) (Stops-le 3 4 rest (omega arith) s))
          (take_op-none op_comparison 4 rest (omega arith) s)
    complete-E2 (e2_binary {us = us} {vs} {l} {r} t d o k) (suc f) rest h s =
        both op_comparison (parse_e3 compiles f) (parse_e3 compiles f) us vs rest t l r
          (complete-E3 d f (t ∷ (vs ++ rest)) (omega (arith, length-append us (t ∷ vs)))
            (Stops-at 3 4 op_comparison t (vs ++ rest) o refl (omega arith)))
          o
          (complete-E3 k f rest (omega (arith, length-append us (t ∷ vs)))
            (Stops-le 3 4 rest (omega arith) s))

    complete-E3 :
        {us : List Token} {e : Expr}
        → E3 compiles us e
        → (f : ℕ) (rest : List Token) → 6 * length us + 4 ≤ f
        → Stops 3 rest
        → parse_e3 compiles f (us ++ rest) ≡ (ok e, rest)
    complete-E3 d zero rest h s = absurd (omega arith)
    complete-E3 (e3_single {us = us} {e} d) (suc f) rest h s =
        alone op_numeric3 (parse_e4 compiles f) (parse_e3 compiles f) (us ++ rest) rest e
          (complete-E4 d f rest (omega arith) (Stops-le 2 3 rest (omega arith) s))
          (take_op-none op_numeric3 3 rest (omega arith) s)
    complete-E3 (e3_binary {us = us} {vs} {l} {r} t d o k) (suc f) rest h s =
        both op_numeric3 (parse_e4 compiles f) (parse_e3 compiles f) us vs rest t l r
          (complete-E4 d f (t ∷ (vs ++ rest)) (omega (arith, length-append us (t ∷ vs)))
            (Stops-at 2 3 op_numeric3 t (vs ++ rest) o refl (omega arith)))
          o (complete-E3 k f rest (omega (arith, length-append us (t ∷ vs))) s)

    complete-E4 :
        {us : List Token} {e : Expr}
        → E4 compiles us e
        → (f : ℕ) (rest : List Token) → 6 * length us + 3 ≤ f
        → Stops 2 rest
        → parse_e4 compiles f (us ++ rest) ≡ (ok e, rest)
    complete-E4 d zero rest h s = absurd (omega arith)
    complete-E4 (e4_single {us = us} {e} d) (suc f) rest h s =
        alone op_numeric4 (parse_e5 compiles f) (parse_e4 compiles f) (us ++ rest) rest e
          (complete-E5 d f rest (omega arith) (Stops-le 1 2 rest (omega arith) s))
          (take_op-none op_numeric4 2 rest (omega arith) s)
    complete-E4 (e4_binary {us = us} {vs} {l} {r} t d o k) (suc f) rest h s =
        both op_numeric4 (parse_e5 compiles f) (parse_e4 compiles f) us vs rest t l r
          (complete-E5 d f (t ∷ (vs ++ rest)) (omega (arith, length-append us (t ∷ vs)))
            (Stops-at 1 2 op_numeric4 t (vs ++ rest) o refl (omega arith)))
          o (complete-E4 k f rest (omega (arith, length-append us (t ∷ vs))) s)

    complete-E5 :
        {us : List Token} {e : Expr}
        → E5 compiles us e
        → (f : ℕ) (rest : List Token) → 6 * length us + 2 ≤ f
        → Stops 1 rest
        → parse_e5 compiles f (us ++ rest) ≡ (ok e, rest)
    complete-E5 d zero rest h s = absurd (omega arith)
    complete-E5 (e5_paren {us = us} {e} t u o d c) (suc f) rest h s =
        E5-front compiles f open_paren t _ o
        ∙ paren_case compiles (parse_e1 compiles f) (parse_args compiles f true) t.text us rest u e
            (complete-E1 d f (u ∷ rest) (omega (arith, length-append us (u ∷ [])))
              (Stops-at 5 6 close_paren u rest c refl (omega arith)))
            c
    complete-E5 (e5_integer {n} t o k) (suc f) rest h s =
        E5-front compiles f literal_integer t rest o
        ∙ integer_case compiles (parse_e1 compiles f) (parse_args compiles f true) t.text n rest k
    complete-E5 (e5_regex t o k) (suc f) rest h s =
        E5-front compiles f literal_regex t rest o
        ∙ regex_case compiles (parse_e1 compiles f) (parse_args compiles f true) t.text rest k
    complete-E5 (e5_string t o) (suc f) rest h s =
        E5-front compiles f literal_string t rest o
        ∙ string_case compiles (parse_e1 compiles f) (parse_args compiles f true) t.text rest
    complete-E5 (e5_variable t o) (suc f) rest h s =
        E5-front compiles f var t rest o
        ∙ variable_case compiles (parse_e1 compiles f) (parse_args compiles f true) t.text rest s
    complete-E5 (e5_attribute t a o k) (suc f) rest h s =
        E5-front compiles f var t (a ∷ rest) o
        ∙ attribute_case compiles (parse_e1 compiles f) (parse_args compiles f true) t.text a rest k
    complete-E5 (e5_call {us = us} {es} t p o k d) (suc f) rest h s =
        E5-front compiles f function t (p ∷ (us ++ rest)) o
        ∙ call_case compiles (parse_e1 compiles f) (parse_args compiles f true) t.text p
            (us ++ rest) rest es k (complete-Args d f rest (omega arith))

    complete-Args :
        {first : Bool} {us : List Token} {es : Exprs}
        → Args compiles first us es
        → (f : ℕ) (rest : List Token) → 6 * length us + 7 ≤ f
        → parse_args compiles f first (us ++ rest) ≡ (ok es, rest)
    complete-Args d zero rest h = absurd (omega arith)
    complete-Args (args_end {first} u o) (suc f) rest h = args_end_case compiles f first u rest o
    complete-Args (args_first {us = us} {vs} {e} {es} d k) (suc f) rest h =
        args_first_case compiles f ((us ++ vs) ++ rest) (vs ++ rest) rest e es
          (Starts-append rest (Starts-append vs (E1-Starts compiles d)))
          (ap (parse_e1 compiles f) (append_assoc us vs rest)
            ∙ complete-E1 d f (vs ++ rest) (omega (arith, length-append us vs))
                (Args-Stops compiles rest k))
          (complete-Args k f rest
            (omega (arith, length-append us vs, Starts-positive (E1-Starts compiles d))))
    complete-Args (args_next {us = us} {vs} {e} {es} c o d k) (suc f) rest h =
        args_next_case compiles f c ((us ++ vs) ++ rest) (vs ++ rest) rest e es o
          (ap (parse_e1 compiles f) (append_assoc us vs rest)
            ∙ complete-E1 d f (vs ++ rest) (omega (arith, length-append us vs))
                (Args-Stops compiles rest k))
          (complete-Args k f rest (omega (arith, length-append us vs)))

  parse_complete : (ts : List Token) (e : Expr) → E1 compiles ts e → parse compiles ts ≡ (ok e, [])
  unfolding parse finish
  parse_complete [] e d = absurd (omega (arith, Starts-positive (E1-Starts compiles d)))
  parse_complete (t ∷ ts) e d = step (parse_e1 compiles (6 * length (t ∷ ts) + 6)) finish (
      ap (parse_e1 compiles (6 * length (t ∷ ts) + 6)) (sym (append-nil (t ∷ ts)))
      ∙ complete-E1 d (6 * length (t ∷ ts) + 6) [] (omega arith) tt)

  -- _parse gives an expression exactly when the grammar derives it from all the tokens.
  pub parse_iff : (ts : List Token) (e : Expr) → (parse compiles ts ≡ (ok e, [])) ↔ E1 compiles ts e
  parse_iff ts e = ((λ h. (Ensures-ok (parse-Ensures compiles ts) h).1), parse_complete ts e)
