-- ===== src/Query/Parser/Sound.antt =====
-- The parser of src/lib/schwa/dr/query.cc against the grammar: it ends, and what it gives is derived.
use libschwa.Prelude.{
  ℕ, zero, suc, ◌+◌, ◌*◌, ◌<◌, ◌≤◌, ◌≡◌, refl, sym, ap, subst, ◌∙◌, inl, inr, Bool, true, false,
  List, [], ◌∷◌, ◌++◌, append-nil, append_assoc, length, length-append, if◌then◌else◌, Bool-cases,
  Option-cases, arith,
}
use libschwa.Exec.{Result, ok, Exec, pure, ◌>>=◌, ◌>>◌}
use libschwa.Query.Syntax.{
  Text, TokenType, literal_integer, literal_regex, literal_string, op_boolean, op_comparison,
  op_numeric3, op_numeric4, function, var, var_attribute, open_paren, close_paren, comma, Token,
  Expr, Exprs, variable, call, no_args, arg_and,
}
use libschwa.Query.Numbers.{scan_int}
use libschwa.Query.Grammar
use libschwa.Query.Grammar.{E1, E2, E3, E4, E5, Args}
use libschwa.Query.Parser.{
  is_type, take_op, next_token, expect, at_close, comma_unless, e5_case, parse_e1, parse_e2,
  parse_e3, parse_e4, parse_e5, parse_args, finish, parse,
}
use libschwa.Query.Parser.Ensures.{
  Ensures, holds, rejected, unread, Ensures-bind, is_type→eq, Took, Took-shorter, expect-Ensures,
  level-Ensures,
}

module _ (compiles : Text → Bool) where
  -- The cases of e5 behind its first token.
  module _ (t : Token) (ts : List Token) (e1 : Exec (List Token) Expr)
      (args : Exec (List Token) Exprs) (e1_Ensures : Ensures (Took (E1 compiles) ts) (e1 ts))
      (args_Ensures : (us : List Token)
        → length us < length ts
        → Ensures (Took (Args compiles true) us) (args us)) where
    abbrev Goal : Result Expr × List Token → Type 0
    Goal = Ensures (Took (E5 compiles) (t ∷ ts))

    -- A single token is all that is taken.
    single : {e : Expr} → E5 compiles (t ∷ []) e → Goal (ok e, ts)
    single d = holds (record { used = t ∷ []; split = refl; some_used = omega arith; derives = d })

    paren-Ensures : t.type ≡ open_paren → Goal ((do e ← e1; expect close_paren; pure e) ts)
    paren-Ensures o = Ensures-bind e1 _ e1_Ensures λ e us k.
        Ensures-bind (expect close_paren) _ (expect-Ensures close_paren us) λ _ vs (u, p, c).
          holds (record {
            used = t ∷ (k.used ++ u ∷ []);
            split =
                ap (λ xs. t ∷ xs)
                  (k.split ∙ ap (λ xs. k.used ++ xs) p ∙ sym (append_assoc k.used (u ∷ []) vs));
            some_used = omega arith;
            derives = Grammar.e5_paren t u o k.derives c;
          })

    call-Ensures :
        t.type ≡ function → Goal ((do expect open_paren; as_ ← args; pure (call t.text as_)) ts)
    call-Ensures f =
        Ensures-bind (expect open_paren) _ (expect-Ensures open_paren ts) λ _ us (o, p, c).
          Ensures-bind args _ (args_Ensures us (omega (arith, ap length p))) λ as_ vs k.
            holds (record {
              used = t ∷ o ∷ k.used;
              split = ap (λ xs. t ∷ xs) (p ∙ ap (λ xs. o ∷ xs) k.split);
              some_used = omega arith;
              derives = Grammar.e5_call t o f c k.derives;
            })

    var-Ensures :
        (us : List Token)
        → ts ≡ us
        → t.type ≡ var
        → Ensures
            (Took (E5 compiles) (t ∷ us))
            ((do attribute ← take_op var_attribute; pure (variable t.text attribute)) us)
    unfolding take_op ◌>>=◌
    var-Ensures [] _ v = holds (record {
      used = t ∷ [];
      split = refl;
      some_used = omega arith;
      derives = Grammar.e5_variable t v;
    })
    var-Ensures (a ∷ us) _ v = elim (Bool-cases (is_type var_attribute a)) [
      | inl e ↦ rw e (
          holds (record {
            used = t ∷ a ∷ [];
            split = refl;
            some_used = omega arith;
            derives = Grammar.e5_attribute t a v (is_type→eq var_attribute a e);
          }))
      | inr e ↦ rw e (
          holds (record {
            used = t ∷ [];
            split = refl;
            some_used = omega arith;
            derives = Grammar.e5_variable t v;
          }))
    ]

    e5_case-Ensures :
        (type : TokenType) → t.type ≡ type → Goal (e5_case compiles e1 args type t.text ts)
    unfolding e5_case
    e5_case-Ensures open_paren h = paren-Ensures h
    e5_case-Ensures literal_integer h = elim (Option-cases (scan_int t.text)) [
      | inl e ↦ rw (e, e5_case) unread
      | inr (n, e) ↦ rw (e, e5_case) (single (Grammar.e5_integer t h e))
    ]
    e5_case-Ensures literal_regex h = elim (Bool-cases (compiles t.text)) [
      | inl e ↦ rw (e, e5_case) (single (Grammar.e5_regex t h e))
      | inr e ↦ rw (e, e5_case) rejected
    ]
    e5_case-Ensures literal_string h = single (Grammar.e5_string t h)
    e5_case-Ensures var h = var-Ensures ts refl h
    e5_case-Ensures function h = call-Ensures h
    e5_case-Ensures _ h = rejected

  -- The loop over arguments, by whether the front token closes them.
  module _ (e1 : Exec (List Token) Expr) (rest : Exec (List Token) Exprs) (ts : List Token)
      (e1_Ensures : (us : List Token)
        → length us ≤ length ts
        → Ensures (Took (E1 compiles) us) (e1 us))
      (rest_Ensures : (us : List Token)
        → length us < length ts
        → Ensures (Took (Args compiles false) us) (rest us)) where
    first-Ensures :
        Ensures (Took (Args compiles true) ts) ((do arg ← e1; es ← rest; pure (arg_and arg es)) ts)
    first-Ensures = Ensures-bind e1 _ (e1_Ensures ts (omega arith)) λ e us k.
        Ensures-bind rest _ (rest_Ensures us (Took-shorter k)) λ es vs l. holds (record {
          used = k.used ++ l.used;
          split = k.split ∙ ap (λ xs. k.used ++ xs) l.split ∙ sym (append_assoc k.used l.used vs);
          some_used = omega (arith, length-append k.used l.used, k.some_used);
          derives = Grammar.args_first k.derives l.derives;
        })

    next-Ensures :
        Ensures
          (Took (Args compiles false) ts)
          ((do expect comma; arg ← e1; es ← rest; pure (arg_and arg es)) ts)
    next-Ensures = Ensures-bind (expect comma) _ (expect-Ensures comma ts) λ _ us (c, p, h).
        Ensures-bind e1 _ (e1_Ensures us (omega (arith, ap length p))) λ e vs k.
          Ensures-bind rest _ (rest_Ensures vs (omega (arith, ap length p, Took-shorter k)))
            λ es ws l. holds (record {
              used = c ∷ (k.used ++ l.used);
              split =
                  p
                  ∙ ap (λ xs. c ∷ xs)
                      (k.split
                        ∙ ap (λ xs. k.used ++ xs) l.split
                        ∙ sym (append_assoc k.used l.used ws));
              some_used = omega arith;
              derives = Grammar.args_next c h k.derives l.derives;
            })

  more-Ensures :
      (e1 : Exec (List Token) Expr) (rest : Exec (List Token) Exprs) (first : Bool)
      (ts : List Token)
      → ((us : List Token) → length us ≤ length ts → Ensures (Took (E1 compiles) us) (e1 us))
      → ((us : List Token)
          → length us < length ts
          → Ensures (Took (Args compiles false) us) (rest us))
      → Ensures
          (Took (Args compiles first) ts)
          ((do comma_unless first; arg ← e1; es ← rest; pure (arg_and arg es)) ts)
  unfolding comma_unless ◌>>=◌
  more-Ensures e1 rest true ts h k = first-Ensures e1 rest ts h k
  more-Ensures e1 rest false ts h k = next-Ensures e1 rest ts h k

  Args-step-Ensures :
      (e1 : Exec (List Token) Expr) (rest : Exec (List Token) Exprs) (first : Bool)
      (ts : List Token)
      → ((us : List Token) → length us ≤ length ts → Ensures (Took (E1 compiles) us) (e1 us))
      → ((us : List Token)
          → length us < length ts
          → Ensures (Took (Args compiles false) us) (rest us))
      → Ensures (Took (Args compiles first) ts) (
          (do
            closed ← at_close
            if closed
                then pure no_args
                else do comma_unless first; arg ← e1; es ← rest; pure (arg_and arg es))
            ts)
  unfolding at_close ◌>>=◌
  Args-step-Ensures e1 rest first [] h k = rejected
  Args-step-Ensures e1 rest first (t ∷ ts) h k = elim (Bool-cases (is_type close_paren t)) [
    | inl e ↦ rw e (
        holds (record {
          used = t ∷ [];
          split = refl;
          some_used = omega arith;
          derives = Grammar.args_end t (is_type→eq close_paren t e);
        }))
    | inr e ↦ rw e (more-Ensures e1 rest first (t ∷ ts) h k)
  ]

  E5-empty : (f : ℕ) → Ensures (Took (E5 compiles) []) (parse_e5 compiles (suc f) [])
  unfolding parse_e5 next_token ◌>>=◌
  E5-empty f = rejected

  E5-front :
      (f : ℕ) (t : Token) (ts : List Token)
      → Ensures
          (Took (E5 compiles) (t ∷ ts))
          (e5_case compiles (parse_e1 compiles f) (parse_args compiles f true) t.type t.text ts)
      → Ensures (Took (E5 compiles) (t ∷ ts)) (parse_e5 compiles (suc f) (t ∷ ts))
  unfolding parse_e5 next_token ◌>>=◌
  E5-front f t ts h = h

  -- One induction on the fuel. What a call leaves is shorter, so the fuel stays above its bound.
  mutual
    unfolding parse_e1

    E1-Ensures :
        (f : ℕ) (ts : List Token)
        → 6 * length ts + 6 ≤ f
        → Ensures (Took (E1 compiles) ts) (parse_e1 compiles f ts)
    E1-Ensures zero ts h = absurd (omega arith)
    E1-Ensures (suc f) ts h =
        level-Ensures op_boolean (parse_e2 compiles f) (parse_e1 compiles f) ts
          (E2-Ensures f ts (omega arith)) (λ vs l. E1-Ensures f vs (omega arith))
          (λ us e d. Grammar.e1_single d) (λ us vs t l r a o b. Grammar.e1_binary t a o b)

    E2-Ensures :
        (f : ℕ) (ts : List Token)
        → 6 * length ts + 5 ≤ f
        → Ensures (Took (E2 compiles) ts) (parse_e2 compiles f ts)
    E2-Ensures zero ts h = absurd (omega arith)
    E2-Ensures (suc f) ts h =
        level-Ensures op_comparison (parse_e3 compiles f) (parse_e3 compiles f) ts
          (E3-Ensures f ts (omega arith)) (λ vs l. E3-Ensures f vs (omega arith))
          (λ us e d. Grammar.e2_single d) (λ us vs t l r a o b. Grammar.e2_binary t a o b)

    E3-Ensures :
        (f : ℕ) (ts : List Token)
        → 6 * length ts + 4 ≤ f
        → Ensures (Took (E3 compiles) ts) (parse_e3 compiles f ts)
    E3-Ensures zero ts h = absurd (omega arith)
    E3-Ensures (suc f) ts h =
        level-Ensures op_numeric3 (parse_e4 compiles f) (parse_e3 compiles f) ts
          (E4-Ensures f ts (omega arith)) (λ vs l. E3-Ensures f vs (omega arith))
          (λ us e d. Grammar.e3_single d) (λ us vs t l r a o b. Grammar.e3_binary t a o b)

    E4-Ensures :
        (f : ℕ) (ts : List Token)
        → 6 * length ts + 3 ≤ f
        → Ensures (Took (E4 compiles) ts) (parse_e4 compiles f ts)
    E4-Ensures zero ts h = absurd (omega arith)
    E4-Ensures (suc f) ts h =
        level-Ensures op_numeric4 (parse_e5 compiles f) (parse_e4 compiles f) ts
          (E5-Ensures f ts (omega arith)) (λ vs l. E4-Ensures f vs (omega arith))
          (λ us e d. Grammar.e4_single d) (λ us vs t l r a o b. Grammar.e4_binary t a o b)

    E5-Ensures :
        (f : ℕ) (ts : List Token)
        → 6 * length ts + 2 ≤ f
        → Ensures (Took (E5 compiles) ts) (parse_e5 compiles f ts)
    E5-Ensures zero ts h = absurd (omega arith)
    E5-Ensures (suc f) [] h = E5-empty f
    E5-Ensures (suc f) (t ∷ ts) h = E5-front f t ts (
        e5_case-Ensures t ts (parse_e1 compiles f) (parse_args compiles f true)
          (E1-Ensures f ts (omega arith)) (λ us l. Args-Ensures f true us (omega arith)) t.type
          refl)

    Args-Ensures :
        (f : ℕ) (first : Bool) (ts : List Token)
        → 6 * length ts + 7 ≤ f
        → Ensures (Took (Args compiles first) ts) (parse_args compiles f first ts)
    Args-Ensures zero first ts h = absurd (omega arith)
    Args-Ensures (suc f) first ts h =
        Args-step-Ensures (parse_e1 compiles f) (parse_args compiles f false) first ts
          (λ us l. E1-Ensures f us (omega arith)) (λ us l. Args-Ensures f false us (omega arith))

  finish-Ensures :
      (ts : List Token) (e : Expr) (rest : List Token)
      → Took (E1 compiles) ts e rest
      → Ensures (λ e rest. (rest ≡ []) × E1 compiles ts e) (finish e rest)
  unfolding finish
  finish-Ensures ts e [] k =
      holds (refl, subst (λ us. E1 compiles us e) (sym (append-nil k.used) ∙ sym k.split) k.derives)
  finish-Ensures ts e (t ∷ rest) k = rejected

  -- On every list of tokens _parse ends: it throws a CompileError, stops at a literal that is no
  -- integer, or gives an expression that the grammar derives from all the tokens.
  pub parse-Ensures :
      (ts : List Token) → Ensures (λ e rest. (rest ≡ []) × E1 compiles ts e) (parse compiles ts)
  unfolding parse
  parse-Ensures [] = rejected
  parse-Ensures (t ∷ ts) =
      Ensures-bind (parse_e1 compiles (6 * length (t ∷ ts) + 6)) _
        (E1-Ensures (6 * length (t ∷ ts) + 6) (t ∷ ts) (omega arith))
        λ e rest k. finish-Ensures (t ∷ ts) e rest k
