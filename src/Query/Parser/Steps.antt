-- ===== src/Query/Parser/Steps.antt =====
-- The functions of the parser in src/lib/schwa/dr/query.cc on tokens of a known shape.
use libschwa.Prelude.{
  ℕ, suc, ◌<◌, ◌≤◌, ◌≡◌, ◌≢◌, refl, sym, ap, subst, ◌∙◌, inl, inr, Bool, true, false, none, some,
  List, [], ◌∷◌, ◌++◌, append_assoc, length, Bool-cases, arith,
}
use libschwa.Prelude.Int.{ℤ}
use libschwa.Exec.{ok, Exec, ◌>>=◌}
use libschwa.Query.Syntax.{
  Text, TokenType, literal_integer, literal_regex, literal_string, op_boolean, op_comparison,
  op_numeric3, op_numeric4, function, var, var_attribute, open_paren, close_paren, comma, Token,
  Expr, Exprs, binary, integer, string, variable, call, no_args, arg_and, regex,
}
use libschwa.Query.Numbers.{scan_int}
use libschwa.Query.Grammar.{
  E1, E2, E3, E4, E5, Args, e1_single, e1_binary, e2_single, e2_binary, e3_single, e3_binary,
  e4_single, e4_binary, e5_paren, e5_integer, e5_regex, e5_string, e5_variable, e5_attribute,
  e5_call, args_end, args_next,
}
use libschwa.Query.Parser.{
  code, is_type, take_op, joined, next_token, expect, at_close, comma_unless, e5_case, parse_e1,
  parse_e5, parse_args,
}
use libschwa.Query.Parser.Ensures.{is_type_eq, is_type→eq}

-- How far out in the grammar a token binds what stands before it.
unfoldable pub rank : TokenType → ℕ
rank var_attribute = 1
rank op_numeric4 = 2
rank op_numeric3 = 3
rank op_comparison = 4
rank op_boolean = 5
rank _ = 6

-- What follows does not go on with an expression of the level `n`.
abbrev pub Stops : ℕ → List Token → Type 0
Stops n [] = Unit {0}
Stops n (t ∷ ts) = n < rank t.type

take_op-here :
    (op : TokenType) (t : Token) (ts : List Token)
    → t.type ≡ op
    → take_op op (t ∷ ts) ≡ (ok (some t.text), ts)
unfolding take_op
take_op-here op t ts h = rw (is_type_eq op t h)

-- Types that some number tells apart are not equal.
is_type-ne :
    (number : TokenType → ℕ) (op : TokenType) (t : Token)
    → number op ≢ number t.type
    → is_type op t ≡ false
is_type-ne number op t h = elim (Bool-cases (is_type op t)) [
  | inl e ↦ absurd (h (ap number (sym (is_type→eq op t e))))
  | inr e ↦ e
]

-- An operator of another level, or none, is left alone.
pub take_op-none :
    (op : TokenType) (n : ℕ) (ts : List Token)
    → rank op ≤ n
    → Stops n ts
    → take_op op ts ≡ (ok none, ts)
unfolding take_op
take_op-none op n [] h s = refl
take_op-none op n (t ∷ ts) h s = rw (is_type-ne rank op t (λ e. omega (arith, e)))

pub Stops-le : (m n : ℕ) (ts : List Token) → m ≤ n → Stops n ts → Stops m ts
Stops-le m n [] h s = tt
Stops-le m n (t ∷ ts) h s = omega (arith, s)

-- The first token of an expression is none of those that may follow one.
pub record Starts (us : List Token) : Type 0 where
  pub first : Token
  pub later : List Token
  pub split : us ≡ first ∷ later
  pub opens : is_type close_paren first ≡ false

pub Starts-append : {us : List Token} (vs : List Token) → Starts us → Starts (us ++ vs)
Starts-append vs s = record {
  first = s.first;
  later = s.later ++ vs;
  split = ap (λ xs. xs ++ vs) s.split;
  opens = s.opens;
}

one-Starts :
    (op : TokenType) (t : Token) (us : List Token)
    → t.type ≡ op
    → is_type close_paren (record { type = op; text = [] }) ≡ false
    → Starts (t ∷ us)
unfolding is_type
one-Starts op t us h e = record { first = t; later = us; split = refl; opens = rw h e }

-- A level of the parser, without and with an operator.
pub alone :
    (op : TokenType) (m n : Exec (List Token) Expr) (ts rest : List Token) (l : Expr)
    → m ts ≡ (ok l, rest)
    → take_op op rest ≡ (ok none, rest)
    → (do left ← m; o ← take_op op; joined left n o) ts ≡ (ok l, rest)
unfolding joined ◌>>=◌
alone op m n ts rest l e h = rw (e, h) refl

pub both :
    (op : TokenType) (m n : Exec (List Token) Expr) (us vs rest : List Token) (t : Token)
    (l r : Expr)
    → m (us ++ t ∷ (vs ++ rest)) ≡ (ok l, t ∷ (vs ++ rest))
    → t.type ≡ op
    → n (vs ++ rest) ≡ (ok r, rest)
    → (do left ← m; o ← take_op op; joined left n o) ((us ++ t ∷ vs) ++ rest)
      ≡ (ok (binary t.text l r), rest)
unfolding joined ◌>>=◌
both op m n us vs rest t l r e h k =
    rw (append_assoc us (t ∷ vs) rest, e, take_op-here op t (vs ++ rest) h, k) refl

expect-here :
    (op : TokenType) (t : Token) (ts : List Token) → t.type ≡ op → expect op (t ∷ ts) ≡ (ok tt, ts)
unfolding expect next_token ◌>>=◌
expect-here op t ts h = rw (is_type_eq op t h) refl

pub Starts-positive : {us : List Token} → Starts us → 1 ≤ length us
Starts-positive s = rw s.split (omega arith)

pub Stops-at :
    (n m : ℕ) (op : TokenType) (t : Token) (ts : List Token)
    → t.type ≡ op
    → rank op ≡ m
    → n < m
    → Stops n (t ∷ ts)
Stops-at n m op t ts h r l = rw (h, r) l

module _ (compiles : Text → Bool) where
  mutual
    unfolding is_type code

    pub E1-Starts : {us : List Token} {e : Expr} → E1 compiles us e → Starts us
    E1-Starts (e1_single d) = E2-Starts d
    E1-Starts (e1_binary {vs = vs} t d o r) = Starts-append (t ∷ vs) (E2-Starts d)

    E2-Starts : {us : List Token} {e : Expr} → E2 compiles us e → Starts us
    E2-Starts (e2_single d) = E3-Starts d
    E2-Starts (e2_binary {vs = vs} t d o r) = Starts-append (t ∷ vs) (E3-Starts d)

    E3-Starts : {us : List Token} {e : Expr} → E3 compiles us e → Starts us
    E3-Starts (e3_single d) = E4-Starts d
    E3-Starts (e3_binary {vs = vs} t d o r) = Starts-append (t ∷ vs) (E4-Starts d)

    E4-Starts : {us : List Token} {e : Expr} → E4 compiles us e → Starts us
    E4-Starts (e4_single d) = E5-Starts d
    E4-Starts (e4_binary {vs = vs} t d o r) = Starts-append (t ∷ vs) (E5-Starts d)

    E5-Starts : {us : List Token} {e : Expr} → E5 compiles us e → Starts us
    E5-Starts (e5_paren {us = us} t u h d k) = one-Starts open_paren t _ h refl
    E5-Starts (e5_integer t h e) = one-Starts literal_integer t [] h refl
    E5-Starts (e5_regex t h e) = one-Starts literal_regex t [] h refl
    E5-Starts (e5_string t h) = one-Starts literal_string t [] h refl
    E5-Starts (e5_variable t h) = one-Starts var t [] h refl
    E5-Starts (e5_attribute t a h k) = one-Starts var t _ h refl
    E5-Starts (e5_call t o h k d) = one-Starts function t _ h refl

  pub E5-front :
      (f : ℕ) (type : TokenType) (t : Token) (ts : List Token)
      → t.type ≡ type
      → parse_e5 compiles (suc f) (t ∷ ts)
        ≡ e5_case compiles (parse_e1 compiles f) (parse_args compiles f true) type t.text ts
  unfolding parse_e5 next_token ◌>>=◌
  E5-front f type t ts h = rw h refl

  module _ (e1 : Exec (List Token) Expr) (args : Exec (List Token) Exprs) where
    pub paren_case :
        (text : Text) (us rest : List Token) (u : Token) (e : Expr)
        → e1 (us ++ u ∷ rest) ≡ (ok e, u ∷ rest)
        → u.type ≡ close_paren
        → e5_case compiles e1 args open_paren text ((us ++ u ∷ []) ++ rest) ≡ (ok e, rest)
    unfolding e5_case ◌>>=◌
    paren_case text us rest u e h k =
        rw (append_assoc us (u ∷ []) rest, h, expect-here close_paren u rest k) refl

    pub integer_case :
        (text : Text) (n : ℤ) (ts : List Token)
        → scan_int text ≡ some n
        → e5_case compiles e1 args literal_integer text ts ≡ (ok (integer n), ts)
    unfolding e5_case
    integer_case text n ts h = rw (h, e5_case) refl

    pub regex_case :
        (text : Text) (ts : List Token)
        → compiles text ≡ true
        → e5_case compiles e1 args literal_regex text ts ≡ (ok (regex text), ts)
    unfolding e5_case
    regex_case text ts h = rw (h, e5_case) refl

    pub string_case :
        (text : Text) (ts : List Token)
        → e5_case compiles e1 args literal_string text ts ≡ (ok (string text), ts)
    unfolding e5_case
    string_case text ts = refl

    pub variable_case :
        (text : Text) (rest : List Token)
        → Stops 1 rest
        → e5_case compiles e1 args var text rest ≡ (ok (variable text none), rest)
    unfolding e5_case ◌>>=◌
    variable_case text rest s =
        rw (take_op-none var_attribute 1 rest (unfold rank in omega arith) s) refl

    pub attribute_case :
        (text : Text) (a : Token) (rest : List Token)
        → a.type ≡ var_attribute
        → e5_case compiles e1 args var text (a ∷ rest) ≡ (ok (variable text (some a.text)), rest)
    unfolding e5_case ◌>>=◌
    attribute_case text a rest h = rw (take_op-here var_attribute a rest h) refl

    pub call_case :
        (text : Text) (o : Token) (ts rest : List Token) (es : Exprs)
        → o.type ≡ open_paren
        → args ts ≡ (ok es, rest)
        → e5_case compiles e1 args function text (o ∷ ts) ≡ (ok (call text es), rest)
    unfolding e5_case ◌>>=◌
    call_case text o ts rest es h k = rw (expect-here open_paren o ts h, k) refl

  -- The loop over arguments, at its end and with an argument.
  pub args_end_case :
      (f : ℕ) (first : Bool) (u : Token) (rest : List Token)
      → u.type ≡ close_paren
      → parse_args compiles (suc f) first (u ∷ rest) ≡ (ok no_args, rest)
  unfolding parse_args at_close ◌>>=◌
  args_end_case f first u rest h = rw (is_type_eq close_paren u h) refl

  pub args_first_case :
      (f : ℕ) (ts us rest : List Token) (e : Expr) (es : Exprs)
      → Starts ts
      → parse_e1 compiles f ts ≡ (ok e, us)
      → parse_args compiles f false us ≡ (ok es, rest)
      → parse_args compiles (suc f) true ts ≡ (ok (arg_and e es), rest)
  unfolding parse_args at_close comma_unless ◌>>=◌
  args_first_case f ts us rest e es s h k =
      subst
        (λ xs.
          parse_e1 compiles f xs ≡ (ok e, us)
          → parse_args compiles (suc f) true xs ≡ (ok (arg_and e es), rest))
        (sym s.split) (λ g. rw (s.opens, g, k) refl) h

  close≢comma : code close_paren ≢ code comma
  unfolding code
  close≢comma h = omega (arith, h)

  pub args_next_case :
      (f : ℕ) (c : Token) (ts us rest : List Token) (e : Expr) (es : Exprs)
      → c.type ≡ comma
      → parse_e1 compiles f ts ≡ (ok e, us)
      → parse_args compiles f false us ≡ (ok es, rest)
      → parse_args compiles (suc f) false (c ∷ ts) ≡ (ok (arg_and e es), rest)
  unfolding parse_args at_close comma_unless ◌>>=◌
  args_next_case f c ts us rest e es o h k =
      rw
        (
          is_type-ne code close_paren c (λ x. close≢comma (x ∙ ap code o)),
          expect-here comma c ts o,
          h,
          k,
        )
        refl

  -- What is left of arguments does not go on with the expression before it.
  pub Args-Stops :
      {vs : List Token} {es : Exprs} (rest : List Token)
      → Args compiles false vs es
      → Stops 5 (vs ++ rest)
  unfolding rank
  Args-Stops rest (args_end u h) = rw h (omega arith)
  Args-Stops rest (args_next c h d k) = rw h (omega arith)
