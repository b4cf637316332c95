-- ===== src/Query/Grammar.antt =====
-- The grammar that src/lib/schwa/dr/query.cc parses, as derivations of an expression from tokens. It
-- is the grammar of the comment there with the left operands of <e2>, <e3> and <e4> one level down.
use libschwa.Prelude.{◌≡◌, Bool, true, false, none, some, List, [], ◌∷◌, ◌++◌}
use libschwa.Prelude.Int.{ℤ}
use libschwa.Query.Numbers.{scan_int}
use libschwa.Query.Syntax.{
  Text, literal_integer, literal_regex, literal_string, op_boolean, op_comparison, op_numeric3,
  op_numeric4, function, var, var_attribute, open_paren, close_paren, comma, Token, Expr, variable,
  binary, call, integer, regex, string, Exprs, no_args, arg_and,
}

module _ (compiles : Text → Bool) where
  mutual
    pub data E1 : List Token → Expr → Type 0 where
      e1_single : {us : List Token} {e : Expr} → E2 us e → E1 us e
      e1_binary :
          {us vs : List Token} {l r : Expr} (t : Token)
          → E2 us l
          → t.type ≡ op_boolean
          → E1 vs r
          → E1 (us ++ t ∷ vs) (binary t.text l r)

    pub data E2 : List Token → Expr → Type 0 where
      e2_single : {us : List Token} {e : Expr} → E3 us e → E2 us e
      e2_binary :
          {us vs : List Token} {l r : Expr} (t : Token)
          → E3 us l
          → t.type ≡ op_comparison
          → E3 vs r
          → E2 (us ++ t ∷ vs) (binary t.text l r)

    pub data E3 : List Token → Expr → Type 0 where
      e3_single : {us : List Token} {e : Expr} → E4 us e → E3 us e
      e3_binary :
          {us vs : List Token} {l r : Expr} (t : Token)
          → E4 us l
          → t.type ≡ op_numeric3
          → E3 vs r
          → E3 (us ++ t ∷ vs) (binary t.text l r)

    pub data E4 : List Token → Expr → Type 0 where
      e4_single : {us : List Token} {e : Expr} → E5 us e → E4 us e
      e4_binary :
          {us vs : List Token} {l r : Expr} (t : Token)
          → E5 us l
          → t.type ≡ op_numeric4
          → E4 vs r
          → E4 (us ++ t ∷ vs) (binary t.text l r)

    pub data E5 : List Token → Expr → Type 0 where
      e5_paren :
          {us : List Token} {e : Expr} (t u : Token)
          → t.type ≡ open_paren
          → E1 us e
          → u.type ≡ close_paren
          → E5 (t ∷ (us ++ u ∷ [])) e
      e5_integer :
          {n : ℤ} (t : Token)
          → t.type ≡ literal_integer
          → scan_int t.text ≡ some n
          → E5 (t ∷ []) (integer n)
      e5_regex :
          (t : Token) → t.type ≡ literal_regex → compiles t.text ≡ true → E5 (t ∷ []) (regex t.text)
      e5_string : (t : Token) → t.type ≡ literal_string → E5 (t ∷ []) (string t.text)
      e5_variable : (t : Token) → t.type ≡ var → E5 (t ∷ []) (variable t.text none)
      e5_attribute :
          (t a : Token)
          → t.type ≡ var
          → a.type ≡ var_attribute
          → E5 (t ∷ a ∷ []) (variable t.text (some a.text))
      e5_call :
          {us : List Token} {es : Exprs} (t o : Token)
          → t.type ≡ function
          → o.type ≡ open_paren
          → Args true us es
          → E5 (t ∷ o ∷ us) (call t.text es)

    -- The arguments of a function up to its closing parenthesis, with a comma before each but the
    -- first.
    pub data Args : Bool → List Token → Exprs → Type 0 where
      args_end : {first : Bool} (u : Token) → u.type ≡ close_paren → Args first (u ∷ []) no_args
      args_first :
          {us vs : List Token} {e : Expr} {es : Exprs}
          → E1 us e
          → Args false vs es
          → Args true (us ++ vs) (arg_and e es)
      args_next :
          {us vs : List Token} {e : Expr} {es : Exprs} (c : Token)
          → c.type ≡ comma
          → E1 us e
          → Args false vs es
          → Args false (c ∷ (us ++ vs)) (arg_and e es)
