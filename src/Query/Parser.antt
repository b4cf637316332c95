-- ===== src/Query/Parser.antt =====
-- The recursive-descent parser of src/lib/schwa/dr/query.cc. The state is `_tokens`.
pub mod Ensures
pub mod Sound
pub mod Steps
pub mod Complete
use libschwa.Prelude.{
  ℕ, zero, suc, ◌+◌, ◌*◌, Bool, true, false, Option, none, some, List, [], ◌∷◌, if◌then◌else◌,
  length, ◌==◌,
}
use libschwa.Exec.{assertion, compile_error, err, out_of_fuel, ok, Exec, pure, raise, ◌>>=◌, ◌>>◌}
use libschwa.Query.Numbers.{scan_int}
use libschwa.Query.Syntax.{
  Text, TokenType, literal_integer, literal_regex, literal_string, op_boolean, op_comparison,
  op_numeric3, op_numeric4, function, var, var_attribute, open_paren, close_paren, comma, Token,
  Expr, variable, binary, call, integer, regex, string, Exprs, no_args, arg_and,
}

-- Numbers for the token types, to compare them.
unfoldable pub code : TokenType → ℕ
code literal_integer = 0
code literal_regex = 1
code literal_string = 2
code op_boolean = 3
code op_comparison = 4
code op_numeric3 = 5
code op_numeric4 = 6
code function = 7
code var = 8
code var_attribute = 9
code open_paren = 10
code close_paren = 11
code comma = 12

unfoldable pub is_type : TokenType → Token → Bool
unfolding code
is_type op t = code t.type == code op

-- The front token, which must be there, popped.
unfoldable pub next_token : Exec (List Token) Token
next_token [] = (err compile_error, [])
next_token (t ∷ ts) = (ok t, ts)

-- The text of the front token, popped, if there is one and it has the type.
unfoldable pub take_op : TokenType → Exec (List Token) (Option Text)
unfolding is_type
take_op op [] = (ok none, [])
take_op op (t ∷ ts) = if is_type op t then (ok (some t.text), ts) else (ok none, t ∷ ts)

-- The node for an operator and what comes after it, if there is one.
unfoldable pub joined : Expr → Exec (List Token) Expr → Option Text → Exec (List Token) Expr
joined left parse_right none = pure left
joined left parse_right (some op) = do right ← parse_right; pure (binary op left right)

-- Whether the front token closes the arguments; then it is popped.
unfoldable pub at_close : Exec (List Token) Bool
unfolding is_type
at_close [] = (err compile_error, [])
at_close (t ∷ ts) = if is_type close_paren t then (ok true, ts) else (ok false, t ∷ ts)

-- The next token, which must have the type.
unfoldable pub expect : TokenType → Exec (List Token) (Unit {0})
unfolding is_type next_token
expect type = do t ← next_token; if is_type type t then pure tt else raise compile_error

unfoldable pub comma_unless : Bool → Exec (List Token) (Unit {0})
unfolding expect
comma_unless true = pure tt
comma_unless false = expect comma

-- The test of _parse that no token is left.
unfoldable pub finish : Expr → Exec (List Token) Expr
finish e [] = (ok e, [])
finish e (t ∷ ts) = (err compile_error, t ∷ ts)

-- `compiles` says whether std::regex takes a text.
module _ (compiles : Text → Bool) where
  -- The cases of _parse_e5, with the calls of _parse_e1 and of the loop over arguments.
  unfoldable pub e5_case :
      Exec (List Token) Expr → Exec (List Token) Exprs → TokenType → Text → Exec (List Token) Expr
  unfolding expect take_op
  e5_case e1 args open_paren text = do e ← e1; expect close_paren; pure e
  e5_case e1 args literal_integer text = elim (scan_int text) [
    | none ↦ raise assertion
    | some n ↦ pure (integer n)
  ]
  e5_case e1 args literal_regex text =
      if compiles text then pure (regex text) else raise compile_error
  e5_case e1 args literal_string text = pure (string text)
  e5_case e1 args var text = do attribute ← take_op var_attribute; pure (variable text attribute)
  e5_case e1 args function text = do expect open_paren; as_ ← args; pure (call text as_)
  e5_case e1 args _ text = λ ts. (err compile_error, [])

  -- A call needs a unit of fuel.
  unfoldable mutual
    unfolding take_op joined next_token e5_case at_close comma_unless

    pub parse_e1 : ℕ → Exec (List Token) Expr
    parse_e1 zero = raise out_of_fuel
    parse_e1 (suc f) = do left ← parse_e2 f; op ← take_op op_boolean; joined left (parse_e1 f) op

    pub parse_e2 : ℕ → Exec (List Token) Expr
    parse_e2 zero = raise out_of_fuel
    parse_e2 (suc f) = do left ← parse_e3 f; op ← take_op op_comparison; joined left (parse_e3 f) op

    pub parse_e3 : ℕ → Exec (List Token) Expr
    parse_e3 zero = raise out_of_fuel
    parse_e3 (suc f) = do left ← parse_e4 f; op ← take_op op_numeric3; joined left (parse_e3 f) op

    pub parse_e4 : ℕ → Exec (List Token) Expr
    parse_e4 zero = raise out_of_fuel
    parse_e4 (suc f) = do left ← parse_e5 f; op ← take_op op_numeric4; joined left (parse_e4 f) op

    pub parse_e5 : ℕ → Exec (List Token) Expr
    parse_e5 zero = raise out_of_fuel
    parse_e5 (suc f) = do t ← next_token; e5_case (parse_e1 f) (parse_args f true) t.type t.text

    -- The loop over the arguments of a function; `first` is `args.empty()`.
    pub parse_args : ℕ → Bool → Exec (List Token) Exprs
    parse_args zero first = raise out_of_fuel
    parse_args (suc f) first = do
      closed ← at_close
      if closed then pure no_args else do
        comma_unless first
        arg ← parse_e1 f
        rest ← parse_args f false
        pure (arg_and arg rest)

  -- Interpreter::_parse; a nesting of six calls for each token is enough.
  unfoldable pub parse : Exec (List Token) Expr
  unfolding parse_e1 finish
  parse [] = (err compile_error, [])
  parse (t ∷ ts) = (do e ← parse_e1 (6 * length (t ∷ ts) + 6); finish e) (t ∷ ts)
