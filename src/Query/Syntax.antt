-- ===== src/Query/Syntax.antt =====
-- The tokens and the expressions of src/lib/schwa/dr/query.h and query.cc.
use libschwa.Prelude.Int.{ℤ}
use libschwa.Prelude.{ℕ, Bool, true, false, ◌&&◌, Option, List, [], ◌∷◌, ◌==◌}

-- A C string: its bytes, up to its NUL.
abbrev pub Text : Type 0
Text = List ℕ

-- `std::strcmp(s, t) == 0`.
unfoldable pub str_eq : Text → Text → Bool
str_eq [] [] = true
str_eq [] (y ∷ ys) = false
str_eq (x ∷ xs) [] = false
str_eq (x ∷ xs) (y ∷ ys) = x == y && str_eq xs ys

pub data TokenType : Type 0 where
  literal_integer literal_regex literal_string : TokenType
  op_boolean op_comparison op_numeric3 op_numeric4 : TokenType
  function var var_attribute : TokenType
  open_paren close_paren comma : TokenType

-- What Interpreter::_push_token appends.
pub record Token : Type 0 where
  pub type : TokenType
  pub text : Text

-- The classes of expression nodes. An integer literal keeps `_value`; the others keep their tokens,
-- where a regular expression is known by its text.
mutual
  pub data Expr : Type 0 where
    variable : Text → Option Text → Expr
    binary : Text → Expr → Expr → Expr
    call : Text → Exprs → Expr
    integer : ℤ → Expr
    regex : Text → Expr
    string : Text → Expr

  pub data Exprs : Type 0 where
    no_args : Exprs
    arg_and : Expr → Exprs → Exprs
