-- ===== src/Query/Eval.antt =====
-- The evaluation of expressions and the Interpreter of src/lib/schwa/dr/query.cc.
pub mod Keeps
pub mod Types
pub mod Variables
pub mod Operators
pub mod Stores
pub mod Sound
pub mod Loops
use libschwa.Prelude.{ℕ, Bool, true, false, Option, none, some, List, [], ◌∷◌}
use libschwa.Prelude.Int.{pos}
use libschwa.Exec.{Result, Exec, pure, ◌>>=◌, ◌>>◌}
use libschwa.Query.Syntax.{Text, Token, Expr, variable, binary, call, Exprs, no_args, arg_and}
use libschwa.Query.Syntax
use libschwa.Query.Parser.{parse}
use libschwa.Query.Value.{RtSchema, Value, document, integer, regex, string}
use libschwa.Query.Context.{EvalContext, set_var}
use libschwa.Query.Variable.{variable_eval}
use libschwa.Query.Operators.{binary_value}
use libschwa.Query.Functions.{Eval, function_value}

abbrev pub doc_name : Text
doc_name = 100 ∷ 111 ∷ 99 ∷ []

abbrev pub index_name : Text
index_name = 105 ∷ 110 ∷ 100 ∷ 101 ∷ 120 ∷ []

module _ (search : Text → Text → Option ℕ) where
  unfoldable mutual
    unfolding variable_eval binary_value function_value

    pub eval : Expr → Eval
    eval (variable token attribute) = variable_eval token attribute
    eval (binary token left right) = do
      v1 ← eval left
      v2 ← eval right
      binary_value search token v1 v2
    eval (call token args) = function_value token (eval_args args)
    eval (Syntax.integer value) = pure (integer value)
    eval (Syntax.regex token) = pure (regex token)
    eval (Syntax.string token) = pure (string token)

    pub eval_args : Exprs → List Eval
    eval_args no_args = []
    eval_args (arg_and e es) = eval e ∷ eval_args es

  -- Interpreter::eval, on a document by what `rt()->doc` is.
  unfoldable pub interpret : Expr → Option RtSchema → ℕ → Result Value × EvalContext
  unfolding eval set_var
  interpret expr doc doc_num =
      (do set_var doc_name document; set_var index_name (integer (pos doc_num)); eval expr)
        (record { doc = doc; stores = []; vars = [] })
