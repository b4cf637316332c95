-- ===== src/Query/Functions.antt =====
-- FunctionExpr and the casts of src/lib/schwa/dr/query.cc. An argument is how it is evaluated.
use libschwa.Prelude.{ℕ, Bool, true, false, List, [], ◌∷◌, bit_or, length, if◌then◌else◌}
use libschwa.Prelude.Int.{ℤ, pos}
use libschwa.Exec.{assertion, runtime_error, undefined, Exec, pure, raise, ◌>>=◌, ◌>>◌}
use libschwa.Query.Syntax.{Text, str_eq}
use libschwa.Query.Numbers.{strtoll, int_text}
use libschwa.Query.Value.{
  Value, integer, missing, store, string, type_of, type_integer, type_missing, type_store,
  type_string, as_int, check_accepts,
}
use libschwa.Query.Context.{EvalContext}
use libschwa.Query.Variable.{store_iter}

abbrev pub all_name : Text
all_name = 97 ∷ 108 ∷ 108 ∷ []

abbrev pub any_name : Text
any_name = 97 ∷ 110 ∷ 121 ∷ []

abbrev pub int_name : Text
int_name = 105 ∷ 110 ∷ 116 ∷ []

abbrev pub len_name : Text
len_name = 108 ∷ 101 ∷ 110 ∷ []

abbrev pub str_name : Text
str_name = 115 ∷ 116 ∷ 114 ∷ []

abbrev pub Eval : Type 0
Eval = Exec EvalContext Value

-- The test of `*end`.
unfoldable pub whole : ℤ → Text → Exec EvalContext ℤ
whole value [] = pure value
whole value (c ∷ cs) = raise runtime_error

unfoldable pub cast_to_int : Text → Exec EvalContext ℤ
unfolding strtoll whole
cast_to_int str = let (value, end) = strtoll str in whole value end

-- The rest of `all` and `any` once their first argument is a value of a type they accept.
unfoldable pub quantify : Bool → Eval → Value → Eval
unfolding store_iter as_int
quantify is_any arg1 missing = pure (as_int false)
quantify is_any arg1 (store def) = do b ← store_iter def arg1 is_any; pure (as_int b)
quantify is_any arg1 _ = raise undefined

unfoldable pub call_quantifier : Bool → List Eval → Eval
unfolding quantify check_accepts type_of
call_quantifier is_any (arg0 ∷ arg1 ∷ []) = do
  v ← arg0
  check_accepts (type_of v) (bit_or type_missing type_store)
  quantify is_any arg1 v
call_quantifier is_any _ = raise runtime_error

unfoldable pub int_of : Value → Eval
unfolding cast_to_int
int_of (integer n) = pure (integer n)
int_of missing = pure (integer (pos 0))
int_of (string str) = do n ← cast_to_int str; pure (integer n)
int_of _ = raise undefined

unfoldable pub len_of : Value → Eval
len_of missing = pure (integer (pos 0))
len_of (string str) = pure (integer (pos (length str)))
len_of (store def) = pure (integer (pos def.lazy_nelem))
len_of _ = raise undefined

unfoldable pub str_of : Value → Eval
unfolding int_text
str_of (integer n) = pure (string (int_text n))
str_of missing = pure (string [])
str_of (string str) = pure (string str)
str_of _ = raise undefined

-- A function of one argument with a type in the mask.
unfoldable pub call_unary : ℕ → (Value → Eval) → List Eval → Eval
unfolding check_accepts type_of
call_unary mask f (arg0 ∷ []) = do v ← arg0; check_accepts (type_of v) mask; f v
call_unary mask f _ = raise runtime_error

unfoldable pub function_value : Text → List Eval → Eval
unfolding call_quantifier call_unary int_of len_of str_of str_eq
function_value token args =
    if str_eq token all_name
    then call_quantifier false args
    else if str_eq token any_name
    then call_quantifier true args
    else if str_eq token int_name
    then call_unary (bit_or type_integer (bit_or type_missing type_string)) int_of args
    else if str_eq token len_name
    then call_unary (bit_or type_missing (bit_or type_string type_store)) len_of args
    else if str_eq token str_name
    then call_unary (bit_or type_integer (bit_or type_missing type_string)) str_of args
    else raise assertion
