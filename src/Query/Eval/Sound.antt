-- ===== src/Query/Eval/Sound.antt =====
-- The evaluation of expressions in src/lib/schwa/dr/query.cc: the types of its values and what it keeps of
-- the EvalContext.
use libschwa.Prelude.{
  ℕ, ◌≡◌, refl, sym, subst, Bool, true, false, bit_or, length, Option, List, [], ◌∷◌, All,
}
use libschwa.Prelude.Int.{ℤ, pos}
use libschwa.Exec.{ok}
use libschwa.Exec.Post.{
  Post, returns, throws, Post-bind, Post-bind_same, Post-if, Post-imp, Post-ok,
}
use libschwa.Query.Syntax.{Text, str_eq, Expr, variable, binary, call, Exprs, no_args, arg_and}
use libschwa.Query.Syntax
use libschwa.Query.Numbers.{strtoll}
use libschwa.Query.Value.{
  Value, integer, missing, regex, store, string, type_of, type_missing, type_store, as_int,
  check_accepts,
}
use libschwa.Query.Context.{EvalContext}
use libschwa.Query.Variable.{store_iter}
use libschwa.Query.Functions
use libschwa.Query.Functions.{
  Eval, whole, cast_to_int, quantify, call_quantifier, int_of, len_of, str_of, call_unary,
  function_value,
}
use libschwa.Query.Eval.{eval, eval_args}
use libschwa.Query.Eval.Keeps.{Keeps, Keeps-eq, Keeps-trans, str_eq→eq}
use libschwa.Query.Eval.Types.{types, Has, Has-if}
use libschwa.Query.Eval.Variables.{variable_eval-Post}
use libschwa.Query.Eval.Operators.{check_accepts-Post, binary_value-Post}
use libschwa.Query.Eval.Stores.{store_iter-Post}

-- A value with a type of the mask, and a context that was kept.
abbrev Yields : ℕ → EvalContext → Value → EvalContext → Type 0
Yields mask c v d = Has mask v × Keeps c d

abbrev KeepsAll : Eval → Type 0
KeepsAll m = (c : EvalContext) → Post (λ v d. Keeps c d) (m c)

whole-Post : (z : ℤ) (end : Text) (c : EvalContext) → Post (λ z d. d ≡ c) (whole z end c)
unfolding whole
whole-Post z [] c = returns refl
whole-Post z (x ∷ xs) c = throws

integer-Has : (z : ℤ) → Has (types (Syntax.integer z)) (integer z)
unfolding types type_of
integer-Has z = refl

regex-Has : (t : Text) → Has (types (Syntax.regex t)) (regex t)
unfolding types type_of
regex-Has t = refl

string-Has : (t : Text) → Has (types (Syntax.string t)) (string t)
unfolding types type_of
string-Has t = refl

module _ (token : Text) (args : Exprs) where
  -- A text that is another name is not `str`.
  is_name :
      (name : Text)
      → str_eq token name ≡ true
      → str_eq name Functions.str_name ≡ false
      → str_eq token Functions.str_name ≡ false
  is_name name e h =
      subst (λ t. str_eq t Functions.str_name ≡ false) (sym (str_eq→eq token name e)) h

  abbrev Goal : EvalContext → Value → EvalContext → Type 0
  Goal = Yields (types (call token args))

  module _ (n : str_eq token Functions.str_name ≡ false) where
    integer-Goal : (c d : EvalContext) (z : ℤ) → Keeps c d → Goal c (integer z) d
    unfolding types type_of
    integer-Goal c d z k = (
      Has-if (str_eq token Functions.str_name) 64 4 (integer z) (λ e. absurd (cc (n, e)))
          (λ e. refl),
      k,
    )

    as_int-Goal : (c d : EvalContext) (b : Bool) → Keeps c d → Goal c (as_int b) d
    unfolding as_int
    as_int-Goal c d true k = integer-Goal c d (pos 1) k
    as_int-Goal c d false k = integer-Goal c d (pos 0) k

    quantify-Post :
        (is_any : Bool) (arg1 : Eval)
        → KeepsAll arg1
        → (v : Value) (b c : EvalContext) → Keeps b c
        → Post (Goal b) (quantify is_any arg1 v c)
    unfolding quantify
    quantify-Post is_any arg1 h missing b c k = returns (as_int-Goal b c false k)
    quantify-Post is_any arg1 h (store def) b c k =
        Post-bind (store_iter def arg1 is_any) _ (store_iter-Post def arg1 h is_any c)
          λ x d l. returns (as_int-Goal b d x (Keeps-trans k l))
    quantify-Post is_any arg1 h _ b c k = throws

    call_quantifier-Post :
        (is_any : Bool) (ms : List Eval)
        → All KeepsAll ms
        → (c : EvalContext) → Post (Goal c) (call_quantifier is_any ms c)
    unfolding call_quantifier
    call_quantifier-Post is_any [] h c = throws
    call_quantifier-Post is_any (m ∷ []) h c = throws
    call_quantifier-Post is_any (m ∷ n ∷ []) (h, (k, _)) c = Post-bind m _ (h c) λ v d l.
        Post-bind_same (check_accepts (type_of v) (bit_or type_missing type_store)) _
          (check_accepts-Post (type_of v) (bit_or type_missing type_store) d)
          λ _ _. quantify-Post is_any n k v c d l
    call_quantifier-Post is_any (m ∷ n ∷ o ∷ ms) h c = throws

    int_of-Post : (v : Value) (b c : EvalContext) → Keeps b c → Post (Goal b) (int_of v c)
    unfolding int_of cast_to_int
    int_of-Post (integer n) b c k = returns (integer-Goal b c n k)
    int_of-Post missing b c k = returns (integer-Goal b c (pos 0) k)
    int_of-Post (string str) b c k =
        Post-bind (cast_to_int str) _ (whole-Post (strtoll str).0 (strtoll str).1 c)
          λ z d e. returns (integer-Goal b d z (Keeps-trans k (Keeps-eq e)))
    int_of-Post _ b c k = throws

    len_of-Post : (v : Value) (b c : EvalContext) → Keeps b c → Post (Goal b) (len_of v c)
    unfolding len_of
    len_of-Post missing b c k = returns (integer-Goal b c (pos 0) k)
    len_of-Post (string str) b c k = returns (integer-Goal b c (pos (length str)) k)
    len_of-Post (store def) b c k = returns (integer-Goal b c (pos def.lazy_nelem) k)
    len_of-Post _ b c k = throws

  str_of-Post :
      str_eq token Functions.str_name ≡ true
      → (v : Value) (b c : EvalContext) → Keeps b c
      → Post (Goal b) (str_of v c)
  unfolding str_of types type_of
  str_of-Post y (integer n) b c k = returns (rw y refl, k)
  str_of-Post y missing b c k = returns (rw y refl, k)
  str_of-Post y (string str) b c k = returns (rw y refl, k)
  str_of-Post y _ b c k = throws

  call_unary-Post :
      (mask : ℕ) (f : Value → Eval)
      → ((v : Value) (b c : EvalContext) → Keeps b c → Post (Goal b) (f v c))
      → (ms : List Eval) → All KeepsAll ms
      → (c : EvalContext) → Post (Goal c) (call_unary mask f ms c)
  unfolding call_unary
  call_unary-Post mask f g [] h c = throws
  call_unary-Post mask f g (m ∷ []) (h, _) c = Post-bind m _ (h c) λ v d l.
      Post-bind_same (check_accepts (type_of v) mask) _ (check_accepts-Post (type_of v) mask d)
        λ _ _. g v c d l
  call_unary-Post mask f g (m ∷ n ∷ ms) h c = throws

  function_value-Post :
      (ms : List Eval)
      → All KeepsAll ms
      → (c : EvalContext) → Post (Goal c) (function_value token ms c)
  unfolding function_value str_eq
  function_value-Post ms h c =
      Post-if (str_eq token Functions.all_name) _ _ c
        (λ e. call_quantifier-Post (is_name Functions.all_name e refl) false ms h c)
        λ _.
          Post-if (str_eq token Functions.any_name) _ _ c
            (λ e. call_quantifier-Post (is_name Functions.any_name e refl) true ms h c)
            λ _.
              Post-if (str_eq token Functions.int_name) _ _ c
                (λ e.
                  call_unary-Post _ int_of (int_of-Post (is_name Functions.int_name e refl)) ms h c)
                λ _.
                  Post-if (str_eq token Functions.len_name) _ _ c
                    (λ e.
                      call_unary-Post _ len_of (len_of-Post (is_name Functions.len_name e refl)) ms
                        h c)
                    λ _.
                      Post-if (str_eq token Functions.str_name) _ _ c
                        (λ e. call_unary-Post _ str_of (str_of-Post e) ms h c) (λ _. throws)

module _ (search : Text → Text → Option ℕ) where
  mutual
    unfolding eval

    eval-Yields : (e : Expr) (c : EvalContext) → Post (Yields (types e) c) (eval search e c)
    eval-Yields (variable token attribute) c =
        Post-imp (λ v d (h, k). (h, Keeps-eq k)) (variable_eval-Post c token attribute)
    eval-Yields (binary token left right) c =
        Post-bind (eval search left) _ (eval-Yields left c) λ v1 d (_, h).
          Post-bind (eval search right) _ (eval-Yields right d) λ v2 e (_, k).
            Post-imp (λ v f (m, q). (m, Keeps-trans h (Keeps-trans k (Keeps-eq q))))
              (binary_value-Post e search token left right v1 v2)
    eval-Yields (call token args) c =
        function_value-Post token args (eval_args search args) (args-KeepsAll args) c
    eval-Yields (Syntax.integer value) c = returns (integer-Has value, Keeps-eq refl)
    eval-Yields (Syntax.regex text) c = returns (regex-Has text, Keeps-eq refl)
    eval-Yields (Syntax.string text) c = returns (string-Has text, Keeps-eq refl)

    args-KeepsAll : (es : Exprs) → All KeepsAll (eval_args search es)
    args-KeepsAll no_args = tt
    args-KeepsAll (arg_and e es) =
        ((λ c. Post-imp (λ v d h. h.1) (eval-Yields e c)), args-KeepsAll es)

  -- A value that an expression is evaluated to has one of the types that the expression shows.
  pub eval-types :
      (e : Expr) (c d : EvalContext) (v : Value) → eval search e c ≡ (ok v, d) → Has (types e) v
  eval-types e c d v h = (Post-ok (eval-Yields e c) h).0

  -- Its evaluation keeps the document, the stack of stores and all variables but `ann`.
  pub eval-Keeps :
      (e : Expr) (c d : EvalContext) (v : Value) → eval search e c ≡ (ok v, d) → Keeps c d
  eval-Keeps e c d v h = (Post-ok (eval-Yields e c) h).1
