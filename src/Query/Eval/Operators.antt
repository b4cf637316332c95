-- ===== src/Query/Eval/Operators.antt =====
-- BinaryOperatorExpr of src/lib/schwa/dr/query.cc: the types of what it gives, and that it leaves the
-- EvalContext as it was.
use libschwa.Prelude.{ℕ, ◌≡◌, refl, Bool, true, false, ◌==◌, bit_and, bit_or, Option, none, some}
use libschwa.Prelude.Int.{ℤ, pos}
use libschwa.Exec.{ok, Exec, pure}
use libschwa.Exec.Post.{Post, returns, throws, Post-bind_same, Post-if}
use libschwa.Query.Syntax.{Text, str_eq, Expr, binary}
use libschwa.Query.Value.{
  Value, integer, regex, string, type_of, type_integer, type_regex, type_string, as_int,
  check_accepts, check_same_accepts,
}
use libschwa.Query.Context.{EvalContext}
use libschwa.Query.Operators
use libschwa.Query.Operators.{
  number, on_ints, on_either, both_ints, both_either, on_match, string_and_regex, full_match, found,
  binary_value,
}
use libschwa.Query.Eval.Types.{types, Has-if}
use libschwa.Query.Eval.Variables.{Gives}

pub check_accepts-Post :
    (type mask : ℕ) (c : EvalContext) → Post (λ u d. Unit {0} × (d ≡ c)) (check_accepts type mask c)
unfolding check_accepts
check_accepts-Post type mask c =
    Post-if (bit_and type mask == 0) _ _ c (λ e. throws) (λ e. returns (tt, refl))

check_same_accepts-Post :
    (t1 t2 mask : ℕ) (c : EvalContext)
    → Post (λ u d. Unit {0} × (d ≡ c)) (check_same_accepts t1 t2 mask c)
unfolding check_same_accepts
check_same_accepts-Post t1 t2 mask c =
    Post-if (bit_and t1 mask == 0) _ _ c (λ e. throws)
      λ e.
        Post-if (bit_and t2 mask == 0) _ _ c (λ e. throws)
          λ e. Post-if (t1 == t2) _ _ c (λ e. returns (tt, refl)) (λ e. throws)

module _ (c : EvalContext) where
  module _ {P : Value → EvalContext → Type 0} (f : ℤ → ℤ → Exec EvalContext Value)
      (f_Post : (m n : ℤ) → Post P (f m n c)) where
    on_ints-Post : (v1 v2 : Value) → Post P (on_ints f v1 v2 c)
    unfolding on_ints
    on_ints-Post (integer m) (integer n) = f_Post m n
    on_ints-Post _ _ = throws

    both_ints-Post : (v1 v2 : Value) → Post P (both_ints f v1 v2 c)
    unfolding both_ints
    both_ints-Post v1 v2 =
        Post-bind_same (check_same_accepts (type_of v1) (type_of v2) type_integer) _
          (check_same_accepts-Post (type_of v1) (type_of v2) type_integer c)
          λ _ _. on_ints-Post v1 v2

    module _ (g : Text → Text → Exec EvalContext Value)
        (g_Post : (s t : Text) → Post P (g s t c)) where
      on_either-Post : (v1 v2 : Value) → Post P (on_either f g v1 v2 c)
      unfolding on_either
      on_either-Post (integer m) (integer n) = f_Post m n
      on_either-Post (string s) (string t) = g_Post s t
      on_either-Post _ _ = throws

      both_either-Post : (v1 v2 : Value) → Post P (both_either f g v1 v2 c)
      unfolding both_either
      both_either-Post v1 v2 =
          Post-bind_same
            (check_same_accepts (type_of v1) (type_of v2) (bit_or type_integer type_string)) _
            (check_same_accepts-Post (type_of v1) (type_of v2) (bit_or type_integer type_string) c)
            λ _ _. on_either-Post v1 v2

  module _ {P : Value → EvalContext → Type 0} (f : Text → Text → Exec EvalContext Value)
      (f_Post : (s re : Text) → Post P (f s re c)) where
    on_match-Post : (v1 v2 : Value) → Post P (on_match f v1 v2 c)
    unfolding on_match
    on_match-Post (string s) (regex re) = f_Post s re
    on_match-Post _ _ = throws

    string_and_regex-Post : (v1 v2 : Value) → Post P (string_and_regex f v1 v2 c)
    unfolding string_and_regex
    string_and_regex-Post v1 v2 =
        Post-bind_same (check_accepts (type_of v1) type_string) _
          (check_accepts-Post (type_of v1) type_string c)
          λ _ _.
            Post-bind_same (check_accepts (type_of v2) type_regex) _
              (check_accepts-Post (type_of v2) type_regex c) λ _ _. on_match-Post v1 v2

  module _ (search : Text → Text → Option ℕ) (token : Text) (left right : Expr) where
    abbrev Goal : Value → EvalContext → Type 0
    Goal = Gives c (types (binary token left right))

    -- Integers are what every operator may give, strings what `+` may.
    integer-Post : (n : ℤ) → Post Goal (ok (integer n), c)
    unfolding types type_of
    integer-Post n =
        returns
          (Has-if (str_eq token Operators.plus_op) 68 4 (integer n) (λ e. refl) (λ e. refl), refl)

    string-Post : (s : Text) → str_eq token Operators.plus_op ≡ true → Post Goal (ok (string s), c)
    unfolding types type_of
    string-Post s h = returns (
      Has-if (str_eq token Operators.plus_op) 68 4 (string s) (λ e. refl) (λ e. absurd (cc (h, e))),
      refl,
    )

    as_int-Post : (b : Bool) → Post Goal (ok (as_int b), c)
    unfolding as_int
    as_int-Post true = integer-Post (pos 1)
    as_int-Post false = integer-Post (pos 0)

    number-Post : (n : Option ℤ) → Post Goal (number n c)
    unfolding number
    number-Post none = throws
    number-Post (some n) = integer-Post n

    test_ints :
        (f : ℤ → ℤ → Bool) (v1 v2 : Value)
        → Post Goal (both_ints (λ m n. pure (as_int (f m n))) v1 v2 c)
    test_ints f = both_ints-Post (λ m n. pure (as_int (f m n))) (λ m n. as_int-Post (f m n))

    test_either :
        (f : ℤ → ℤ → Bool) (g : Text → Text → Bool) (v1 v2 : Value)
        → Post Goal
            (both_either (λ m n. pure (as_int (f m n))) (λ s t. pure (as_int (g s t))) v1 v2 c)
    test_either f g =
        both_either-Post (λ m n. pure (as_int (f m n))) (λ m n. as_int-Post (f m n))
          (λ s t. pure (as_int (g s t))) (λ s t. as_int-Post (g s t))

    test_match :
        (f : Text → Text → Bool) (v1 v2 : Value)
        → Post Goal (string_and_regex (λ s re. pure (as_int (f s re))) v1 v2 c)
    test_match f =
        string_and_regex-Post (λ s re. pure (as_int (f s re))) (λ s re. as_int-Post (f s re))

    calculate :
        (f : ℤ → ℤ → Option ℤ) (v1 v2 : Value)
        → Post Goal (both_ints (λ m n. number (f m n)) v1 v2 c)
    calculate f = both_ints-Post (λ m n. number (f m n)) (λ m n. number-Post (f m n))

    pub binary_value-Post : (v1 v2 : Value) → Post Goal (binary_value search token v1 v2 c)
    unfolding binary_value
    binary_value-Post v1 v2 =
        Post-if (str_eq token Operators.and_op) _ _ c (λ e. test_ints _ v1 v2)
          λ e.
            Post-if (str_eq token Operators.or_op) _ _ c (λ e. test_ints _ v1 v2)
              λ e.
                Post-if (str_eq token Operators.eq_op) _ _ c (λ e. test_either _ _ v1 v2)
                  λ e.
                    Post-if (str_eq token Operators.ne_op) _ _ c (λ e. test_either _ _ v1 v2)
                      λ e.
                        Post-if (str_eq token Operators.le_op) _ _ c (λ e. test_ints _ v1 v2)
                          λ e.
                            Post-if (str_eq token Operators.lt_op) _ _ c (λ e. test_ints _ v1 v2)
                              λ e.
                                Post-if (str_eq token Operators.ge_op) _ _ c
                                  (λ e. test_ints _ v1 v2)
                                  λ e.
                                    Post-if (str_eq token Operators.gt_op) _ _ c
                                      (λ e. test_ints _ v1 v2)
                                      λ e.
                                        Post-if (str_eq token Operators.matches_op) _ _ c
                                          (λ e. test_match _ v1 v2)
                                          λ e.
                                            Post-if (str_eq token Operators.finds_op) _ _ c
                                              (λ e. test_match _ v1 v2)
                                              λ e.
                                                Post-if (str_eq token Operators.plus_op) _ _ c
                                                  (λ e.
                                                    both_either-Post _ (λ m n. number-Post _) _
                                                      (λ s t. string-Post _ e) v1 v2)
                                                  λ e.
                                                    Post-if (str_eq token Operators.minus_op) _ _ c
                                                      (λ e. calculate _ v1 v2)
                                                      λ e.
                                                        Post-if (str_eq token Operators.percent_op)
                                                          _ _ c (λ e. calculate _ v1 v2)
                                                          λ e.
                                                            Post-if
                                                            (str_eq token Operators.times_op) _ _ c
                                                            (λ e. calculate _ v1 v2)
                                                            λ e.
                                                            Post-if (str_eq token Operators.over_op)
                                                            _ _ c (λ e. calculate _ v1 v2)
                                                            (λ e. throws)
