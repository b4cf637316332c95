-- ===== src/Query/Operators.antt =====
-- BinaryOperatorExpr of src/lib/schwa/dr/query.cc. The regular expressions are std::regex's, so their
-- search is a parameter.
use libschwa.Prelude.{
  ℕ, Bool, true, false, ◌&&◌, ◌||◌, not, ◌==◌, Option, none, some, [], ◌∷◌, ◌++◌, bit_or, length,
  if◌then◌else◌,
}
use libschwa.Prelude.Int.{ℤ, leb_ℤ}
use libschwa.Exec.{assertion, undefined, Exec, pure, raise, ◌>>◌}
use libschwa.Query.Syntax.{Text, str_eq}
use libschwa.Query.Int64.{add_ℤ, sub_ℤ, mul_ℤ, div_ℤ, rem_ℤ, checked, checked_quotient}
use libschwa.Query.Value.{
  Value, integer, string, regex, type_of, type_integer, type_regex, type_string, int_to_bool,
  as_int, check_accepts, check_same_accepts,
}
use libschwa.Query.Context.{EvalContext}

-- The texts of the operators.
abbrev pub and_op : Text
and_op = 38 ∷ 38 ∷ []

abbrev pub or_op : Text
or_op = 124 ∷ 124 ∷ []

abbrev pub eq_op : Text
eq_op = 61 ∷ 61 ∷ []

abbrev pub ne_op : Text
ne_op = 33 ∷ 61 ∷ []

abbrev pub le_op : Text
le_op = 60 ∷ 61 ∷ []

abbrev pub lt_op : Text
lt_op = 60 ∷ []

abbrev pub ge_op : Text
ge_op = 62 ∷ 61 ∷ []

abbrev pub gt_op : Text
gt_op = 62 ∷ []

abbrev pub matches_op : Text
matches_op = 126 ∷ 61 ∷ []

abbrev pub finds_op : Text
finds_op = 126 ∷ []

abbrev pub plus_op : Text
plus_op = 43 ∷ []

abbrev pub minus_op : Text
minus_op = 45 ∷ []

abbrev pub percent_op : Text
percent_op = 37 ∷ []

abbrev pub times_op : Text
times_op = 42 ∷ []

abbrev pub over_op : Text
over_op = 47 ∷ []

-- A result that C++ leaves undefined where there is none.
unfoldable pub number : Option ℤ → Exec EvalContext Value
number none = raise undefined
number (some n) = pure (integer n)

-- `via._int` of both; the types were checked.
unfoldable pub on_ints : (ℤ → ℤ → Exec EvalContext Value) → Value → Value → Exec EvalContext Value
on_ints f (integer m) (integer n) = f m n
on_ints f _ _ = raise undefined

-- The same with `via._str` where the type is a string's.
unfoldable pub on_either :
    (ℤ → ℤ → Exec EvalContext Value)
    → (Text → Text → Exec EvalContext Value)
    → Value
    → Value
    → Exec EvalContext Value
on_either f g (integer m) (integer n) = f m n
on_either f g (string s) (string t) = g s t
on_either f g _ _ = raise undefined

unfoldable pub both_ints : (ℤ → ℤ → Exec EvalContext Value) → Value → Value → Exec EvalContext Value
unfolding on_ints check_same_accepts type_of
both_ints f v1 v2 = do check_same_accepts (type_of v1) (type_of v2) type_integer; on_ints f v1 v2

unfoldable pub both_either :
    (ℤ → ℤ → Exec EvalContext Value)
    → (Text → Text → Exec EvalContext Value)
    → Value
    → Value
    → Exec EvalContext Value
unfolding on_either check_same_accepts type_of
both_either f g v1 v2 = do
  check_same_accepts (type_of v1) (type_of v2) (bit_or type_integer type_string)
  on_either f g v1 v2

unfoldable pub on_match :
    (Text → Text → Exec EvalContext Value) → Value → Value → Exec EvalContext Value
on_match f (string s) (regex re) = f s re
on_match f _ _ = raise undefined

unfoldable pub string_and_regex :
    (Text → Text → Exec EvalContext Value) → Value → Value → Exec EvalContext Value
unfolding on_match check_accepts type_of
string_and_regex f v1 v2 = do
  check_accepts (type_of v1) type_string
  check_accepts (type_of v2) type_regex
  on_match f v1 v2

abbrev pub eq_ℤ : ℤ → ℤ → Bool
eq_ℤ m n = leb_ℤ m n && leb_ℤ n m

-- `search re str` is the length of the match that std::regex_search finds, if it finds one.
module _ (search : Text → Text → Option ℕ) where
  unfoldable pub full_match : Text → Text → Bool
  full_match str re = elim (search re str) [ none ↦ false | some n ↦ n == length str ]

  unfoldable pub found : Text → Text → Bool
  found str re = elim (search re str) [ none ↦ false | some n ↦ true ]

  unfoldable pub binary_value : Text → Value → Value → Exec EvalContext Value
  unfolding both_ints both_either string_and_regex number full_match found checked checked_quotient
      add_ℤ sub_ℤ mul_ℤ div_ℤ rem_ℤ str_eq int_to_bool as_int
  binary_value token v1 v2 =
      if str_eq token and_op
      then both_ints (λ m n. pure (as_int (int_to_bool m && int_to_bool n))) v1 v2
      else if str_eq token or_op
      then both_ints (λ m n. pure (as_int (int_to_bool m || int_to_bool n))) v1 v2
      else if str_eq token eq_op
      then both_either (λ m n. pure (as_int (eq_ℤ m n))) (λ s t. pure (as_int (str_eq s t))) v1 v2
      else if str_eq token ne_op
      then both_either (λ m n. pure (as_int (not (eq_ℤ m n))))
          (λ s t. pure (as_int (not (str_eq s t)))) v1 v2
      else if str_eq token le_op
      then both_ints (λ m n. pure (as_int (leb_ℤ m n))) v1 v2
      else if str_eq token lt_op
      then both_ints (λ m n. pure (as_int (not (leb_ℤ n m)))) v1 v2
      else if str_eq token ge_op
      then both_ints (λ m n. pure (as_int (leb_ℤ n m))) v1 v2
      else if str_eq token gt_op
      then both_ints (λ m n. pure (as_int (not (leb_ℤ m n)))) v1 v2
      else if str_eq token matches_op
      then string_and_regex (λ s re. pure (as_int (full_match s re))) v1 v2
      else if str_eq token finds_op
      then string_and_regex (λ s re. pure (as_int (found s re))) v1 v2
      else if str_eq token plus_op
      then both_either (λ m n. number (checked (add_ℤ m n))) (λ s t. pure (string (s ++ t))) v1 v2
      else if str_eq token minus_op
      then both_ints (λ m n. number (checked (sub_ℤ m n))) v1 v2
      else if str_eq token percent_op
      then both_ints (λ m n. number (checked_quotient m n (rem_ℤ m n))) v1 v2
      else if str_eq token times_op
      then both_ints (λ m n. number (checked (mul_ℤ m n))) v1 v2
      else if str_eq token over_op
      then both_ints (λ m n. number (checked_quotient m n (div_ℤ m n))) v1 v2
      else raise assertion
