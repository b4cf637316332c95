-- ===== src/Query/Eval/Types.antt =====
-- The types of value that the evaluation in src/lib/schwa/dr/query.cc gives, from the expression alone.
use libschwa.Prelude.{ℕ, ◌≡◌, refl, ◌==◌, bit_and, Bool, true, false, none, some, if◌then◌else◌}
use libschwa.Query.Syntax.{Text, str_eq, Expr, variable, binary, call}
use libschwa.Query.Syntax
use libschwa.Query.Value.{Value, annotation, type_of}
use libschwa.Query.Operators.{plus_op}
use libschwa.Query.Functions.{str_name}

-- The masks that one expression can have values in: an attribute is an integer (4), missing (8), a store
-- (32) or a string (64).
unfoldable pub types : Expr → ℕ
unfolding str_eq
types (variable token none) = 127
types (variable token (some attribute)) = 108
types (binary token left right) = if str_eq token plus_op then 68 else 4
types (call token args) = if str_eq token str_name then 64 else 4
types (Syntax.integer value) = 4
types (Syntax.regex token) = 16
types (Syntax.string token) = 64

-- What check_accepts tests.
abbrev pub Has : ℕ → Value → Type 0
Has mask v = (bit_and (type_of v) mask == 0) ≡ false

module _ where
  pub Has-any : (v : Value) → Has 127 v
  unfolding type_of
  Has-any (annotation map) = refl
  Has-any _ = refl

  pub Has-if :
      (b : Bool) (m n : ℕ) (v : Value)
      → (b ≡ true → Has m v)
      → (b ≡ false → Has n v)
      → Has (if b then m else n) v
  Has-if true m n v h k = h refl
  Has-if false m n v h k = k refl
