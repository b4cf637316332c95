-- ===== src/Query/Value.antt =====
-- The values of a query and the checks of their types: src/lib/schwa/dr/query.h and query.cc, with what
-- a query reads of src/lib/schwa/dr/runtime.h.
use libschwa.Prelude.{ℕ, zero, Bool, true, false, ◌==◌, not, List, bit_and, length, if◌then◌else◌}
use libschwa.Prelude.Int.{ℤ, pos}
use libschwa.Exec.{runtime_error, Exec, pure, raise}
use libschwa.Msgpack.Dynamic
use libschwa.Query.Syntax.{Text}

-- RTFieldDef; `points_into` is whether the pointer is set.
pub record RtFieldDef : Type 0 where
  pub serial : Text
  pub points_into : Bool
  pub is_slice : Bool
  pub is_self_pointer : Bool

-- RTStoreDef, with the fields of its `klass` and the `lazy_nbytes` bytes of its `lazy_data`.
pub record RtStoreDef : Type 0 where
  pub serial : Text
  pub klass_fields : List RtFieldDef
  pub lazy_data : List ℕ
  pub lazy_nelem : ℕ

-- The RTSchema of the document.
pub record RtSchema : Type 0 where
  pub fields : List RtFieldDef
  pub stores : List RtStoreDef
  pub lazy_data : List ℕ

-- Value. A store is known by the `_rtstore` of its VariableExpr, which that node sets again only when it
-- is evaluated again.
pub data Value : Type 0 where
  annotation : Dynamic.Pairs → Value
  document : Value
  integer : ℤ → Value
  missing : Value
  regex : Text → Value
  store : RtStoreDef → Value
  string : Text → Value

abbrev pub type_integer : ℕ
type_integer = 4

abbrev pub type_missing : ℕ
type_missing = 8

abbrev pub type_regex : ℕ
type_regex = 16

abbrev pub type_store : ℕ
type_store = 32

abbrev pub type_string : ℕ
type_string = 64

-- The field `type`.
unfoldable pub type_of : Value → ℕ
type_of (annotation map) = 1
type_of document = 2
type_of (integer n) = type_integer
type_of missing = type_missing
type_of (regex re) = type_regex
type_of (store def) = type_store
type_of (string str) = type_string

unfoldable pub int_to_bool : ℤ → Bool
int_to_bool (pos zero) = false
int_to_bool _ = true

unfoldable pub to_bool : Value → Bool
unfolding int_to_bool
to_bool (integer n) = int_to_bool n
to_bool missing = false
to_bool (string str) = not (length str == 0)
to_bool _ = true

-- `Value::as_int` of a bool.
unfoldable pub as_int : Bool → Value
as_int true = integer (pos 1)
as_int false = integer (pos 0)

unfoldable pub check_accepts : {S : Type 0} → ℕ → ℕ → Exec S (Unit {0})
check_accepts type accepts_mask =
    if bit_and type accepts_mask == 0 then raise runtime_error else pure tt

unfoldable pub check_same_accepts : {S : Type 0} → ℕ → ℕ → ℕ → Exec S (Unit {0})
check_same_accepts t1 t2 accepts_mask =
    if bit_and t1 accepts_mask == 0
    then raise runtime_error
    else if bit_and t2 accepts_mask == 0
    then raise runtime_error
    else if t1 == t2
    then pure tt
    else raise runtime_error
