-- ===== src/Documents/Runtime.antt =====
-- RTManager and what it holds (src/lib/schwa/dr/runtime.h), for documents that are read without registered
-- types: fields, classes and stores are lazy, and only the document has a class, which has no fields or
-- stores of its own. A field_id, klass_id or store_id is the position in its list, as the reader numbers
-- them and merge_rt in runtime.cc asserts.
use libschwa.Prelude.{ℕ, Bool, true, false, not, List, [], ◌∷◌, ◌==◌, if◌then◌else◌}

-- `points_into` is 0 for the null pointer and otherwise one more than a store_id, as the reader keeps it.
pub record RtField : Type 0 where
  pub serial : List ℕ
  pub points_into : ℕ
  pub is_slice : Bool
  pub is_self_pointer : Bool
  pub is_collection : Bool

pub record RtKlass : Type 0 where
  pub serial : List ℕ
  pub fields : List RtField

-- A store with the number of its class.
pub record RtStore : Type 0 where
  pub serial : List ℕ
  pub klass : ℕ
  pub lazy_nelem : ℕ
  pub lazy_data : List ℕ

-- `doc` is the number of the document's own class, whose `stores` and `lazy_data` stand here.
pub record RtManager : Type 0 where
  pub doc : ℕ
  pub klasses : List RtKlass
  pub stores : List RtStore
  pub lazy_data : List ℕ

-- "__meta__".
abbrev pub meta_name : List ℕ
meta_name = 95 ∷ 95 ∷ 109 ∷ 101 ∷ 116 ∷ 97 ∷ 95 ∷ 95 ∷ []

abbrev pub wire_version : ℕ
wire_version = 2

unfoldable pub is_name : List ℕ → List ℕ → Bool
is_name [] [] = true
is_name [] (y ∷ ys) = false
is_name (x ∷ xs) [] = false
is_name (x ∷ xs) (y ∷ ys) = let rest = is_name xs ys in if x == y then rest else false

-- `is_lazy()`: only a class of the name "__meta__" has a `def`, which is the document's class.
unfoldable pub is_lazy : RtKlass → Bool
unfolding is_name
is_lazy klass = not (is_name klass.serial meta_name)
