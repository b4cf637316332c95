-- ===== src/Fields/Values.antt =====
-- WireTraits of src/lib/schwa/dr/wire.h: should_write, write and read for each type that a field may have, and
-- read_field and write_field of field_defs_impl.h.
use libschwa.Prelude.{
  ℕ, zero, suc, ◌+◌, ◌-◌, ◌*◌, ◌%◌, ◌^◌, Bool, true, false, ◌&&◌, not, Option, none, some, List, [],
  ◌∷◌, length, ◌==◌, if◌then◌else◌,
}
use libschwa.Prelude.Int.{ℤ, to_word, of_word}
use libschwa.Exec.{assertion, undefined, Exec, pure, raise, ◌>>=◌, ◌>>◌}
use libschwa.Io.Stream.{In, Out}
use libschwa.Msgpack.Write.{
  write_uint, write_int, write_bool, write_float, write_double, write_raw, write_array_size,
}
use libschwa.Msgpack.Read.{
  read_uint, read_int, read_bool, read_float, read_double, read_raw, read_array_size,
}
use libschwa.Msgpack.Text.{read_utf8, write_utf8}
use libschwa.Fields.Passes.{act}
use libschwa.Fields.Stores.{IStore}

-- The type R of a field. `uint` and `int` have their width in bits, and so has `slice`, a Slice of an unsigned
-- type that is not promoted to int (32 or 64 bits). `pointer`, `pointers` and `pointer_slice` are Pointer,
-- Pointers and a Slice of pointers.
pub data Kind : Type 0 where
  bool float double string unicode pointer pointers pointer_slice : Kind
  uint int slice : ℕ → Kind

-- What a field may hold. A null pointer is `none`; a float or a double is its bit pattern; a Unicode string is
-- the list of its code points.
pub data Value : Type 0 where
  bool_value : Bool → Value
  number : ℕ → Value
  signed : ℤ → Value
  text : List ℕ → Value
  address : Option ℕ → Value
  addresses : List ℕ → Value
  range : ℕ → ℕ → Value
  address_range : Option ℕ → Option ℕ → Value

unfoldable pub is_empty : {A : Type 0} → List A → Bool
is_empty [] = true
is_empty (x ∷ xs) = false

unfoldable pub is_null : Option ℕ → Bool
is_null none = true
is_null (some ptr) = false

-- `operator !=` of a size and a null pointer aside, the arithmetic types are always written.
unfoldable pub should_write : Value → Bool
unfolding is_empty is_null
should_write (bool_value b) = true
should_write (number n) = true
should_write (signed z) = true
should_write (text cs) = not (is_empty cs)
should_write (address p) = not (is_null p)
should_write (addresses ps) = not (is_empty ps)
should_write (range start stop) = not ((start == 0) && (stop == 0))
should_write (address_range start stop) = not (is_null start && is_null stop)

unfoldable pub or_undefined : {S A : Type 0} → Option A → Exec S A
or_undefined none = raise undefined
or_undefined (some a) = pure a

-- A null pointer is dereferenced.
unfoldable pub index_of : {T : Type 0} → IStore → Option ℕ → Exec T ℕ
unfolding or_undefined
index_of store none = raise undefined
index_of store (some ptr) = or_undefined (store.index_of ptr)

unfoldable pub at_index : {S : Type 0} → IStore → ℕ → Exec S ℕ
unfolding or_undefined
at_index store i = or_undefined (store.at_index i)

-- Subtraction and addition of words of `w` bits.
unfoldable pub minus : ℕ → ℕ → ℕ → ℕ
minus w a b = (a + (2 ^ w - b)) % 2 ^ w

unfoldable pub plus : ℕ → ℕ → ℕ → ℕ
plus w a b = (a + b) % 2 ^ w

module _ {T : Type 0} {W : T → Type 0} (o : Out T W) (store : IStore) where
  unfoldable pub write_pointers : List ℕ → Exec T (Unit {0})
  unfolding index_of act
  write_pointers [] = pure tt
  write_pointers (p ∷ ps) = do i ← index_of store (some p); act (write_uint o i); write_pointers ps

  -- A value that is not of the kind has no type in C++.
  unfoldable pub write_value : Kind → Value → Exec T (Unit {0})
  unfolding act write_pointers index_of minus
  write_value bool (bool_value b) = act (write_bool o b)
  write_value (uint w) (number n) = act (write_uint o n)
  write_value (int w) (signed z) = act (write_int o z)
  write_value float (number n) = act (write_float o n)
  write_value double (number n) = act (write_double o n)
  write_value string (text cs) = act (write_raw o cs)
  write_value unicode (text cs) = write_utf8 o cs
  write_value pointer (address p) = do i ← index_of store p; act (write_uint o i)
  write_value pointers (addresses ps) = do act (write_array_size o (length ps)); write_pointers ps
  write_value (slice w) (range start stop) = do
    act (write_array_size o 2)
    act (write_uint o start)
    act (write_uint o (minus w stop start))
  write_value pointer_slice (address_range start stop) = do
    a ← index_of store start
    b ← index_of store stop
    act (write_array_size o 2)
    act (write_uint o a)
    act (write_uint o (minus 64 b a))
  write_value _ _ = raise undefined

  -- write_field: whether the field was written.
  unfoldable pub write_field : Kind → ℕ → Value → Exec T Bool
  unfolding act write_value should_write
  write_field kind key val =
      if should_write val
      then (do act (write_uint o key); write_value kind val; pure true)
      else pure false

module _ {S : Type 0} {V : S → Type 0} (i : In S V) (store : IStore) where
  -- The addresses are pushed back onto those that the field has.
  unfoldable pub read_pointers : ℕ → Exec S (List ℕ)
  unfolding at_index
  read_pointers zero = pure []
  read_pointers (suc n) = do
    offset ← read_uint i
    p ← at_index store offset
    ps ← read_pointers n
    pure (p ∷ ps)

  -- `assert(nitems == 2)`
  unfoldable pub read_pair : Exec S (Unit {0})
  read_pair = do nitems ← read_array_size i; if nitems == 2 then pure tt else raise assertion

  -- read of a field that is as its default constructor left it.
  unfoldable pub read_value : Kind → Exec S Value
  unfolding read_pointers read_pair at_index plus
  read_value bool = do b ← read_bool i; pure (bool_value b)
  read_value (uint w) = do n ← read_uint i; pure (number (n % 2 ^ w))
  read_value (int w) = do
    z ← read_int i
    pure (signed (of_word (2 ^ (w - 1)) (to_word (2 * 2 ^ (w - 1)) z)))
  read_value float = do n ← read_float i; pure (number n)
  read_value double = do n ← read_double i; pure (number n)
  read_value string = do cs ← read_raw i; pure (text cs)
  read_value unicode = do cs ← read_utf8 i; pure (text cs)
  read_value pointer = do offset ← read_uint i; p ← at_index store offset; pure (address (some p))
  read_value pointers = do
    nitems ← read_array_size i
    ps ← read_pointers nitems
    pure (addresses ps)
  read_value (slice w) = do
    read_pair
    start ← read_uint i
    stop ← read_uint i
    pure (range (start % 2 ^ w) (plus w (stop % 2 ^ w) (start % 2 ^ w)))
  read_value pointer_slice = do
    read_pair
    offset ← read_uint i
    delta ← read_uint i
    start ← at_index store offset
    stop ← at_index store (plus 64 offset delta)
    pure (address_range (some start) (some stop))
