-- ===== src/Fields/Costs.antt =====
-- Reading a field (src/lib/schwa/dr/wire.h) takes bytes and gives none back.
use libschwa.Prelude.{
  ℕ, zero, suc, ◌-◌, ◌≤◌, ◌≡◌, refl, ap, Bool, true, false, Option, none, some, List, [], ◌∷◌,
  length, length-drop, arith, ◌==◌, if◌then◌else◌, inl, inr,
}
use libschwa.Exec.{Error, Result, ok, err, Exec, pure, raise, continue, ◌>>=◌}
use libschwa.Io.Stream.{In}
use libschwa.Io.Effects.{get_byte, read_bytes}
use libschwa.Io.Budget.{any, Holds, Held, free, owed}
use libschwa.Msgpack.Enums.{
  WireType, map_fixed, map_16, map_32, array_fixed, array_16, array_32, raw_fixed, raw_16, raw_32,
}
use libschwa.Msgpack.Table.{header_type}
use libschwa.Msgpack.Read.{
  read_be, read_uint, read_raw, read_raw_size, raw_size_of, read_array_size, array_size_of,
  read_map_size, map_size_of,
}
use libschwa.Msgpack.Text.{read_utf8}
use libschwa.Msgpack.Costs.{Takes, left_of, AtEnd}
use libschwa.Msgpack.Dynamic.Takes.{
  Ends, Ends-get, Ends-uint, Ends-word, Ends-bool, Ends-int, Ends-float, Ends-double,
}
use libschwa.Fields.Stores.{IStore}
use libschwa.Fields.Values
use libschwa.Fields.Values.{Kind, read_value, read_pointers, read_pair, at_index, or_undefined}

module _ {S : Type 0} {V : S → Type 0} (i : In S V) where
  -- `m` leaves no more bytes than there were.
  pub record Shrinks {A : Type 0} (m : Exec S A) : Type 0 where
    pub at : (s : S) → V s → V (m s).1 × length (i.view (m s).1) ≤ length (i.view s)

  empty : (bs : List ℕ) → length bs ≤ 0 → bs ≡ []
  empty [] h = refl
  empty (b ∷ bs) h = absurd (omega (arith, h))

  free-Held :
      {A : Type 0} {m : ℕ} {s : S} (r : Result A)
      → Held V (left_of i) (AtEnd i) m (any 0) s
      → Held V (left_of i) (AtEnd i) m (owed free r) s
  free-Held (ok a) h = h
  free-Held (err e) h = h

  pub Shrinks-Takes : {A : Type 0} {m : Exec S A} → Shrinks m → Takes i (any 0) free m
  unfolding Holds
  Shrinks-Takes {m = m} c = record {
    at = λ n s h.
        let (v, l) = c.at s h.valid in
        free-Held (m s).0 (record {
          valid = v;
          held = elim h.held [
            | inl k ↦ inl (omega (arith, l, k))
            | inr (e, k) ↦ inr (empty _ (omega (arith, l, ap length e)), omega (arith, l, k))
          ];
        });
  }

  Shrinks-pure : {A : Type 0} (a : A) → Shrinks (pure a)
  Shrinks-pure a = record { at = λ s v. (v, omega arith) }

  Shrinks-raise : {A : Type 0} (e : Error) → Shrinks (raise {A = A} e)
  Shrinks-raise e = record { at = λ s v. (v, omega arith) }

  continue-Shrinks :
      {A B : Type 0} (f : A → Exec S B)
      → ((a : A) → Shrinks (f a))
      → (r : Result A) (s : S) → V s
      → V (continue r f s).1 × length (i.view (continue r f s).1) ≤ length (i.view s)
  continue-Shrinks f next (ok a) s v = (next a).at s v
  continue-Shrinks f next (err e) s v = (v, omega arith)

  Shrinks-then :
      {A B : Type 0} {m : Exec S A} (f : A → Exec S B)
      → Shrinks m
      → ((a : A) → Shrinks (f a))
      → Shrinks (m >>= f)
  unfolding ◌>>=◌
  Shrinks-then {m = m} f first next = record {
    at = λ s v.
        let (w, l) = first.at s v in
        let (u, k) = continue-Shrinks f next (m s).0 (m s).1 w in (u, omega (arith, l, k));
  }

  Shrinks-if :
      {A : Type 0} (b : Bool) {m n : Exec S A}
      → Shrinks m
      → Shrinks n
      → Shrinks (if b then m else n)
  Shrinks-if true h k = h
  Shrinks-if false h k = k

  Shrinks-Ends : {A : Type 0} {m : Exec S A} → ((k : ℕ) → Ends i k (k - 1) m) → Shrinks m
  Shrinks-Ends e = record {
    at = λ s v.
        let r = ((e (length (i.view s))).at s (record { valid = v; left = omega arith })).1 in
        (r.valid, omega (arith, r.left));
  }

  Shrinks-be : (n : ℕ) → Shrinks (read_be i n)
  Shrinks-be n = record {
    at = λ s v.
        let r =
          ((Ends-word i (length (i.view s)) n).at s (record { valid = v; left = omega arith })).1 in
        (r.valid, r.left);
  }

  Shrinks-get : Shrinks (get_byte i)
  Shrinks-get = Shrinks-Ends (Ends-get i)

  Shrinks-read : (n : ℕ) → Shrinks (read_bytes i n)
  unfolding read_bytes
  Shrinks-read n = record {
    at = λ s v. (
      i.read-IsValid n s v,
      omega (arith, ap length (i.read_view n s v), length-drop n (i.view s)),
    );
  }

  Shrinks-array_size_of : (t : WireType) (h : Option ℕ) → Shrinks (array_size_of i t h)
  unfolding array_size_of
  Shrinks-array_size_of array_fixed h = Shrinks-pure _
  Shrinks-array_size_of array_16 h = Shrinks-be 2
  Shrinks-array_size_of array_32 h = Shrinks-be 4
  Shrinks-array_size_of _ h = Shrinks-raise _

  Shrinks-map_size_of : (t : WireType) (h : Option ℕ) → Shrinks (map_size_of i t h)
  unfolding map_size_of
  Shrinks-map_size_of map_fixed h = Shrinks-pure _
  Shrinks-map_size_of map_16 h = Shrinks-be 2
  Shrinks-map_size_of map_32 h = Shrinks-be 4
  Shrinks-map_size_of _ h = Shrinks-raise _

  Shrinks-raw_size_of : (t : WireType) (h : Option ℕ) → Shrinks (raw_size_of i t h)
  unfolding raw_size_of
  Shrinks-raw_size_of raw_fixed h = Shrinks-pure _
  Shrinks-raw_size_of raw_16 h = Shrinks-be 2
  Shrinks-raw_size_of raw_32 h = Shrinks-be 4
  Shrinks-raw_size_of _ h = Shrinks-raise _

  pub Shrinks-array_size : Shrinks (read_array_size i)
  unfolding read_array_size
  Shrinks-array_size = Shrinks-then _ Shrinks-get λ h. Shrinks-array_size_of (header_type h) h

  pub Shrinks-map_size : Shrinks (read_map_size i)
  unfolding read_map_size
  Shrinks-map_size = Shrinks-then _ Shrinks-get λ h. Shrinks-map_size_of (header_type h) h

  Shrinks-raw : Shrinks (read_raw i)
  unfolding read_raw read_raw_size
  Shrinks-raw =
      Shrinks-then _ (Shrinks-then _ Shrinks-get λ h. Shrinks-raw_size_of (header_type h) h)
        λ n. Shrinks-then _ (Shrinks-read n) λ bs. Shrinks-pure _

  Shrinks-uint : Shrinks (read_uint i)
  Shrinks-uint = Shrinks-Ends (Ends-uint i)

  Shrinks-utf8 : Shrinks (read_utf8 i)
  unfolding read_utf8
  Shrinks-utf8 = Shrinks-then _ Shrinks-raw λ bs. record { at = λ s v. (v, omega arith) }

  Shrinks-or_undefined : {A : Type 0} (a : Option A) → Shrinks (or_undefined a)
  unfolding or_undefined
  Shrinks-or_undefined none = Shrinks-raise _
  Shrinks-or_undefined (some a) = Shrinks-pure a

  module _ (store : IStore) where
    Shrinks-pointers : (n : ℕ) → Shrinks (read_pointers i store n)
    unfolding read_pointers at_index
    Shrinks-pointers zero = Shrinks-pure _
    Shrinks-pointers (suc n) = Shrinks-then _ Shrinks-uint λ offset.
        Shrinks-then _ (Shrinks-or_undefined _)
          λ p. Shrinks-then _ (Shrinks-pointers n) λ ps. Shrinks-pure _

    Shrinks-pair : Shrinks (read_pair i store)
    unfolding read_pair
    Shrinks-pair =
        Shrinks-then _ Shrinks-array_size
          λ n. Shrinks-if (n == 2) (Shrinks-pure tt) (Shrinks-raise _)

    -- Whatever comes, reading a field leaves no more bytes than there were.
    pub Shrinks-read_value : (kind : Kind) → Shrinks (read_value i store kind)
    unfolding read_value at_index
    Shrinks-read_value Values.bool = Shrinks-then _ (Shrinks-Ends (Ends-bool i)) λ b. Shrinks-pure _
    Shrinks-read_value (Values.uint w) = Shrinks-then _ Shrinks-uint λ n. Shrinks-pure _
    Shrinks-read_value (Values.int w) =
        Shrinks-then _ (Shrinks-Ends (Ends-int i)) λ n. Shrinks-pure _
    Shrinks-read_value Values.float =
        Shrinks-then _ (Shrinks-Ends (Ends-float i)) λ n. Shrinks-pure _
    Shrinks-read_value Values.double =
        Shrinks-then _ (Shrinks-Ends (Ends-double i)) λ n. Shrinks-pure _
    Shrinks-read_value Values.string = Shrinks-then _ Shrinks-raw λ cs. Shrinks-pure _
    Shrinks-read_value Values.unicode = Shrinks-then _ Shrinks-utf8 λ cs. Shrinks-pure _
    Shrinks-read_value Values.pointer =
        Shrinks-then _ Shrinks-uint λ n. Shrinks-then _ (Shrinks-or_undefined _) λ p. Shrinks-pure _
    Shrinks-read_value Values.pointers =
        Shrinks-then _ Shrinks-array_size
          λ n. Shrinks-then _ (Shrinks-pointers n) λ ps. Shrinks-pure _
    Shrinks-read_value (Values.slice w) =
        Shrinks-then _ Shrinks-pair
          λ _. Shrinks-then _ Shrinks-uint λ a. Shrinks-then _ Shrinks-uint λ b. Shrinks-pure _
    Shrinks-read_value Values.pointer_slice = Shrinks-then _ Shrinks-pair λ _.
        Shrinks-then _ Shrinks-uint λ a. Shrinks-then _ Shrinks-uint λ b.
          Shrinks-then _ (Shrinks-or_undefined _)
            λ p. Shrinks-then _ (Shrinks-or_undefined _) λ q. Shrinks-pure _
