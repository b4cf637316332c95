-- ===== src/Documents/RoundTrip/Fields.antt =====
-- The header of a field: Writer::write of src/lib/schwa/dr/writer.cc with Reader::read of reader.cc.
use libschwa.Prelude.{
  ℕ, zero, suc, ◌+◌, ◌%◌, ◌^◌, ◌<◌, ◌≤◌, ◌≡◌, refl, subst, Bool, true, false, List, length, ◌==◌,
  ==_iff, if◌then◌else◌, arith, inl, inr, Bool-cases,
}
use libschwa.Exec.{pure, ◌>>◌}
use libschwa.Io.Stream.{In, Out}
use libschwa.Msgpack.Trip.{Trip, Trip-pure, Trip-bind}
use libschwa.Msgpack.Read.{read_nil}
use libschwa.Msgpack.Write.{write_uint, write_uint_fixed, write_nil, write_raw, write_map_size}
use libschwa.Msgpack.RoundTrip.{
  read_uint-write_uint, read_map_size-write_map_size, read_raw-write_raw, read_nil-write_nil,
  Trip-fixed_alone,
}
use libschwa.Documents.Runtime.{RtField}
use libschwa.Documents.Writer.{
  add_bool, add_pointer, entries_of, write_flag, write_pointer, write_field,
}
use libschwa.Documents.Reader.{new_field, entry_value, read_entries, named, read_field}

-- What a field holds that the writer can write and the reader takes, with `n` stores.
pub record IsField (n : ℕ) (f : RtField) : Type 0 where
  pub has_name : 0 < length f.serial
  pub name_fits : length f.serial < 2 ^ 32
  pub points : f.points_into ≤ n

add_bool-le : (b : Bool) (n : ℕ) → add_bool b n ≤ suc n
unfolding add_bool
add_bool-le true n = omega arith
add_bool-le false n = omega arith

add_pointer-le : (p n : ℕ) → add_pointer p n ≤ suc n
unfolding add_pointer
add_pointer-le zero n = omega arith
add_pointer-le (suc p) n = omega arith

entries_few : (f : RtField) → entries_of f < 2 ^ 32
unfolding entries_of
entries_few f = omega (
  arith,
  add_pointer-le f.points_into
      (add_bool f.is_slice (add_bool f.is_self_pointer (add_bool f.is_collection 0))),
  add_bool-le f.is_slice (add_bool f.is_self_pointer (add_bool f.is_collection 0)),
  add_bool-le f.is_self_pointer (add_bool f.is_collection 0),
  add_bool-le f.is_collection 0,
)

module _ {T : Type 0} {W : T → Type 0} (o : Out T W) {S : Type 0} {V : S → Type 0}
    (i : In S V) where
  -- An entry before other entries.
  Trip-entry :
      (w next : T → T) (key n : ℕ) (field mid result : RtField)
      → key < 128
      → Trip o i w (entry_value i key field) mid
      → Trip o i next (read_entries i n mid) result
      → Trip o i (λ s. next (w (write_uint_fixed o key s))) (read_entries i (suc n) field) result
  unfolding read_entries
  Trip-entry w next key n field mid result h t k =
      Trip-bind o i {v = write_uint_fixed o key} {w = λ s. next (w s)} _
        (Trip-fixed_alone o i key h) (Trip-bind o i {v = w} {w = next} _ t k)

  Trip-flag :
      (next : T → T) (b : Bool) (key n : ℕ) (field flagged result : RtField)
      → key < 128
      → Trip o i (write_nil o) (entry_value i key field) flagged
      → Trip o i next (read_entries i n (if b then flagged else field)) result
      → Trip o i (λ s. next (write_flag o key b s)) (read_entries i (add_bool b n) field) result
  unfolding write_flag add_bool
  Trip-flag next true key n field flagged result h t k =
      Trip-entry (write_nil o) next key n field flagged result h t k
  Trip-flag next false key n field flagged result h t k = k

  -- The value of a flag.
  Trip-nil : (field : RtField) → Trip o i (write_nil o) (do read_nil i; pure field) field
  Trip-nil field =
      Trip-bind o i {v = write_nil o} {w = λ s. s} _ (read_nil-write_nil o i) (Trip-pure o i field)

  -- A field as it is before the flags.
  abbrev pointing : List ℕ → ℕ → RtField
  pointing name p = record {
    serial = name;
    points_into = p;
    is_slice = false;
    is_self_pointer = false;
    is_collection = false;
  }

  Trip-pointer :
      (next : T → T) (p n : ℕ) (name : List ℕ) (result : RtField)
      → p < 2 ^ 32
      → Trip o i next (read_entries i n (pointing name p)) result
      → Trip o i
          (λ s. next (write_pointer o p s))
          (read_entries i (add_pointer p n) (pointing name 0))
          result
  unfolding write_pointer add_pointer entry_value
  Trip-pointer next zero n name result h k = k
  Trip-pointer next (suc id) n name result h k =
      let e : (id + 1) % 2 ^ 64 ≡ suc id = omega (arith, h) in
      let t : Trip o i (write_uint o id) (entry_value i 1 (pointing name 0))
          (pointing name ((id + 1) % 2 ^ 64)) =
        Trip-bind o i {v = write_uint o id} {w = λ s. s} _
          (read_uint-write_uint o i id (omega (arith, h)))
          (Trip-pure o i (pointing name ((id + 1) % 2 ^ 64))) in
      Trip-entry (write_uint o id) next 1 n (pointing name 0) (pointing name (suc id)) result
        (omega arith)
        (subst
          (λ x. Trip o i (write_uint o id) (entry_value i 1 (pointing name 0)) (pointing name x)) e
          t)
        k

  -- The flags, which are set one by one.
  abbrev slicing : RtField → Bool → Bool → Bool → RtField
  slicing f a b c = record {
    serial = f.serial;
    points_into = f.points_into;
    is_slice = a;
    is_self_pointer = b;
    is_collection = c;
  }

  Trip-flags :
      (f : RtField) (a b c : Bool)
      → Trip o i
          (λ s. write_flag o 4 c (write_flag o 3 b (write_flag o 2 a s)))
          (read_entries i (add_bool a (add_bool b (add_bool c 0))) (slicing f false false false))
          (slicing f a b c)
  unfolding entry_value read_entries
  Trip-flags f a b c =
      Trip-flag (λ s. write_flag o 4 c (write_flag o 3 b s)) a 2 _ (slicing f false false false)
        (slicing f true false false) (slicing f a b c) (omega arith) (Trip-nil _)
        (subst
          (λ x.
            Trip o i (λ s. write_flag o 4 c (write_flag o 3 b s))
              (read_entries i (add_bool b (add_bool c 0)) x) (slicing f a b c))
          (sliced a)
          (Trip-flag (write_flag o 4 c) b 3 _ (slicing f a false false) (slicing f a true false)
            (slicing f a b c) (omega arith) (Trip-nil _)
            (subst
              (λ x. Trip o i (write_flag o 4 c) (read_entries i (add_bool c 0) x) (slicing f a b c))
              (selfed b)
              (Trip-flag (λ s. s) c 4 0 (slicing f a b false) (slicing f a b true) (slicing f a b c)
                (omega arith) (Trip-nil _)
                (subst (λ x. Trip o i (λ s. s) (pure x) (slicing f a b c)) (collected c)
                  (Trip-pure o i (slicing f a b c)))))))
    where
      sliced :
          (a : Bool)
          → slicing f a false false
            ≡ (if a then slicing f true false false else slicing f false false false)
      sliced true = refl
      sliced false = refl

      selfed :
          (b : Bool)
          → slicing f a b false ≡ (if b then slicing f a true false else slicing f a false false)
      selfed true = refl
      selfed false = refl

      collected :
          (c : Bool) → slicing f a b c ≡ (if c then slicing f a b true else slicing f a b false)
      collected true = refl
      collected false = refl

  -- The entries of a field, from the name on.
  Trip-entries :
      (f : RtField)
      → length f.serial < 2 ^ 32
      → f.points_into < 2 ^ 32
      → Trip o i
          (λ s. write_flag o 4 f.is_collection (
            write_flag o 3 f.is_self_pointer (
              write_flag o 2 f.is_slice
                (write_pointer o f.points_into (write_raw o f.serial (write_uint_fixed o 0 s))))))
          (read_entries i (entries_of f) new_field)
          f
  unfolding entries_of entry_value
  Trip-entries f h p =
      Trip-entry (write_raw o f.serial)
        (λ s. write_flag o 4 f.is_collection (
          write_flag o 3 f.is_self_pointer
            (write_flag o 2 f.is_slice (write_pointer o f.points_into s))))
        0 _ new_field (pointing f.serial 0) f (omega arith)
        (Trip-bind o i {v = write_raw o f.serial} {w = λ s. s} _ (read_raw-write_raw o i f.serial h)
          (Trip-pure o i (pointing f.serial 0)))
        (Trip-pointer
          (λ s.
            write_flag o 4 f.is_collection
              (write_flag o 3 f.is_self_pointer (write_flag o 2 f.is_slice s)))
          f.points_into _ f.serial f p (Trip-flags f f.is_slice f.is_self_pointer f.is_collection))

  Trip-named : (f : RtField) → 0 < length f.serial → Trip o i (λ s. s) (named i f) f
  unfolding named
  Trip-named f h = elim (Bool-cases (length f.serial == 0)) [
    | inl e ↦ absurd (omega (arith, (==_iff _ _).0 e, h))
    | inr e ↦ rw e (Trip-pure o i f)
  ]

  pub Trip-field :
      (n : ℕ) (f : RtField) → IsField n f → n < 2 ^ 32 → Trip o i (write_field o f) (read_field i) f
  unfolding write_field read_field
  Trip-field n f h l =
      Trip-bind o i {v = write_map_size o (entries_of f)}
        {w = λ s. write_flag o 4 f.is_collection (
          write_flag o 3 f.is_self_pointer (
            write_flag o 2 f.is_slice
              (write_pointer o f.points_into (write_raw o f.serial (write_uint_fixed o 0 s)))))}
        _ (read_map_size-write_map_size o i (entries_of f) (entries_few f))
        (Trip-bind o i {w = λ s. s} _ (Trip-entries f h.name_fits (omega (arith, h.points, l)))
          (Trip-named f h.has_name))
