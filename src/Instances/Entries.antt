-- ===== src/Instances/Entries.antt =====
-- The entries of an instance: Reader::read of src/lib/schwa/dr/reader.cc on a lazy field and on a field that is
-- registered.
use libschwa.Prelude.{
  ℕ, zero, suc, ◌+◌, ◌^◌, ◌<◌, ◌≡◌, ◌≢◌, refl, ap, Bool, true, false, Option, none, some, List, [],
  ◌∷◌, ◌++◌, append_assoc, length, get_elem?, take, take-append, length-append, ◌-◌, arith, ◌==◌,
  ==_iff, if◌then◌else◌, inl, inr, Bool-cases,
}
use native.Mathlib.Nat.{mod-eq_of_lt}
use libschwa.Exec.{Exec, ◌>>=◌}
use libschwa.Io.Stream.{In, Out}
use libschwa.Io.Effects.{Reads}
use libschwa.Msgpack.Write.{write_uint}
use libschwa.Msgpack.Read.{read_uint}
use libschwa.Msgpack.Trip.{Trip}
use libschwa.Msgpack.RoundTrip.{read_uint-write_uint}
use libschwa.Fields.Stores.{IStore}
use libschwa.Fields.Values.{Value, should_write, or_undefined, read_value}
use libschwa.Fields.RoundTrip.{IsFit}
use libschwa.Msgpack.Dynamic
use libschwa.Msgpack.Dynamic.Format.{Stored}
use libschwa.Msgpack.Lazy.Stored.{Loads-Stored}
use libschwa.Instances
use libschwa.Instances.{
  Mode, FieldDef, Object, Schema, Buffers, Found, is_read_write, is_read_only, store_of, count,
  write_new, write_lazy, write_written, write_instance, extend, set, skip, taken, load, read_entry,
  read_entries, attach, read_instance,
}
use libschwa.Msgpack.Lazy.Loads.{
  Loads, Loads-pure, Loads-bind, Loads-in, Loads-out, Loads-end, Loads-then,
}

pub set_same : (slot : ℕ) (v : Value) (values : ℕ → Value) → set slot v values slot ≡ v
unfolding set
set_same slot v values = rw ((==_iff slot slot).1 refl) refl

pub set_other :
    (slot n : ℕ) (v : Value) (values : ℕ → Value) → n ≢ slot → set slot v values n ≡ values n
unfolding set
set_other slot n v values h = elim (Bool-cases (n == slot)) [
  | inl e ↦ absurd (h ((==_iff n slot).0 e))
  | inr e ↦ rw e refl
]

-- Reading a field whose member holds it gives what was read.
abbrev pub IsBlank : Value → Type 0
IsBlank v = (w : Value) → extend v w ≡ w

-- Whether write_instance writes a field of `obj`.
unfoldable pub is_written : Object → FieldDef → Bool
unfolding is_read_write should_write
is_written obj d = if is_read_write d.mode then should_write (obj.values d.slot) else false

-- The members after the fields of `obj` that are written have been read, in order.
unfoldable pub filled : Object → Schema → (ℕ → Value) → ℕ → Value
unfolding is_written set
filled obj [] values = values
filled obj (none ∷ fields) values = filled obj fields values
filled obj (some d ∷ fields) values =
    filled obj fields (if is_written obj d then set d.slot (obj.values d.slot) values else values)

unfoldable pub written : Object → Schema → ℕ
unfolding is_written count
written obj [] = 0
written obj (none ∷ fields) = written obj fields
written obj (some d ∷ fields) = count (is_written obj d) (written obj fields)

-- What is written fits its field.
unfoldable pub AreFit : IStore → Object → Schema → Type 0
unfolding is_written store_of
AreFit current obj [] = Unit {0}
AreFit current obj (none ∷ fields) = AreFit current obj fields
AreFit current obj (some d ∷ fields) =
    (is_written obj d ≡ true → IsFit (store_of current d) d.kind (obj.values d.slot))
    × AreFit current obj fields

-- Whenever a field is read, its member is blank.
unfoldable pub AreReady : Object → Schema → (ℕ → Value) → Type 0
unfolding is_written set
AreReady obj [] values = Unit {0}
AreReady obj (none ∷ fields) values = AreReady obj fields values
AreReady obj (some d ∷ fields) values =
    (is_written obj d ≡ true → IsBlank (values d.slot))
    × AreReady obj fields
        (if is_written obj d then set d.slot (obj.values d.slot) values else values)

read_write-mode :
    (m : Mode) (b : Bool) → (if is_read_write m then b else false) ≡ true → is_read_only m ≡ false
unfolding is_read_write is_read_only
read_write-mode Instances.read_write b e = refl
read_write-mode Instances.read_only b e = absurd (cc e)
read_write-mode Instances.delete b e = refl

pub is_written-mode :
    (obj : Object) (d : FieldDef) → is_written obj d ≡ true → is_read_only d.mode ≡ false
unfolding is_written
is_written-mode obj d e = read_write-mode d.mode _ e

between : (bs rest : List ℕ) → take (length (bs ++ rest) - length rest) (bs ++ rest) ≡ bs
between bs rest = take-append _ bs rest (omega (arith, length-append bs rest))

Reads-taken :
    {S : Type 0} {V : S → Type 0} (i : In S V) {A : Type 0} {m : Exec S A} {bs : List ℕ} {a : A}
    → Reads i m bs a
    → Reads i (taken i m) bs (a, bs)
unfolding taken ◌>>=◌
Reads-taken i {bs = bs} r = record {
  at = λ s rest v e.
      let (s', run, v', e') = r.at s rest v e in
      (s', rw (run, e, e', between bs rest) refl, v', e');
}

module _ {S : Type 0} {V : S → Type 0} (i : In S V) {Z : Type 0} {Y : Z → Type 0}
    (z : Out Z Y) where
  pub key_trip : (key : ℕ) → key < 2 ^ 32 → Trip z i (write_uint z key) (read_uint i) key
  key_trip key h = read_uint-write_uint z i key (omega (arith, h))

  -- A value that read_lazy copies whole, as it does any value of the format.
  abbrev IsSkipped : List ℕ → Type 0
  IsSkipped v = Loads i z (skip i z) v v tt

  Stored-IsSkipped :
      {d : ℕ} {bs : List ℕ} {v : Dynamic.Value} → Stored d bs v → length bs < 2 ^ 32 → IsSkipped bs
  unfolding skip
  Stored-IsSkipped {bs} s h = record {
    at = λ p rest v w e.
        let enough = ap length e in
        (Loads-end i z _ (Loads-Stored i z s _ (omega (arith, enough, length-append bs rest)) h)
            (Loads-pure i z tt)).at
          p rest v w e;
  }

  -- The bytes of lazy fields with their keys, and their number. Each has a value of the format.
  pub data IsLazy (fields : Schema) : List ℕ → ℕ → Type 0 where
    nothing : IsLazy fields [] 0
    and_field :
        {bs : List ℕ} {n d : ℕ} (key : ℕ) (v : List ℕ) {w : Dynamic.Value} (h : key < 2 ^ 32)
        → get_elem? fields key ≡ some none
        → Stored d v w
        → length v < 2 ^ 32
        → IsLazy fields bs n
        → IsLazy fields (((key_trip key h).wire ++ v) ++ bs) (suc n)

  module _ (current : IStore) (fields : Schema) where
    Loads-load-none :
        (key : ℕ) (v : List ℕ) (h : key < 2 ^ 32) (found : Found)
        → IsSkipped v
        → Loads i z
            (load i z current key none found)
            v
            ((key_trip key h).wire ++ v)
            (record found { lazy_nfields = suc found.lazy_nfields })
    unfolding load
    Loads-load-none key v h found s =
        Loads-then i z (Loads-out i z (key_trip key h).writes)
          (Loads-end i z _ s (Loads-pure i z _))

    pub Loads-load-some :
        (key : ℕ) (v : List ℕ) (d : FieldDef) (val : Value) (found : Found)
        → is_read_only d.mode ≡ false
        → Reads i (read_value i (store_of current d) d.kind) v val
        → IsBlank (found.values d.slot)
        → Loads i z
            (load i z current key (some d) found)
            v
            []
            (record found { values = set d.slot val found.values })
    unfolding load
    Loads-load-some key v d val found ro r blank =
        Loads-end i z _ (Loads-in i z (Reads-taken i r)) (rw (ro, blank val) (Loads-pure i z _))

    pub Loads-entry :
        (key : ℕ) {kw v lazy : List ℕ} (f : Option FieldDef) (found : Found) {next : Found}
        → Reads i (read_uint i) kw key
        → key < 2 ^ 32
        → get_elem? fields key ≡ some f
        → Loads i z (load i z current key f found) v lazy next
        → Loads i z (read_entry i z current fields found) (kw ++ v) lazy next
    unfolding read_entry or_undefined ◌>>=◌
    Loads-entry key f found kr h e l = Loads-bind i z _ (Loads-in i z kr) (rw (mod-eq_of_lt h, e) l)

    unfoldable pub bump : ℕ → Found → Found
    bump zero found = found
    bump (suc n) found = bump n (record found { lazy_nfields = suc found.lazy_nfields })

    pub Loads-lazies :
        {bs : List ℕ} {n : ℕ}
        → IsLazy fields bs n
        → (m : ℕ) (found : Found) {cs : List ℕ} {r : Found}
        → Loads i z (read_entries i z current fields m (bump n found)) cs [] r
        → Loads i z (read_entries i z current fields (n + m) found) (bs ++ cs) bs r
    unfolding read_entries bump
    Loads-lazies nothing m found l = let e : 0 + m ≡ m = omega arith in rw e l
    Loads-lazies (and_field {bs} {n} key v h e s l more) m found {cs} later =
        let g : suc n + m ≡ suc (n + m) = omega arith in
        rw (g, append_assoc ((key_trip key h).wire ++ v) bs cs)
          (Loads-bind i z _
            (Loads-entry key none found (key_trip key h).reads h e
              (Loads-load-none key v h found (Stored-IsSkipped s l)))
            (Loads-lazies more m _ later))
