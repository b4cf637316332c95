-- ===== src/Instances.antt =====
-- The instances of registered classes: write_instance and write_lazy of src/lib/schwa/dr/writer.cc and the loop
-- over an instance's fields of Reader::read in reader.cc.
pub mod Entries
pub mod WriteBuffers
pub mod Lazies
pub mod Written
pub mod Members
pub mod Whole
pub mod Groups
pub mod Room
use libschwa.Prelude.{
  ℕ, zero, suc, ◌+◌, ◌-◌, ◌%◌, ◌^◌, ◌≡◌, Bool, true, false, Option, none, some, List, [], ◌∷◌, ◌++◌,
  length, take, drop, get_elem?, ◌==◌, if◌then◌else◌,
}
use libschwa.Exec.{Result, ok, err, undefined, Exec, pure, raise, ◌>>=◌, ◌>>◌}
use libschwa.Io.Stream.{In, Out}
use libschwa.Msgpack.Write.{write_uint, write_map_size, write_array_size}
use libschwa.Fields.Passes.{act}
use libschwa.Msgpack.Read.{read_uint, read_map_size, read_array_size}
use libschwa.Msgpack.Lazy.{on_in, on_out, read_lazy}
use libschwa.Fields.Stores.{IStore}
use libschwa.Fields.Values.{Kind, Value, addresses, is_empty, or_undefined, write_field, read_value}

-- FieldMode.
pub data Mode : Type 0 where
  read_write read_only delete : Mode

unfoldable pub is_read_write : Mode → Bool
is_read_write read_write = true
is_read_write _ = false

unfoldable pub is_read_only : Mode → Bool
is_read_only read_only = true
is_read_only _ = false

-- A field of a registered class: `slot` is the member that it is kept in, `store` is what its store pointer
-- leads to in the document. A self pointer goes into the store that is being read or written.
pub record FieldDef : Type 0 where
  pub slot : ℕ
  pub mode : Mode
  pub kind : Kind
  pub is_self_pointer : Bool
  pub store : IStore

unfoldable pub store_of : IStore → FieldDef → IStore
store_of current d = if d.is_self_pointer then current else d.store

-- An annotation or a document: its members, and the fields that were kept as they stood on the stream.
pub record Object : Type 0 where
  pub values : ℕ → Value
  pub lazy : List ℕ
  pub lazy_nelem : ℕ

-- The fields of an RTSchema, by their field_id: `none` is a lazy one, which the class does not register.
abbrev pub Schema : Type 0
Schema = List (Option FieldDef)

-- WriteBuffer's constructor and copy_from, beside what an Out has.
pub record Buffers {T : Type 0} {W : T → Type 0} (o : Out T W) : Type 0 where
  pub create : T
  pub copy_from : T → T → T
  pub create-IsValid : W create
  pub create_bytes : o.bytes create ≡ []
  pub copy_from-IsValid : (from to : T) → W from → W to → W (copy_from from to)
  pub copy_from_bytes :
      (from to : T) → W from → W to → o.bytes (copy_from from to) ≡ o.bytes to ++ o.bytes from

unfoldable pub count : Bool → ℕ → ℕ
count true n = suc n
count false n = n

module _ {T : Type 0} {W : T → Type 0} (o : Out T W) (current : IStore) (obj : Object) where
  -- The loop of write_instance, from the field_id `k` on; the result is `nfields_new`.
  unfoldable pub write_new : ℕ → Schema → Exec T ℕ
  unfolding is_read_write store_of write_field count
  write_new k [] = pure 0
  write_new k (none ∷ fields) = write_new (suc k) fields
  write_new k (some d ∷ fields) =
      let rest = write_new (suc k) fields in
      if is_read_write d.mode
      then (do
        wrote ← write_field o (store_of current d) d.kind k (obj.values d.slot)
        nfields_new ← rest
        pure (count wrote nfields_new))
      else rest

  module _ (b : Buffers o) where
    unfoldable pub write_lazy : ℕ → T → T → T
    unfolding is_empty
    write_lazy nfields_new buf out =
        let nfields = (nfields_new + obj.lazy_nelem) % 2 ^ 32 in
        let sized = write_map_size o nfields out in
        if nfields == 0
        then sized
        else b.copy_from buf (if is_empty obj.lazy then sized else o.write obj.lazy sized)

    unfoldable pub write_written : Result ℕ → T → Exec T (Unit {0})
    unfolding write_lazy
    write_written (err e) buf out = raise e out
    write_written (ok nfields_new) buf out = (ok tt, write_lazy nfields_new buf out)

    unfoldable pub write_instance : Schema → Exec T (Unit {0})
    unfolding write_new write_written
    write_instance fields out =
        let new = write_new 0 fields b.create in write_written new.0 new.1 out

module _ {T : Type 0} {W : T → Type 0} (o : Out T W) (current : IStore) (b : Buffers o) where
  unfoldable pub write_instances : Schema → List Object → Exec T (Unit {0})
  unfolding write_instance
  write_instances fields [] = pure tt
  write_instances fields (obj ∷ objs) = do
    write_instance o current obj b fields
    write_instances fields objs

  -- The instances of a store, as they are written to the buffer of an <instances_group>.
  unfoldable pub write_instance_group : Schema → List Object → Exec T (Unit {0})
  unfolding act write_instances
  write_instance_group fields objs = do
    act (write_array_size o (length objs))
    write_instances fields objs

-- What reading has found so far: the members and `lazy_nfields`.
pub record Found : Type 0 where
  pub values : ℕ → Value
  pub lazy_nfields : ℕ

-- read of Pointers pushes back onto what the vector holds; the others overwrite.
unfoldable pub extend : Value → Value → Value
extend (addresses ps) (addresses qs) = addresses (ps ++ qs)
extend old val = val

unfoldable pub set : ℕ → Value → (ℕ → Value) → ℕ → Value
set slot val values n = if n == slot then val else values n

module _ {S : Type 0} {V : S → Type 0} (i : In S V) where
  -- What a step gives with the bytes between `before` and `after`.
  unfoldable pub taken : {A : Type 0} → Exec S A → Exec S (A × List ℕ)
  taken m s =
      (do a ← m; λ s'. pure (a, take (length (i.view s) - length (i.view s')) (i.view s)) s') s

module _ {S : Type 0} {V : S → Type 0} (i : In S V) {T : Type 0} {W : T → Type 0}
    (o : Out T W) where
  -- read_lazy of the reader at hand, whose result is dropped. The number of bytes left is fuel enough.
  unfoldable pub skip : Exec (S × T) (Unit {0})
  skip p = (do read_lazy i o (suc (length (i.view p.0))); pure tt) p

  module _ (current : IStore) where
    unfoldable pub load : ℕ → Option FieldDef → Found → Exec (S × T) Found
    unfolding on_in on_out skip taken is_read_only store_of extend set
    load key none found = do
      on_out i o (write_uint o key)
      skip
      pure (record found { lazy_nfields = suc found.lazy_nfields })
    load key (some d) found = do
      got ← on_in i o (taken i (read_value i (store_of current d) d.kind))
      let values = set d.slot (extend (found.values d.slot) got.0) found.values in
          if is_read_only d.mode
          then (do
            on_out i o (λ t. o.write got.1 (write_uint o key t))
            pure (record { values = values; lazy_nfields = suc found.lazy_nfields }))
          else pure (record found { values = values })

    -- A field_id that is out of range is no error in C++ but an index that is not checked.
    unfoldable pub read_entry : Schema → Found → Exec (S × T) Found
    unfolding on_in load or_undefined
    read_entry fields found = do
      key ← on_in i o (read_uint i)
      field ← or_undefined (get_elem? fields (key % 2 ^ 32))
      load (key % 2 ^ 32) field found

    unfoldable pub read_entries : Schema → ℕ → Found → Exec (S × T) Found
    unfolding read_entry
    read_entries fields zero found = pure found
    read_entries fields (suc n) found = do
      next ← read_entry fields found
      read_entries fields n next

    -- The lazy part is what the writer got; an object with none keeps its own.
    unfoldable pub attach : Object → Found → List ℕ → Object
    unfolding is_empty
    attach obj found lazy =
        if is_empty lazy
        then record obj { values = found.values }
        else record { values = found.values; lazy = lazy; lazy_nelem = found.lazy_nfields }

    unfoldable pub read_fields : Schema → (ℕ → Value) → Exec (S × T) Found
    unfolding on_in read_entries
    read_fields fields values = do
      size ← on_in i o (read_map_size i)
      read_entries fields size (record { values = values; lazy_nfields = 0 })

    unfoldable pub read_instance : Schema → Object → Exec (S × T) Object
    unfolding read_fields attach
    read_instance fields obj p =
        (do
          found ← read_fields fields obj.values
          λ q. pure (attach obj found (drop (length (o.bytes p.1)) (o.bytes q.1))) q)
          p

    -- The annotations of a store, one after the other; past the last one C++ has no rule.
    unfoldable pub read_instances : Schema → ℕ → List Object → Exec (S × T) (List Object)
    unfolding read_instance
    read_instances fields zero objs = pure objs
    read_instances fields (suc n) [] = raise undefined
    read_instances fields (suc n) (obj ∷ objs) = do
      got ← read_instance fields obj
      rest ← read_instances fields n objs
      pure (got ∷ rest)

    -- The instances of an <instances_group>, into the annotations that the store was resized to.
    unfoldable pub read_instance_group : Schema → List Object → Exec (S × T) (List Object)
    unfolding on_in read_instances
    read_instance_group fields objs = do
      ninstances ← on_in i o (read_array_size i)
      read_instances fields ninstances objs
