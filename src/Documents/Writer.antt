-- ===== src/Documents/Writer.antt =====
-- Writer::write of src/lib/schwa/dr/writer.cc for a document that holds all of its data lazily, over any
-- byte sink.
use libschwa.Prelude.{ℕ, zero, suc, Bool, true, false, List, [], ◌∷◌, length, ◌==◌, if◌then◌else◌}
use libschwa.Io.Stream.{Out}
use libschwa.Msgpack.Write.{
  write_uint, write_uint_fixed, write_nil, write_raw, write_array_size, write_map_size,
}
use libschwa.Documents.Runtime.{
  RtField, RtKlass, RtStore, RtManager, meta_name, wire_version, is_lazy,
}

-- `b + n` for a bool.
unfoldable pub add_bool : Bool → ℕ → ℕ
add_bool true n = suc n
add_bool false n = n

-- `(points_into != nullptr) + n`.
unfoldable pub add_pointer : ℕ → ℕ → ℕ
add_pointer zero n = n
add_pointer (suc id) n = suc n

-- `nelem`.
unfoldable pub entries_of : RtField → ℕ
unfolding add_bool add_pointer
entries_of field = suc (
    add_pointer field.points_into
      (add_bool field.is_slice (add_bool field.is_self_pointer (add_bool field.is_collection 0))))

module _ {T : Type 0} {W : T → Type 0} (o : Out T W) where
  -- The entry of a flag, if it is set.
  unfoldable pub write_flag : ℕ → Bool → T → T
  write_flag key true s = write_nil o (write_uint_fixed o key s)
  write_flag key false s = s

  unfoldable pub write_pointer : ℕ → T → T
  write_pointer zero s = s
  write_pointer (suc store_id) s = write_uint o store_id (write_uint_fixed o 1 s)

  unfoldable pub write_field : RtField → T → T
  unfolding write_flag write_pointer entries_of
  write_field field s = write_flag 4 field.is_collection (
      write_flag 3 field.is_self_pointer (
        write_flag 2 field.is_slice (
          write_pointer field.points_into (
            write_raw o field.serial
              (write_uint_fixed o 0 (write_map_size o (entries_of field) s))))))

  unfoldable pub write_fields : List RtField → T → T
  unfolding write_field
  write_fields [] s = s
  write_fields (field ∷ fields) s = write_fields fields (write_field field s)

  -- `is_doc` is whether the class is the document's; `def_serial` is the serial of the `def` of a class that is
  -- not lazy.
  unfoldable pub write_klass : List ℕ → Bool → RtKlass → T → T
  unfolding write_fields is_lazy
  write_klass def_serial is_doc klass s = write_fields klass.fields (
      write_array_size o (length klass.fields) (
        write_raw o
          (if is_doc then meta_name else if is_lazy klass then klass.serial else def_serial)
          (write_array_size o 2 s)))

  -- The loop over the classes from the number `k` on.
  unfoldable pub write_klasses : List ℕ → ℕ → ℕ → List RtKlass → T → T
  unfolding write_klass
  write_klasses def_serial doc k [] s = s
  write_klasses def_serial doc k (klass ∷ klasses) s =
      write_klasses def_serial doc (suc k) klasses (write_klass def_serial (k == doc) klass s)

  unfoldable pub write_store : RtStore → T → T
  write_store store s =
      write_uint o store.lazy_nelem
        (write_uint o store.klass (write_raw o store.serial (write_array_size o 3 s)))

  unfoldable pub write_stores : List RtStore → T → T
  unfolding write_store
  write_stores [] s = s
  write_stores (store ∷ stores) s = write_stores stores (write_store store s)

  -- `lazy_nbytes` and the bytes of `lazy_data`.
  unfoldable pub write_data : List ℕ → T → T
  write_data data_bytes s = o.write data_bytes (write_uint o (length data_bytes) s)

  unfoldable pub write_groups : List RtStore → T → T
  unfolding write_data
  write_groups [] s = s
  write_groups (store ∷ stores) s = write_groups stores (write_data store.lazy_data s)

  unfoldable pub write_document : List ℕ → RtManager → T → T
  unfolding write_klasses write_stores write_data write_groups
  write_document def_serial rt s = write_groups rt.stores (
      write_data rt.lazy_data (
        write_stores rt.stores (
          write_array_size o (length rt.stores) (
            write_klasses def_serial rt.doc 0 rt.klasses
              (write_array_size o (length rt.klasses) (write_uint o wire_version s))))))
