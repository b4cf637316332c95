-- ===== src/Documents/Reader.antt =====
-- Reader::read of src/lib/schwa/dr/reader.cc for a document class that registers no fields, stores or other
-- classes, over any byte source.
use libschwa.Prelude.{
  ℕ, zero, suc, ◌+◌, ◌%◌, ◌^◌, Bool, true, false, Option, none, some, List, [], ◌∷◌, length, ◌==◌,
  leb, if◌then◌else◌,
}
use libschwa.Exec.{reader_exception, Exec, pure, raise, ◌>>=◌, ◌>>◌}
use libschwa.Io.Stream.{In}
use libschwa.Io.Effects.{read_bytes}
use libschwa.Msgpack.Enums.{is_uint}
use libschwa.Msgpack.Table.{header_type}
use libschwa.Msgpack.Read.{
  read_uint, read_uint_fixed, read_nil, read_raw, read_array_size, read_map_size,
}
use libschwa.Documents.Runtime.{
  RtField, RtKlass, RtStore, RtManager, meta_name, wire_version, is_name,
}

-- The last class of the name "__meta__", from the number `k` on.
unfoldable pub find_meta : ℕ → List RtKlass → Option ℕ
unfolding is_name
find_meta k [] = none
find_meta k (klass ∷ klasses) = elim (find_meta (suc k) klasses) [
  | none ↦ if is_name klass.serial meta_name then some k else none
  | some id ↦ some id
]

-- A field before its entries are read.
abbrev pub new_field : RtField
new_field = record {
  serial = [];
  points_into = 0;
  is_slice = false;
  is_self_pointer = false;
  is_collection = false;
}

unfoldable pub fields_point_below : ℕ → List RtField → Bool
fields_point_below nstores [] = true
fields_point_below nstores (field ∷ fields) =
    let rest = fields_point_below nstores fields in
    if leb field.points_into nstores then rest else false

-- The test of the loop that fills in the pointers.
unfoldable pub point_below : ℕ → List RtKlass → Bool
unfolding fields_point_below
point_below nstores [] = true
point_below nstores (klass ∷ klasses) =
    let rest = point_below nstores klasses in
    if fields_point_below nstores klass.fields then rest else false

-- A store header with its bytes.
unfoldable pub with_data : RtStore → List ℕ → RtStore
with_data store bytes = record store { lazy_data = bytes }

module _ {S : Type 0} {V : S → Type 0} (i : In S V) where
  -- The switch on the key of an entry.
  unfoldable pub entry_value : ℕ → RtField → Exec S RtField
  entry_value key field =
      if key == 0
      then (do field_name ← read_raw i; pure (record field { serial = field_name }))
      else if key == 1
      then (do id ← read_uint i; pure (record field { points_into = (id + 1) % 2 ^ 64 }))
      else if key == 2
      then (do read_nil i; pure (record field { is_slice = true }))
      else if key == 3
      then (do read_nil i; pure (record field { is_self_pointer = true }))
      else if key == 4
      then (do read_nil i; pure (record field { is_collection = true }))
      else raise reader_exception

  unfoldable pub read_entries : ℕ → RtField → Exec S RtField
  unfolding entry_value
  read_entries zero field = pure field
  read_entries (suc n) field = do
    key ← read_uint_fixed i
    next ← entry_value key field
    read_entries n next

  unfoldable pub named : RtField → Exec S RtField
  named field = if length field.serial == 0 then raise reader_exception else pure field

  unfoldable pub read_field : Exec S RtField
  unfolding read_entries named
  read_field = do nitems ← read_map_size i; field ← read_entries nitems new_field; named field

  unfoldable pub read_fields : ℕ → Exec S (List RtField)
  unfolding read_field
  read_fields zero = pure []
  read_fields (suc n) = do field ← read_field; fields ← read_fields n; pure (field ∷ fields)

  -- The header of a tuple, whose size has to be `n`.
  unfoldable pub read_tuple : ℕ → Exec S (Unit {0})
  read_tuple n = do size ← read_array_size i; if size == n then pure tt else raise reader_exception

  unfoldable pub read_klass : Exec S RtKlass
  unfolding read_fields read_tuple
  read_klass = do
    read_tuple 2
    klass_name ← read_raw i
    nfields ← read_array_size i
    fields ← read_fields nfields
    pure (record { serial = klass_name; fields = fields })

  unfoldable pub read_klasses : ℕ → Exec S (List RtKlass)
  unfolding read_klass
  read_klasses zero = pure []
  read_klasses (suc n) = do klass ← read_klass; klasses ← read_klasses n; pure (klass ∷ klasses)

  -- A store's number of elements is kept in 32 bits.
  unfoldable pub read_store : ℕ → Exec S RtStore
  unfolding read_tuple
  read_store nklasses = do
    read_tuple 3
    store_name ← read_raw i
    klass_id ← read_uint i
    nelem ← read_uint i
    if leb nklasses klass_id
        then raise reader_exception
        else pure (record {
          serial = store_name;
          klass = klass_id;
          lazy_nelem = nelem % 2 ^ 32;
          lazy_data = [];
        })

  unfoldable pub read_stores : ℕ → ℕ → Exec S (List RtStore)
  unfolding read_store
  read_stores nklasses zero = pure []
  read_stores nklasses (suc n) = do
    store ← read_store nklasses
    stores ← read_stores nklasses n
    pure (store ∷ stores)

  unfoldable pub read_data : Exec S (List ℕ)
  read_data = do
    nbytes ← read_uint i
    bytes ← read_bytes i nbytes
    if length bytes == nbytes then pure bytes else raise reader_exception

  unfoldable pub read_groups : List RtStore → Exec S (List RtStore)
  unfolding read_data with_data
  read_groups [] = pure []
  read_groups (store ∷ stores) = do
    bytes ← read_data
    filled ← read_groups stores
    pure (with_data store bytes ∷ filled)

  unfoldable pub or_reader_exception : {A : Type 0} → Option A → Exec S A
  or_reader_exception none = raise reader_exception
  or_reader_exception (some a) = pure a

  unfoldable pub ensure : Bool → Exec S (Unit {0})
  ensure b = if b then pure tt else raise reader_exception

  -- The stream's version; version 1 has none.
  unfoldable pub read_version : Exec S ℕ
  read_version s = if is_uint (header_type (i.peek s)) then read_uint i s else pure 1 s

  unfoldable pub read_document : Exec S RtManager
  unfolding read_klasses read_stores read_data read_groups read_version find_meta point_below ensure
      or_reader_exception
  read_document = do
    version ← read_version
    ensure (version == wire_version)
    nklasses ← read_array_size i
    klasses ← read_klasses nklasses
    doc ← or_reader_exception (find_meta 0 klasses)
    nstores ← read_array_size i
    stores ← read_stores (length klasses) nstores
    ensure (point_below (length stores) klasses)
    lazy_data ← read_data
    filled ← read_groups stores
    pure (record { doc = doc; klasses = klasses; stores = filled; lazy_data = lazy_data })

  -- `none` is the end of the stream, where `_has_more` becomes false.
  unfoldable pub read : Exec S (Option RtManager)
  unfolding read_document
  read s = elim (i.peek s) [
    | none ↦ pure none s
    | some b ↦ (do rt ← read_document; pure (some rt)) s
  ]
