-- ===== src/Documents/RoundTrip/Whole.antt =====
-- A whole document: Writer::write of src/lib/schwa/dr/writer.cc with Reader::read of reader.cc.
use libschwa.Prelude.{
  ℕ, ◌≡◌, ap, subst, ◌∙◌, some, List, [], ◌∷◌, ◌++◌, append-nil, head?, length, ◌==◌, arith,
}
use libschwa.Exec.{pure, ◌>>=◌, ◌>>◌}
use libschwa.Io.Stream.{In, Out}
use libschwa.Io.Effects.{Reads, Reads-pure, Reads-bind, Writes, Writes-then}
use libschwa.Msgpack.Enums.{is_uint}
use libschwa.Msgpack.Table.{header_type}
use libschwa.Msgpack.Words.{Reads-header}
use libschwa.Msgpack.Trip.{Trip, Trip-pure, Trip-bind}
use libschwa.Msgpack.Read.{read_val_uint_fixed, read_uint, read_array_size}
use libschwa.Msgpack.Write.{write_uint, write_array_size}
use libschwa.Msgpack.RoundTrip.{read_array_size-write_array_size, Writes-fixed}
use libschwa.Documents.Runtime.{RtManager, wire_version}
use libschwa.Documents.Writer.{
  write_klasses, write_stores, write_data, write_groups, write_document,
}
use libschwa.Documents.Reader.{
  read_klasses, read_stores, read_data, read_groups, read_version, read_document, ensure,
  or_reader_exception, find_meta, point_below, read,
}
use libschwa.Documents.RoundTrip.Parts.{
  IsManager, Finds, find_meta-Finds, emptied, length-emptied, klasses-point, Trip-klasses,
  Trip-stores, Trip-instances,
}

module _ {T : Type 0} {W : T → Type 0} (o : Out T W) {S : Type 0} {V : S → Type 0}
    (i : In S V) where
  version-Writes : Writes o (write_uint o wire_version) (wire_version ∷ [])
  unfolding write_uint
  version-Writes = Writes-fixed o i wire_version (omega arith)

  Reads-uint_version : Reads i (read_uint i) (wire_version ∷ []) wire_version
  unfolding read_uint read_val_uint_fixed header_type
  Reads-uint_version = Reads-header i _ wire_version (Reads-pure i wire_version)

  first_byte :
      (s : S) (bs : List ℕ) → V s → i.view s ≡ wire_version ∷ bs → i.peek s ≡ some wire_version
  first_byte s bs v e = i.peek_value s v ∙ ap head? e

  Reads-version : Reads i (read_version i) (wire_version ∷ []) wire_version
  unfolding read_version is_uint header_type
  Reads-version = record {
    at = λ s rest v e. rw (first_byte s rest v e) (Reads-uint_version.at s rest v e);
  }

  module _ (def_serial : List ℕ) (rt : RtManager) (h : IsManager rt) where
    abbrev after_klasses : T → T
    after_klasses t = write_groups o rt.stores (
        write_data o rt.lazy_data
          (write_stores o rt.stores (write_array_size o (length rt.stores) t)))

    Trip-from_stores :
        Trip o i after_klasses
          (do
            doc ← or_reader_exception i (find_meta 0 rt.klasses)
            nstores ← read_array_size i
            stores ← read_stores i (length rt.klasses) nstores
            ensure i (point_below (length stores) rt.klasses)
            lazy_data ← read_data i
            filled ← read_groups i stores
            pure (record {
              doc = doc;
              klasses = rt.klasses;
              stores = filled;
              lazy_data = lazy_data;
            }))
          rt
    unfolding or_reader_exception
    Trip-from_stores = rw h.is_doc (
        Trip-bind o i {v = λ t. t} {w = after_klasses} _ (Trip-pure o i rt.doc) (
          Trip-bind o i {v = write_array_size o (length rt.stores)}
            {w = λ t.
              write_groups o rt.stores (write_data o rt.lazy_data (write_stores o rt.stores t))}
            _ (read_array_size-write_array_size o i (length rt.stores) h.few_stores)
            (Trip-bind o i {v = write_stores o rt.stores}
              {w = λ t. write_groups o rt.stores (write_data o rt.lazy_data t)} _
              (Trip-stores o i (length rt.klasses) rt.stores h.stores_fit h.few_klasses)
              (Trip-instances o i rt (point_below (length (emptied rt.stores)) rt.klasses) h (
                rw (length-emptied rt.stores)
                  (klasses-point (length rt.stores) rt.klasses h.klasses_fit))))))

    abbrev after_version : T → T
    after_version t =
        after_klasses (
          write_klasses o def_serial rt.doc 0 rt.klasses (write_array_size o (length rt.klasses) t))

    Trip-after_version :
        Trip o i after_version
          (do
            ensure i (wire_version == wire_version)
            nklasses ← read_array_size i
            klasses ← read_klasses i nklasses
            doc ← or_reader_exception i (find_meta 0 klasses)
            nstores ← read_array_size i
            stores ← read_stores i (length klasses) nstores
            ensure i (point_below (length stores) klasses)
            lazy_data ← read_data i
            filled ← read_groups i stores
            pure (record { doc = doc; klasses = klasses; stores = filled; lazy_data = lazy_data }))
          rt
    unfolding ensure Finds
    Trip-after_version = Trip-bind o i {v = λ t. t} {w = after_version} _ (Trip-pure o i tt) (
        Trip-bind o i {v = write_array_size o (length rt.klasses)}
          {w = λ t. after_klasses (write_klasses o def_serial rt.doc 0 rt.klasses t)} _
          (read_array_size-write_array_size o i (length rt.klasses) h.few_klasses)
          (Trip-bind o i {v = write_klasses o def_serial rt.doc 0 rt.klasses} {w = after_klasses} _
            (Trip-klasses o i def_serial (length rt.stores) rt.doc 0 rt.klasses h.klasses_fit
              h.few_stores (find_meta-Finds rt.doc 0 rt.klasses h.is_doc).1 h.others)
            Trip-from_stores))

    Reads-some :
        Reads i
          (do rt ← read_document i; pure (some rt))
          (wire_version ∷ Trip-after_version.wire)
          (some rt)
    unfolding read_document
    Reads-some =
        subst (λ bs. Reads i (do rt ← read_document i; pure (some rt)) bs (some rt))
          (append-nil (wire_version ∷ Trip-after_version.wire))
          (Reads-bind i _ (Reads-bind i _ Reads-version Trip-after_version.reads)
            (Reads-pure i (some rt)))

    -- A lazily held document with sizes that fit, pointers and stores that lead to stores and classes of its own,
    -- fields that have names, and one class alone of the name "__meta__", which is its own, is written with its
    -- classes, fields, pointers, flags, stores and lazy bytes; Reader::read reads it back from those bytes and
    -- takes no more of them.
    pub read-write_document : Trip o i (write_document o def_serial rt) (read i) (some rt)
    unfolding write_document read
    read-write_document = record {
      wire = wire_version ∷ Trip-after_version.wire;
      writes = Writes-then o version-Writes Trip-after_version.writes;
      reads = record {
        at = λ s rest v e.
            rw (first_byte s (Trip-after_version.wire ++ rest) v e, read)
              (Reads-some.at s rest v e);
      };
    }
