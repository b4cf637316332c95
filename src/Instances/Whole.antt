-- ===== src/Instances/Whole.antt =====
-- What write_instance of src/lib/schwa/dr/writer.cc writes, the loop of Reader::read in reader.cc reads back.
use libschwa.Prelude.{
  ℕ, ◌+◌, ◌^◌, ◌<◌, ◌≡◌, refl, sym, ap, ap₂, subst, ◌∙◌, List, [], ◌++◌, append-nil, append_assoc,
  length, drop, get_elem?, drop-append, arith, ◌==◌, ==_iff, inl, inr, Bool-cases,
}
use native.Mathlib.Nat.{mod-eq_of_lt}
use libschwa.Exec.{ok, ◌>>=◌}
use libschwa.Io.Stream.{In, Out}
use libschwa.Msgpack.Write.{write_map_size}
use libschwa.Msgpack.Read.{read_map_size}
use libschwa.Msgpack.Trip.{Trip}
use libschwa.Msgpack.RoundTrip.{read_map_size-write_map_size}
use libschwa.Fields.Stores.{IStore}
use libschwa.Fields.Values.{is_empty}
use libschwa.Instances.{
  Object, Schema, Buffers, Found, write_lazy, write_written, write_instance, attach, read_fields,
  read_instance,
}
use libschwa.Msgpack.Lazy.Loads.{Loads, Loads-bind, Loads-in}
use libschwa.Instances.Entries.{filled, written, AreFit, AreReady, IsLazy, bump, Loads-lazies}
use libschwa.Instances.Lazies.{
  written-le, empty_lem, IsLazy-zero, IsLazy-empty, Writes-lazy, bump_values, bump_count,
}
use libschwa.Instances.Written.{Rest, rest_lem}
use libschwa.Instances.Members.{Agrees, AreDistinct, AreNew, AreNew-AreReady, filled-Agrees}

module _ {S : Type 0} {V : S → Type 0} (i : In S V) {Z : Type 0} {Y : Z → Type 0} (z : Out Z Y)
    {T : Type 0} {W : T → Type 0} (o : Out T W) (b : Buffers o) (current : IStore)
    (fields : Schema) where
  -- What an object holds that is written and read back into `new`: lazy fields as they came from a stream, with
  -- their number; values that fit their fields; members that no two fields share; few fields.
  pub record IsObject (obj new : Object) : Type 0 where
    pub lazy_fields : IsLazy i z fields obj.lazy obj.lazy_nelem
    pub fits : AreFit current obj fields
    pub few : length fields < 2 ^ 31
    pub few_lazy : obj.lazy_nelem < 2 ^ 31
    pub distinct : AreDistinct fields
    pub is_new : AreNew obj fields new.values
    pub no_lazy : new.lazy ≡ []
    pub no_elements : new.lazy_nelem ≡ 0

  -- The object that was read has the lazy fields of `obj`, byte for byte, and its values.
  pub record IsReadBack (obj got : Object) : Type 0 where
    pub same_lazy : got.lazy ≡ obj.lazy
    pub same_elements : got.lazy_nelem ≡ obj.lazy_nelem
    pub same_values : Agrees obj fields got.values

  -- write_instance appends `wire` to any valid buffer, and where that comes next, the reader takes just that and
  -- makes `obj` again of `new`.
  pub record IsKept (obj new : Object) : Type 0 where
    pub wire : List ℕ
    pub writes :
        (t : T)
        → W t
        → (u : T) × (write_instance o current obj b fields t ≡ (ok tt, u))
          × W u
          × (o.bytes u ≡ o.bytes t ++ wire)
    pub reads :
        (p : S × Z) (rest : List ℕ)
        → V p.0
        → Y p.1
        → i.view p.0 ≡ wire ++ rest
        → (got : Object) × (q : S × Z) × (read_instance i z current fields new p ≡ (ok got, q))
          × V q.0
          × Y q.1
          × (i.view q.0 ≡ rest)
          × IsReadBack obj got

  module _ (obj new : Object) (h : IsObject obj new) where
    all_fields : Rest i z current fields o obj 0 fields
    all_fields =
        rest_lem i z current fields o obj 0 fields
          (λ j. let e : 0 + j ≡ j = omega arith in ap (get_elem? fields) e) (omega (arith, h.few))
          h.fits

    nfields : ℕ
    nfields = written obj fields + obj.lazy_nelem

    size_trip : Trip o i (write_map_size o nfields) (read_map_size i) nfields
    unfolding nfields
    size_trip =
        read_map_size-write_map_size o i nfields
          (omega (arith, h.few, h.few_lazy, written-le obj fields))

    instance_wire : List ℕ
    unfolding nfields size_trip all_fields
    instance_wire = size_trip.wire ++ (obj.lazy ++ all_fields.wire)

    -- What was written to the buffer of the new fields.
    buffer_bytes : o.bytes (all_fields.writer b.create) ≡ all_fields.wire
    buffer_bytes =
        all_fields.writes.grows b.create b.create-IsValid
        ∙ ap (λ x. x ++ all_fields.wire) b.create_bytes

    write_lazy_lem :
        (t : T)
        → W t
        → W (write_lazy o current obj b (written obj fields) (all_fields.writer b.create) t)
          × (o.bytes
                (write_lazy o current obj b (written obj fields) (all_fields.writer b.create) t)
              ≡ o.bytes t ++ instance_wire)
    unfolding write_lazy instance_wire nfields size_trip all_fields
    write_lazy_lem t v =
        let few : nfields < 2 ^ 32 = omega (arith, h.few, h.few_lazy, written-le obj fields) in
        let sized = write_map_size o nfields t in
        let sized_valid = size_trip.writes.valid t v in
        let middle = Writes-lazy o obj.lazy in
        let buf_valid = all_fields.writes.valid b.create b.create-IsValid in
        elim (Bool-cases (nfields == 0)) [
          | inl e ↦
              let none_written : nfields ≡ 0 = (==_iff nfields 0).0 e in
              let no_wire : all_fields.wire ≡ [] = all_fields.empty (omega (arith, none_written)) in
              let no_bytes : obj.lazy ≡ [] =
                IsLazy-zero i z fields obj.lazy obj.lazy_nelem h.lazy_fields
                  (omega (arith, none_written)) in
              rw (mod-eq_of_lt few, e)
                (
                  sized_valid,
                  size_trip.writes.grows t v
                      ∙ ap (λ x. o.bytes t ++ x)
                          (sym (
                            ap₂ (λ x y. size_trip.wire ++ (x ++ y)) no_bytes no_wire
                            ∙ append-nil _)),
                )
          | inr e ↦
              rw (mod-eq_of_lt few, e)
                (
                  b.copy_from-IsValid _ _ buf_valid (middle.valid sized sized_valid),
                  b.copy_from_bytes _ _ buf_valid (middle.valid sized sized_valid)
                      ∙ ap₂ ◌++◌
                          (middle.grows sized sized_valid
                            ∙ ap (λ x. x ++ obj.lazy) (size_trip.writes.grows t v))
                          buffer_bytes
                      ∙ append_assoc (o.bytes t ++ size_trip.wire) obj.lazy all_fields.wire
                      ∙ append_assoc (o.bytes t) size_trip.wire (obj.lazy ++ all_fields.wire),
                )
        ]

    found_new : Found
    found_new = record { values = new.values; lazy_nfields = 0 }

    found_lazy : Found
    unfolding found_new bump
    found_lazy = bump i z current fields obj.lazy_nelem found_new

    ready : AreReady obj fields found_lazy.values
    unfolding found_lazy found_new
    ready =
        subst (AreReady obj fields) (sym (bump_values i z current fields obj.lazy_nelem found_new))
          (AreNew-AreReady obj fields new.values h.distinct h.is_new)

    Loads-read_fields :
        Loads i z
          (read_fields i z current fields new.values)
          instance_wire
          obj.lazy
          (record found_lazy { values = filled obj fields found_lazy.values })
    unfolding read_fields found_lazy found_new instance_wire nfields
    Loads-read_fields =
        let e : written obj fields + obj.lazy_nelem ≡ obj.lazy_nelem + written obj fields =
          omega arith in
        Loads-bind i z _ (Loads-in i z size_trip.reads) (
          rw e (
            Loads-lazies i z current fields h.lazy_fields (written obj fields) found_new
              (all_fields.loads found_lazy ready)))

    attach-IsReadBack : IsReadBack obj (
        attach i z current new
          (record found_lazy { values = filled obj fields found_lazy.values })
          obj.lazy)
    unfolding attach found_lazy found_new
    attach-IsReadBack =
        let agrees =
          subst (λ v. Agrees obj fields (filled obj fields v))
            (sym (bump_values i z current fields obj.lazy_nelem found_new))
            (filled-Agrees obj fields new.values h.distinct h.is_new) in
        elim (Bool-cases (is_empty obj.lazy)) [
          | inl e ↦ rw e (record {
            same_lazy = h.no_lazy ∙ sym (empty_lem obj.lazy e);
            same_elements =
                h.no_elements
                ∙ sym (IsLazy-empty i z fields obj.lazy obj.lazy_nelem h.lazy_fields e);
            same_values = agrees;
          })
          | inr e ↦ rw e (record {
            same_lazy = refl;
            same_elements =
                bump_count i z current fields obj.lazy_nelem found_new
                ∙ (let z : obj.lazy_nelem + 0 ≡ obj.lazy_nelem = omega arith in z);
            same_values = agrees;
          })
        ]

    -- Let an object have lazy fields that came from a stream, with their number, values that fit the types of
    -- their fields, members that no two fields share, and fewer than 2 ^ 31 fields of either sort. write_instance
    -- writes it with no throw, and where those bytes come next, the loop of the reader takes just them and makes
    -- of a new object one with the same lazy fields, byte for byte, their number, and the value of each field
    -- that is read and written. In the new object nothing is lazy, the members that were written are blank, and
    -- the others that are read and written have their value.
    pub read_instance-write_instance : IsKept obj new
    unfolding write_instance write_written read_instance ◌>>=◌
    read_instance-write_instance = record {
      wire = instance_wire;
      writes = λ t v.
          let (valid, grows) = write_lazy_lem t v in
          (
            write_lazy o current obj b (written obj fields) (all_fields.writer b.create) t,
            rw (all_fields.runs b.create) refl,
            valid,
            grows,
          );
      reads = λ p rest v w e.
          let (q, run, left) = Loads-read_fields.at p rest v w e in
          let appended : drop (length (z.bytes p.1)) (z.bytes q.1) ≡ obj.lazy =
            ap (drop (length (z.bytes p.1))) left.appended
            ∙ drop-append _ (z.bytes p.1) obj.lazy refl in
          (
            _,
            q,
            rw (run, appended) refl,
            left.source_valid,
            left.sink_valid,
            left.left,
            attach-IsReadBack,
          );
    }
