-- ===== src/Instances/Written.antt =====
-- The fields that write_instance of src/lib/schwa/dr/writer.cc writes, and what Reader::read of reader.cc makes
-- of them.
use libschwa.Prelude.{
  ℕ, suc, ◌+◌, ◌^◌, ◌<◌, ◌≡◌, refl, ap, ◌∙◌, true, false, Option, none, some, List, [], ◌∷◌, ◌++◌,
  length, get_elem?, arith, inl, inr, Bool-cases,
}
use libschwa.Exec.{ok, ◌>>=◌}
use libschwa.Io.Stream.{In, Out}
use libschwa.Io.Effects.{Writes, Writes-then, Writes-id}
use libschwa.Msgpack.Write.{write_uint}
use libschwa.Msgpack.RoundTrip.{read_uint-write_uint}
use libschwa.Fields.Stores.{IStore}
use libschwa.Fields.Values.{should_write, write_field, write_value}
use libschwa.Fields.Passes.{act}
use libschwa.Fields.RoundTrip.{IsFit, read_value-write_value}
use libschwa.Instances.{
  FieldDef, Object, Schema, Found, is_read_write, store_of, count, write_new, set, read_entries,
}
use libschwa.Msgpack.Lazy.Loads.{Loads, Loads-pure, Loads-bind}
use libschwa.Instances.Entries.{
  is_written, filled, written, AreFit, AreReady, is_written-mode, Loads-load-some, Loads-entry,
}

module _ {S : Type 0} {V : S → Type 0} (i : In S V) {Z : Type 0} {Y : Z → Type 0}
    (z : Out Z Y) where
  module _ (current : IStore) (fields : Schema) where
    -- The fields of `obj` from `k` on: what the writer does, and what the reader makes of it.
    pub record Rest {T : Type 0} {W : T → Type 0} (o : Out T W) (obj : Object) (k : ℕ)
        (rest : Schema) : Type 0 where
      pub writer : T → T
      pub runs : (t : T) → write_new o current obj k rest t ≡ (ok (written obj rest), writer t)
      pub wire : List ℕ
      pub writes : Writes o writer wire
      pub empty : written obj rest ≡ 0 → wire ≡ []
      pub loads :
          (found : Found)
          → AreReady obj rest found.values
          → Loads i z
              (read_entries i z current fields (written obj rest) found)
              wire
              []
              (record found { values = filled obj rest found.values })

    module _ {T : Type 0} {W : T → Type 0} (o : Out T W) (obj : Object) where
      Rest-none : (k : ℕ) (rest : Schema) → Rest o obj (suc k) rest → Rest o obj k (none ∷ rest)
      unfolding write_new written filled AreReady
      Rest-none k rest r = record {
        writer = r.writer;
        runs = r.runs;
        wire = r.wire;
        writes = r.writes;
        empty = r.empty;
        loads = r.loads;
      }

      skipped_runs :
          (k : ℕ) (d : FieldDef) (rest : Schema) (t u : T) (n : ℕ)
          → is_written obj d ≡ false
          → write_new o current obj (suc k) rest t ≡ (ok n, u)
          → write_new o current obj k (some d ∷ rest) t ≡ (ok n, u)
      unfolding write_new is_written count write_field ◌>>=◌
      skipped_runs k d rest t u n e r = elim (Bool-cases (is_read_write d.mode)) [
        | inl b ↦ elim (Bool-cases (should_write (obj.values d.slot))) [
          | inl w ↦ absurd (cc (rw (b, w) at e))
          | inr w ↦ rw (b, w, r) refl
        ]
        | inr b ↦ rw (b, r) refl
      ]

      written_runs :
          (k : ℕ) (d : FieldDef) (rest : Schema) (t v u : T) (n : ℕ)
          → is_written obj d ≡ true
          → write_value o (store_of current d) d.kind (obj.values d.slot) (write_uint o k t)
            ≡ (ok tt, v)
          → write_new o current obj (suc k) rest v ≡ (ok n, u)
          → write_new o current obj k (some d ∷ rest) t ≡ (ok (suc n), u)
      unfolding write_new is_written count write_field act ◌>>=◌
      written_runs k d rest t v u n e f r = elim (Bool-cases (is_read_write d.mode)) [
        | inl b ↦ elim (Bool-cases (should_write (obj.values d.slot))) [
          | inl w ↦ rw (b, w, f, r) refl
          | inr w ↦ absurd (cc (rw (b, w) at e))
        ]
        | inr b ↦ absurd (cc (rw b at e))
      ]

      Rest-skipped :
          (k : ℕ) (d : FieldDef) (rest : Schema)
          → is_written obj d ≡ false
          → Rest o obj (suc k) rest
          → Rest o obj k (some d ∷ rest)
      unfolding written filled AreReady count
      Rest-skipped k d rest e r = record {
        writer = r.writer;
        runs = λ t. rw e (skipped_runs k d rest t _ _ e (r.runs t));
        wire = r.wire;
        writes = r.writes;
        empty = λ z. r.empty (rw e at z);
        loads = λ found ready. rw e (r.loads found ((rw e at ready).1));
      }

      Rest-written :
          (k : ℕ) (d : FieldDef) (rest : Schema)
          → is_written obj d ≡ true
          → k < 2 ^ 32
          → get_elem? fields k ≡ some (some d)
          → IsFit (store_of current d) d.kind (obj.values d.slot)
          → Rest o obj (suc k) rest
          → Rest o obj k (some d ∷ rest)
      unfolding written filled AreReady count read_entries
      Rest-written k d rest e h g fit r =
          let kt = read_uint-write_uint o i k (omega (arith, h)) in
          let vt = read_value-write_value o i (store_of current d) d.kind (obj.values d.slot) fit in
          record {
            writer = λ t. r.writer (vt.writer (write_uint o k t));
            runs = λ t. rw e (written_runs k d rest t _ _ _ e (vt.runs _) (r.runs _));
            wire = (kt.wire ++ vt.trip.wire) ++ r.wire;
            writes = Writes-then o (Writes-then o kt.writes vt.trip.writes) r.writes;
            empty = λ z. absurd (cc (rw e at z));
            loads = λ found ready. rw e (
                Loads-bind i z _
                  (Loads-entry i z current fields k (some d) found kt.reads h g (
                    Loads-load-some i z current fields k vt.trip.wire d (obj.values d.slot) found
                      (is_written-mode obj d e) vt.trip.reads (ready.0 e)))
                  (r.loads (record found { values = set d.slot (obj.values d.slot) found.values })
                    ((rw e at ready).1)));
          }

      next_field :
          (k : ℕ) (f : Option FieldDef) (rest : Schema)
          → ((j : ℕ) → get_elem? fields (k + j) ≡ get_elem? (f ∷ rest) j)
          → (j : ℕ) → get_elem? fields (suc k + j) ≡ get_elem? rest j
      next_field k f rest h j = let e : suc k + j ≡ k + suc j = omega arith in rw e (h (suc j))

      this_field :
          (k : ℕ) (f : Option FieldDef) (rest : Schema)
          → ((j : ℕ) → get_elem? fields (k + j) ≡ get_elem? (f ∷ rest) j)
          → get_elem? fields k ≡ some f
      this_field k f rest h = let e : k ≡ k + 0 = omega arith in ap (get_elem? fields) e ∙ h 0

      pub rest_lem :
          (k : ℕ) (rest : Schema)
          → ((j : ℕ) → get_elem? fields (k + j) ≡ get_elem? rest j)
          → k + length rest < 2 ^ 32
          → AreFit current obj rest
          → Rest o obj k rest
      unfolding write_new written filled read_entries AreFit
      rest_lem k [] h l fit = record {
        writer = λ t. t;
        runs = λ t. refl;
        wire = [];
        writes = Writes-id o;
        empty = λ _. refl;
        loads = λ found ready. Loads-pure i z found;
      }
      rest_lem k (none ∷ rest) h l fit =
          Rest-none k rest (rest_lem (suc k) rest (next_field k none rest h) (omega (arith, l)) fit)
      rest_lem k (some d ∷ rest) h l fit =
          let later =
            rest_lem (suc k) rest (next_field k (some d) rest h) (omega (arith, l)) fit.1 in
          elim (Bool-cases (is_written obj d)) [
            | inl e ↦
                Rest-written k d rest e (omega (arith, l)) (this_field k (some d) rest h) (fit.0 e)
                  later
            | inr e ↦ Rest-skipped k d rest e later
          ]
