-- ===== src/Documents/RoundTrip/Parts.antt =====
-- The parts of a document: Writer::write of src/lib/schwa/dr/writer.cc with Reader::read of reader.cc.
use libschwa.Prelude.{
  ℕ, suc, ◌^◌, ◌<◌, ◌≤◌, ◌≡◌, refl, ap, ap₂, subst, ◌∙◌, Bool, true, false, some, List, [], ◌∷◌,
  length, All, ◌==◌, ==_iff, leb, if◌then◌else◌, arith, inl, inr, Bool-cases, Option-cases,
}
use native.Mathlib.Nat.{mod-eq_of_lt}
use libschwa.Exec.{pure, ◌>>=◌, ◌>>◌}
use libschwa.Io.Stream.{In, Out}
use libschwa.Io.Effects.{Reads-read, Writes-write, read_bytes}
use libschwa.Msgpack.Trip.{Trip, Trip-pure, Trip-bind}
use libschwa.Msgpack.Write.{write_uint, write_raw, write_array_size}
use libschwa.Msgpack.RoundTrip.{
  read_uint-write_uint, read_array_size-write_array_size, read_raw-write_raw,
}
use libschwa.Documents.Runtime.{RtField, RtKlass, RtStore, RtManager, meta_name, is_name, is_lazy}
use libschwa.Documents.Writer.{
  write_field, write_fields, write_klass, write_klasses, write_store, write_stores, write_data,
  write_groups,
}
use libschwa.Documents.Reader.{
  read_fields, read_tuple, read_klass, read_klasses, read_store, read_stores, with_data, read_data,
  read_groups, ensure, find_meta, point_below, fields_point_below,
}
use libschwa.Documents.RoundTrip.Fields.{IsField, Trip-field}

pub record IsKlass (n : ℕ) (k : RtKlass) : Type 0 where
  pub name_fits : length k.serial < 2 ^ 32
  pub few_fields : length k.fields < 2 ^ 32
  pub fields_fit : All (IsField n) k.fields

-- Of the classes from the number `k` on, the one with the number `doc` has the document's name.
unfoldable pub Named : ℕ → ℕ → List RtKlass → Type 0
Named doc k [] = Unit {0}
Named doc k (c ∷ cs) = ((k == doc) ≡ true → c.serial ≡ meta_name) × Named doc (suc k) cs

-- All others are lazy: none has the document's name.
unfoldable pub AreLazy : ℕ → ℕ → List RtKlass → Type 0
unfolding is_lazy
AreLazy doc k [] = Unit {0}
AreLazy doc k (c ∷ cs) = ((k == doc) ≡ false → is_lazy c ≡ true) × AreLazy doc (suc k) cs

pub record IsStore (n : ℕ) (s : RtStore) : Type 0 where
  pub name_fits : length s.serial < 2 ^ 32
  pub has_klass : s.klass < n
  pub elements_fit : s.lazy_nelem < 2 ^ 32
  pub data_fits : length s.lazy_data < 2 ^ 32

-- What the writer can write and the reader takes: sizes that fit, pointers to stores and classes that
-- exist, and the class of the name "__meta__" as the document's, with no other one of that name.
pub record IsManager (rt : RtManager) : Type 0 where
  pub few_klasses : length rt.klasses < 2 ^ 32
  pub few_stores : length rt.stores < 2 ^ 32
  pub klasses_fit : All (IsKlass (length rt.stores)) rt.klasses
  pub stores_fit : All (IsStore (length rt.klasses)) rt.stores
  pub data_fits : length rt.lazy_data < 2 ^ 32
  pub is_doc : find_meta 0 rt.klasses ≡ some rt.doc
  pub others : AreLazy rt.doc 0 rt.klasses

written_name :
    (def_serial : List ℕ) (k : RtKlass) (is_doc : Bool)
    → (is_doc ≡ true → k.serial ≡ meta_name)
    → (is_doc ≡ false → is_lazy k ≡ true)
    → k.serial ≡ (if is_doc then meta_name else if is_lazy k then k.serial else def_serial)
written_name def_serial k true h l = h refl
written_name def_serial k false h l = rw (l refl) refl

klass_test : (k n : ℕ) → k < n → leb n k ≡ false
klass_test k n h = ground arith

pointer_test : (p n : ℕ) → p ≤ n → leb p n ≡ true
pointer_test p n h = ground arith

is_name→eq : (xs ys : List ℕ) → is_name xs ys ≡ true → xs ≡ ys
unfolding is_name
is_name→eq [] [] h = refl
is_name→eq [] (y ∷ ys) h = absurd (cc h)
is_name→eq (x ∷ xs) [] h = absurd (cc h)
is_name→eq (x ∷ xs) (y ∷ ys) h = elim (Bool-cases (x == y)) [
  | inl e ↦
      ap₂ (λ z zs. z ∷ zs) ((==_iff x y).0 e)
        (is_name→eq xs ys (subst (λ b. (if b then is_name xs ys else false) ≡ true) e h))
  | inr e ↦ absurd (cc (subst (λ b. (if b then is_name xs ys else false) ≡ true) e h))
]

-- What find_meta finds among the classes from `k` on.
unfoldable pub Finds : ℕ → ℕ → List RtKlass → Type 0
unfolding Named
Finds doc k ks = (k ≤ doc) × Named doc k ks

Named-past : (doc k : ℕ) (ks : List RtKlass) → doc < k → Named doc k ks
unfolding Named
Named-past doc k [] h = tt
Named-past doc k (c ∷ cs) h = (
  (λ e. absurd (omega (arith, (==_iff k doc).0 e, h))),
  Named-past doc (suc k) cs (omega (arith, h)),
)

pub find_meta-Finds : (doc k : ℕ) (ks : List RtKlass) → find_meta k ks ≡ some doc → Finds doc k ks
unfolding find_meta Finds Named
find_meta-Finds doc k [] h = absurd (cc h)
find_meta-Finds doc k (c ∷ cs) h = elim (Option-cases (find_meta (suc k) cs)) [
  | inl e ↦ elim (Bool-cases (is_name c.serial meta_name)) [
    | inl n ↦
        let g : k ≡ doc = cc (rw (e, find_meta, n) at h) in
        (
          omega (arith, g),
          ((λ _. is_name→eq c.serial meta_name n), Named-past doc (suc k) cs (omega (arith, g))),
        )
    | inr n ↦ absurd (cc (rw (e, find_meta, n) at h))
  ]
  | inr (id, e) ↦
      let (l, m) = find_meta-Finds doc (suc k) cs (e ∙ (rw (e, find_meta) at h)) in
      (omega (arith, l), ((λ g. absurd (omega (arith, (==_iff k doc).0 g, l))), m))
]

-- The stores as their headers give them.
abbrev pub emptied : List RtStore → List RtStore
emptied [] = []
emptied (s ∷ ss) = with_data s [] ∷ emptied ss

pub length-emptied : (ss : List RtStore) → length (emptied ss) ≡ length ss
length-emptied [] = refl
length-emptied (s ∷ ss) = ap suc (length-emptied ss)

fields-point : (n : ℕ) (fs : List RtField) → All (IsField n) fs → fields_point_below n fs ≡ true
unfolding fields_point_below
fields-point n [] h = refl
fields-point n (f ∷ fs) (h, hs) = rw (pointer_test f.points_into n h.points) (fields-point n fs hs)

pub klasses-point : (n : ℕ) (ks : List RtKlass) → All (IsKlass n) ks → point_below n ks ≡ true
unfolding point_below
klasses-point n [] h = refl
klasses-point n (k ∷ ks) (h, hs) = rw (fields-point n k.fields h.fields_fit) (klasses-point n ks hs)

module _ {T : Type 0} {W : T → Type 0} (o : Out T W) {S : Type 0} {V : S → Type 0}
    (i : In S V) where
  Trip-fields :
      (n : ℕ) (fs : List RtField)
      → All (IsField n) fs
      → n < 2 ^ 32
      → Trip o i (write_fields o fs) (read_fields i (length fs)) fs
  unfolding write_fields read_fields
  Trip-fields n [] h l = Trip-pure o i []
  Trip-fields n (f ∷ fs) (h, hs) l =
      Trip-bind o i {v = write_field o f} {w = write_fields o fs} _ (Trip-field o i n f h l) (
        Trip-bind o i {v = write_fields o fs} {w = λ s. s} _ (Trip-fields n fs hs l)
          (Trip-pure o i (f ∷ fs)))

  Trip-tuple : (n : ℕ) → n < 2 ^ 32 → Trip o i (write_array_size o n) (read_tuple i n) tt
  unfolding read_tuple
  Trip-tuple n h =
      Trip-bind o i {v = write_array_size o n} {w = λ s. s} _
        (read_array_size-write_array_size o i n h) (rw ((==_iff n n).1 refl) (Trip-pure o i tt))

  Trip-klass :
      (def_serial : List ℕ) (n : ℕ) (k : RtKlass) (is_doc : Bool)
      → IsKlass n k
      → n < 2 ^ 32
      → (is_doc ≡ true → k.serial ≡ meta_name)
      → (is_doc ≡ false → is_lazy k ≡ true)
      → Trip o i (write_klass o def_serial is_doc k) (read_klass i) k
  unfolding write_klass read_klass
  Trip-klass def_serial n k is_doc h l m z =
      subst
        (λ name.
          Trip o i
            (λ s.
              write_fields o k.fields
                (write_array_size o (length k.fields) (write_raw o name (write_array_size o 2 s))))
            (read_klass i) k)
        (written_name def_serial k is_doc m z)
        (Trip-bind o i {v = write_array_size o 2}
          {w = λ s.
            write_fields o k.fields (write_array_size o (length k.fields) (write_raw o k.serial s))}
          _ (Trip-tuple 2 (omega arith))
          (Trip-bind o i {v = write_raw o k.serial}
            {w = λ s. write_fields o k.fields (write_array_size o (length k.fields) s)} _
            (read_raw-write_raw o i k.serial h.name_fits)
            (Trip-bind o i {v = write_array_size o (length k.fields)} {w = write_fields o k.fields}
              _ (read_array_size-write_array_size o i (length k.fields) h.few_fields)
              (Trip-bind o i {v = write_fields o k.fields} {w = λ s. s} _
                (Trip-fields n k.fields h.fields_fit l) (Trip-pure o i k)))))

  pub Trip-klasses :
      (def_serial : List ℕ) (n doc k : ℕ) (ks : List RtKlass)
      → All (IsKlass n) ks
      → n < 2 ^ 32
      → Named doc k ks
      → AreLazy doc k ks
      → Trip o i (write_klasses o def_serial doc k ks) (read_klasses i (length ks)) ks
  unfolding write_klasses read_klasses Named AreLazy
  Trip-klasses def_serial n doc k [] h l m z = Trip-pure o i []
  Trip-klasses def_serial n doc k (c ∷ cs) (h, hs) l (m, ms) (z, zs) =
      Trip-bind o i {v = write_klass o def_serial (k == doc) c}
        {w = write_klasses o def_serial doc (suc k) cs} _
        (Trip-klass def_serial n c (k == doc) h l m z)
        (Trip-bind o i {v = write_klasses o def_serial doc (suc k) cs} {w = λ s. s} _
          (Trip-klasses def_serial n doc (suc k) cs hs l ms zs) (Trip-pure o i (c ∷ cs)))

  Trip-store :
      (n : ℕ) (s : RtStore)
      → IsStore n s
      → n < 2 ^ 32
      → Trip o i (write_store o s) (read_store i n) (with_data s [])
  unfolding write_store read_store with_data
  Trip-store n s h l =
      Trip-bind o i {v = write_array_size o 3}
        {w = λ t. write_uint o s.lazy_nelem (write_uint o s.klass (write_raw o s.serial t))} _
        (Trip-tuple 3 (omega arith))
        (Trip-bind o i {v = write_raw o s.serial}
          {w = λ t. write_uint o s.lazy_nelem (write_uint o s.klass t)} _
          (read_raw-write_raw o i s.serial h.name_fits)
          (Trip-bind o i {v = write_uint o s.klass} {w = write_uint o s.lazy_nelem} _
            (read_uint-write_uint o i s.klass (omega (arith, h.has_klass, l)))
            (Trip-bind o i {v = write_uint o s.lazy_nelem} {w = λ t. t} _
              (read_uint-write_uint o i s.lazy_nelem (omega (arith, h.elements_fit)))
              (rw (klass_test s.klass n h.has_klass, mod-eq_of_lt h.elements_fit)
                (Trip-pure o i (with_data s []))))))

  pub Trip-stores :
      (n : ℕ) (ss : List RtStore)
      → All (IsStore n) ss
      → n < 2 ^ 32
      → Trip o i (write_stores o ss) (read_stores i n (length ss)) (emptied ss)
  unfolding write_stores read_stores
  Trip-stores n [] h l = Trip-pure o i []
  Trip-stores n (s ∷ ss) (h, hs) l =
      Trip-bind o i {v = write_store o s} {w = write_stores o ss} _ (Trip-store n s h l) (
        Trip-bind o i {v = write_stores o ss} {w = λ t. t} _ (Trip-stores n ss hs l)
          (Trip-pure o i (emptied (s ∷ ss))))

  Trip-bytes : (bs : List ℕ) → Trip o i (o.write bs) (read_bytes i (length bs)) bs
  Trip-bytes bs = record {
    wire = bs;
    writes = Writes-write o bs;
    reads = Reads-read i (length bs) bs refl;
  }

  Trip-data : (bs : List ℕ) → length bs < 2 ^ 32 → Trip o i (write_data o bs) (read_data i) bs
  unfolding write_data read_data
  Trip-data bs h =
      Trip-bind o i {v = write_uint o (length bs)} {w = o.write bs} _
        (read_uint-write_uint o i (length bs) (omega (arith, h)))
        (Trip-bind o i {v = o.write bs} {w = λ t. t} _ (Trip-bytes bs)
          (rw ((==_iff (length bs) (length bs)).1 refl) (Trip-pure o i bs)))

  Trip-groups :
      (n : ℕ) (ss : List RtStore)
      → All (IsStore n) ss
      → Trip o i (write_groups o ss) (read_groups i (emptied ss)) ss
  unfolding write_groups read_groups with_data
  Trip-groups n [] h = Trip-pure o i []
  Trip-groups n (s ∷ ss) (h, hs) =
      Trip-bind o i {v = write_data o s.lazy_data} {w = write_groups o ss} _
        (Trip-data s.lazy_data h.data_fits)
        (Trip-bind o i {v = write_groups o ss} {w = λ t. t} _ (Trip-groups n ss hs)
          (Trip-pure o i (s ∷ ss)))

  Trip-ensure : (b : Bool) → b ≡ true → Trip o i (λ t. t) (ensure i b) tt
  unfolding ensure
  Trip-ensure b h = rw h (Trip-pure o i tt)

  -- What comes after the pointers are filled in.
  pub Trip-instances :
      (rt : RtManager) (b : Bool)
      → IsManager rt
      → b ≡ true
      → Trip o i
          (λ t. write_groups o rt.stores (write_data o rt.lazy_data t))
          (do
            ensure i b
            lazy_data ← read_data i
            filled ← read_groups i (emptied rt.stores)
            pure (record rt { stores = filled; lazy_data = lazy_data }))
          rt
  Trip-instances rt b h e =
      Trip-bind o i {v = λ t. t} {w = λ t. write_groups o rt.stores (write_data o rt.lazy_data t)} _
        (Trip-ensure b e)
        (Trip-bind o i {v = write_data o rt.lazy_data} {w = write_groups o rt.stores} _
          (Trip-data rt.lazy_data h.data_fits)
          (Trip-bind o i {v = write_groups o rt.stores} {w = λ t. t} _
            (Trip-groups (length rt.klasses) rt.stores h.stores_fit) (Trip-pure o i rt)))
