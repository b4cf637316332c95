-- ===== src/Documents/Bounds.antt =====
-- The numbers in what Reader::read of src/lib/schwa/dr/reader.cc returns.
use libschwa.Prelude.{
  ℕ, zero, suc, ◌+◌, ◌<◌, ◌≤◌, ◌≡◌, refl, sym, ap, subst, ◌∙◌, Bool, true, false, Option, none,
  some, List, [], ◌∷◌, length, All, ◌==◌, leb, leb→le, if◌then◌else◌, arith, inl, inr, Bool-cases,
  Option-cases,
}
use libschwa.Exec.{ok, pure, ◌>>=◌}
use libschwa.Exec.Post.{Post, returns, throws, Post-any, Post-bind, Post-if, Post-ok}
use libschwa.Io.Stream.{In}
use libschwa.Msgpack.Read.{read_uint, read_raw, read_array_size, read_map_size}
use libschwa.Documents.Runtime.{
  RtField, RtKlass, RtStore, RtManager, meta_name, wire_version, is_name,
}
use libschwa.Documents.Reader.{
  new_field, read_entries, named, read_field, read_fields, read_tuple, read_klass, read_klasses,
  read_store, read_stores, with_data, read_data, read_groups, ensure, or_reader_exception,
  read_version, read_document, read, find_meta, fields_point_below, point_below,
}

abbrev pub IsNamed : RtField → Type 0
IsNamed f = 0 < length f.serial

-- All pointers of fields are to stores that there are, all stores have a class that there is, all fields
-- have names, and the document's class is there.
pub record IsInBounds (rt : RtManager) : Type 0 where
  pub names : All (λ k. All IsNamed k.fields) rt.klasses
  pub pointers : All (λ k. All (λ f. f.points_into ≤ length rt.stores) k.fields) rt.klasses
  pub klasses : All (λ s. s.klass < length rt.klasses) rt.stores
  pub document : rt.doc < length rt.klasses

fields_point-le :
    (n : ℕ) (fs : List RtField) → fields_point_below n fs ≡ true → All (λ f. f.points_into ≤ n) fs
unfolding fields_point_below
fields_point-le n [] h = tt
fields_point-le n (f ∷ fs) h = elim (Bool-cases (leb f.points_into n)) [
  | inl e ↦ (
    leb→le f.points_into n e,
    fields_point-le n fs (subst (λ b. (if b then fields_point_below n fs else false) ≡ true) e h),
  )
  | inr e ↦ absurd (cc (subst (λ b. (if b then fields_point_below n fs else false) ≡ true) e h))
]

point-le :
    (n : ℕ) (ks : List RtKlass)
    → point_below n ks ≡ true
    → All (λ k. All (λ f. f.points_into ≤ n) k.fields) ks
unfolding point_below
point-le n [] h = tt
point-le n (k ∷ ks) h = elim (Bool-cases (fields_point_below n k.fields)) [
  | inl e ↦ (
    fields_point-le n k.fields e,
    point-le n ks (subst (λ b. (if b then point_below n ks else false) ≡ true) e h),
  )
  | inr e ↦ absurd (cc (subst (λ b. (if b then point_below n ks else false) ≡ true) e h))
]

name_test : (n : ℕ) → (n == 0) ≡ false → 0 < n
name_test n h = ground (arith, h)

klass_test : (k n : ℕ) → leb n k ≡ false → k < n
klass_test k n h = ground (arith, h)

find_meta-lt : (doc k : ℕ) (ks : List RtKlass) → find_meta k ks ≡ some doc → doc < k + length ks
unfolding find_meta
find_meta-lt doc k [] h = absurd (cc h)
find_meta-lt doc k (c ∷ cs) h = elim (Option-cases (find_meta (suc k) cs)) [
  | inl e ↦ elim (Bool-cases (is_name c.serial meta_name)) [
    | inl n ↦ let g : k ≡ doc = cc (rw (e, find_meta, n) at h) in omega (arith, g)
    | inr n ↦ absurd (cc (rw (e, find_meta, n) at h))
  ]
  | inr (id, e) ↦
      let l = find_meta-lt doc (suc k) cs (e ∙ (rw (e, find_meta) at h)) in omega (arith, l)
]

module _ {S : Type 0} {V : S → Type 0} (i : In S V) where
  read_field-Post : (s : S) → Post (λ f t. IsNamed f) (read_field i s)
  unfolding read_field named
  read_field-Post s = Post-bind (read_map_size i) _ Post-any λ n t _.
      Post-bind (read_entries i n new_field) _ Post-any λ f u _.
        Post-if (length f.serial == 0) _ _ u (λ e. throws)
          λ e. returns (name_test (length f.serial) e)

  read_fields-Post : (n : ℕ) (s : S) → Post (λ fs t. All IsNamed fs) (read_fields i n s)
  unfolding read_fields
  read_fields-Post zero s = returns tt
  read_fields-Post (suc n) s =
      Post-bind (read_field i) _ (read_field-Post s)
        λ f t h. Post-bind (read_fields i n) _ (read_fields-Post n t) λ fs u k. returns (h, k)

  read_klass-Post : (s : S) → Post (λ k t. All IsNamed k.fields) (read_klass i s)
  unfolding read_klass
  read_klass-Post s = Post-bind (read_tuple i 2) _ Post-any λ _ t _.
      Post-bind (read_raw i) _ Post-any λ _ t _.
        Post-bind (read_array_size i) _ Post-any
          λ n t _. Post-bind (read_fields i n) _ (read_fields-Post n t) λ fs u k. returns k

  read_klasses-Post :
      (n : ℕ) (s : S) → Post (λ ks t. All (λ k. All IsNamed k.fields) ks) (read_klasses i n s)
  unfolding read_klasses
  read_klasses-Post zero s = returns tt
  read_klasses-Post (suc n) s =
      Post-bind (read_klass i) _ (read_klass-Post s)
        λ c t h. Post-bind (read_klasses i n) _ (read_klasses-Post n t) λ cs u k. returns (h, k)

  read_store-Post : (n : ℕ) (s : S) → Post (λ r t. r.klass < n) (read_store i n s)
  unfolding read_store
  read_store-Post n s = Post-bind (read_tuple i 3) _ Post-any λ _ t _.
      Post-bind (read_raw i) _ Post-any λ _ t _. Post-bind (read_uint i) _ Post-any λ klass t _.
        Post-bind (read_uint i) _ Post-any
          λ _ t _. Post-if (leb n klass) _ _ t (λ e. throws) λ e. returns (klass_test klass n e)

  read_stores-Post :
      (n k : ℕ) (s : S) → Post (λ rs t. All (λ r. r.klass < n) rs) (read_stores i n k s)
  unfolding read_stores
  read_stores-Post n zero s = returns tt
  read_stores-Post n (suc k) s =
      Post-bind (read_store i n) _ (read_store-Post n s)
        λ c t h. Post-bind (read_stores i n k) _ (read_stores-Post n k t) λ cs u l. returns (h, l)

  -- Filling in the bytes keeps the classes of the stores and their number.
  abbrev Filled : ℕ → ℕ → List RtStore → Type 0
  Filled n m rs = All (λ r. r.klass < n) rs × (length rs ≡ m)

  read_groups-Post :
      (n : ℕ) (rs : List RtStore) (s : S)
      → All (λ r. r.klass < n) rs
      → Post (λ qs t. Filled n (length rs) qs) (read_groups i rs s)
  unfolding read_groups with_data
  read_groups-Post n [] s h = returns (tt, refl)
  read_groups-Post n (r ∷ rs) s (h, hs) = Post-bind (read_data i) _ Post-any λ bytes t _.
      Post-bind (read_groups i rs) _ (read_groups-Post n rs t hs)
        λ qs u (k, l). returns ((h, k), ap suc l)

  ensure-Post : (b : Bool) (s : S) → Post (λ _ t. b ≡ true) (ensure i b s)
  unfolding ensure
  ensure-Post true s = returns refl
  ensure-Post false s = throws

  or_exception-Post :
      {A : Type 0} (o : Option A) (s : S) → Post (λ a t. o ≡ some a) (or_reader_exception i o s)
  unfolding or_reader_exception
  or_exception-Post none s = throws
  or_exception-Post (some a) s = returns refl

  read_document-Post : (s : S) → Post (λ rt t. IsInBounds rt) (read_document i s)
  unfolding read_document
  read_document-Post s = Post-bind (read_version i) _ Post-any λ version s _.
      Post-bind (ensure i (version == wire_version)) _ Post-any λ _ s _.
        Post-bind (read_array_size i) _ Post-any λ nklasses s _.
          Post-bind (read_klasses i nklasses) _ (read_klasses-Post nklasses s) λ ks s names.
            Post-bind (or_reader_exception i (find_meta 0 ks)) _
              (or_exception-Post (find_meta 0 ks) s)
              λ doc s found. Post-bind (read_array_size i) _ Post-any λ nstores s _.
                Post-bind (read_stores i (length ks) nstores) _
                  (read_stores-Post (length ks) nstores s)
                  λ rs s below.
                    Post-bind (ensure i (point_below (length rs) ks)) _
                      (ensure-Post (point_below (length rs) ks) s)
                      λ _ s points. Post-bind (read_data i) _ Post-any λ bytes s _.
                        Post-bind (read_groups i rs) _ (read_groups-Post (length ks) rs s below)
                          λ qs s (k, l). returns (record {
                            names = names;
                            pointers =
                                subst (λ n. All (λ k. All (λ f. f.points_into ≤ n) k.fields) ks)
                                  (sym l) (point-le (length rs) ks points);
                            klasses = k;
                            document = omega (arith, find_meta-lt doc 0 ks found);
                          })

  read-Post :
      (s : S)
      → Post
          (λ o t. (rt : RtManager) → o ≡ some rt → IsInBounds rt)
          ((do rt ← read_document i; pure (some rt)) s)
  read-Post s =
      Post-bind (read_document i) _ (read_document-Post s)
        λ rt t h. returns (λ r e. let g : rt ≡ r = cc e in subst IsInBounds g h)

  -- Whatever the stream holds, a document that Reader::read returns has its pointers, its classes and its
  -- own class in bounds, and no field without a name.
  pub read-IsInBounds : (s t : S) (rt : RtManager) → read i s ≡ (ok (some rt), t) → IsInBounds rt
  unfolding read
  read-IsInBounds s t rt h = elim (Option-cases (i.peek s)) [
    | inl e ↦ absurd (cc (rw (e, read) at h))
    | inr (b, e) ↦ Post-ok (read-Post s) (rw (e, read) at h) rt refl
  ]
