-- ===== src/Msgpack/Lazy/Loads.antt =====
-- read_lazy of src/lib/schwa/msgpack/wire_impl.h and the loops that use it, step by step: what is taken from the
-- source and appended to the sink.
use libschwa.Prelude.{ℕ, ◌≡◌, refl, sym, ap, subst, ◌∙◌, List, [], ◌++◌, append-nil, append_assoc}
use libschwa.Exec.{ok, Exec, pure, ◌>>=◌, ◌>>◌}
use libschwa.Io.Stream.{In, Out}
use libschwa.Io.Effects.{Reads, Writes}
use libschwa.Msgpack.Lazy.{on_in, on_out}

module _ {S : Type 0} {V : S → Type 0} (i : In S V) {T : Type 0} {W : T → Type 0}
    (o : Out T W) where
  -- What `m` leaves: `rest` of the source, and `lazy` behind what the writer had.
  pub record Left (p q : S × T) (rest lazy : List ℕ) : Type 0 where
    pub source_valid : V q.0
    pub sink_valid : W q.1
    pub left : i.view q.0 ≡ rest
    pub appended : o.bytes q.1 ≡ o.bytes p.1 ++ lazy

  -- Where `bs` is next in the source, `m` takes just that, appends `lazy` and returns `a`.
  pub record Loads {A : Type 0} (m : Exec (S × T) A) (bs lazy : List ℕ) (a : A) : Type 0 where
    pub at :
        (p : S × T) (rest : List ℕ)
        → V p.0
        → W p.1
        → i.view p.0 ≡ bs ++ rest
        → (q : S × T) × (m p ≡ (ok a, q)) × Left p q rest lazy

  pub Loads-pure : {A : Type 0} (a : A) → Loads (pure a) [] [] a
  Loads-pure a = record {
    at = λ p rest v w e. (
      p,
      refl,
      record {
        source_valid = v;
        sink_valid = w;
        left = e;
        appended = sym (append-nil (o.bytes p.1));
      },
    );
  }

  pub Loads-bind :
      {A B : Type 0} {m : Exec (S × T) A} (f : A → Exec (S × T) B) {bs cs xs ys : List ℕ} {a : A}
      {b : B}
      → Loads m bs xs a
      → Loads (f a) cs ys b
      → Loads (m >>= f) (bs ++ cs) (xs ++ ys) b
  unfolding ◌>>=◌
  Loads-bind f {bs} {cs} {xs} {ys} first second = record {
    at = λ p rest v w e.
        let (q, run, l) = first.at p (cs ++ rest) v w (e ∙ append_assoc bs cs rest) in
        let (r, run', l') = second.at q rest l.source_valid l.sink_valid l.left in
        (
          r,
          rw run run',
          record {
            source_valid = l'.source_valid;
            sink_valid = l'.sink_valid;
            left = l'.left;
            appended =
                l'.appended ∙ ap (λ t. t ++ ys) l.appended ∙ append_assoc (o.bytes p.1) xs ys;
          },
        );
  }

  pub Loads-in :
      {A : Type 0} {m : Exec S A} {bs : List ℕ} {a : A}
      → Reads i m bs a
      → Loads (on_in i o m) bs [] a
  unfolding on_in
  Loads-in r = record {
    at = λ p rest v w e.
        let (s, run, v', e') = r.at p.0 rest v e in
        (
          (s, p.1),
          rw run refl,
          record {
            source_valid = v';
            sink_valid = w;
            left = e';
            appended = sym (append-nil (o.bytes p.1));
          },
        );
  }

  pub Loads-out : {m : T → T} {bs : List ℕ} → Writes o m bs → Loads (on_out i o m) [] bs tt
  unfolding on_out
  Loads-out {m} w = record {
    at = λ p rest v k e. (
      (p.0, m p.1),
      refl,
      record { source_valid = v; sink_valid = w.valid p.1 k; left = e; appended = w.grows p.1 k },
    );
  }

  -- A last step that does nothing but give a result.
  pub Loads-end :
      {A B : Type 0} {m : Exec (S × T) A} (f : A → Exec (S × T) B) {bs xs : List ℕ} {a : A} {b : B}
      → Loads m bs xs a
      → Loads (f a) [] [] b
      → Loads (m >>= f) bs xs b
  Loads-end f {bs} {xs} {b = b} first last =
      rw (← append-nil bs, ← append-nil xs) (Loads-bind f first last)

  pub Loads-then :
      {A B : Type 0} {m : Exec (S × T) A} {n : Exec (S × T) B} {bs cs xs ys : List ℕ} {a : A}
      {b : B}
      → Loads m bs xs a
      → Loads n cs ys b
      → Loads (m >> n) (bs ++ cs) (xs ++ ys) b
  Loads-then {n} first second = Loads-bind (λ _. n) first second

  -- A step that only takes, and one that only appends.
  pub Loads-across :
      {A B : Type 0} {m : Exec (S × T) A} (f : A → Exec (S × T) B) {bs xs : List ℕ} {a : A} {b : B}
      → Loads m bs [] a
      → Loads (f a) [] xs b
      → Loads (m >>= f) bs xs b
  Loads-across {m = m} f {bs} {xs} {b = b} first last =
      subst (λ cs. Loads (m >>= f) cs xs b) (append-nil bs) (Loads-bind f first last)
