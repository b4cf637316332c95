-- ===== src/Io/Effects.antt =====
-- What the wire functions of src/lib/schwa/msgpack/wire_impl.h do to a source and to a sink: rules that
-- put the bytes of a function together from the bytes of its parts, for any source and any sink.
use libschwa.Prelude.{
  ℕ, ◌≡◌, refl, sym, ap, ◌∙◌, Option, some, List, [], ◌∷◌, ◌++◌, append-nil, append_assoc, length,
  take, drop, head?, take-append, drop-append, ◌-◌, arith, length-append, length-take,
  take-append-drop, All, All-append, All-append_inv, IsByte, subst,
}
use libschwa.Exec.{ok, Exec, pure, ◌>>=◌}
use libschwa.Io.Stream.{In, Out}

module _ {S : Type 0} {V : S → Type 0} (i : In S V) where
  -- `in.get()` in a chain of steps.
  unfoldable pub get_byte : Exec S (Option ℕ)
  get_byte s = (ok (i.get s).0, (i.get s).1)

  -- `in.read(buf, n)` in a chain of steps.
  unfoldable pub read_bytes : ℕ → Exec S (List ℕ)
  read_bytes n s = (ok (i.read n s).0, (i.read n s).1)

  -- `in.read(buf, n)` and then the `n` bytes of `buf`, those that a short input left unwritten among them.
  unfoldable pub read_word : ℕ → Exec S (List ℕ)
  read_word n s =
      let bs = (i.read n s).0 in (ok (bs ++ i.unwritten (n - length bs) s), (i.read n s).1)

  pub word-length :
      (n : ℕ) (s : S)
      → V s
      → length ((i.read n s).0 ++ i.unwritten (n - length (i.read n s).0) s) ≡ n
  word-length n s v =
      let bs = (i.read n s).0 in
      omega (
        arith,
        length-append bs (i.unwritten (n - length bs) s),
        i.length-unwritten (n - length bs) s,
        ap length (i.read_value n s v),
        length-take n (i.view s),
      )

  pub word-IsByte :
      (n : ℕ) (s : S)
      → V s
      → All IsByte ((i.read n s).0 ++ i.unwritten (n - length (i.read n s).0) s)
  word-IsByte n s v =
      let bs = (i.read n s).0 in
      let whole = subst (All IsByte) (sym (take-append-drop n (i.view s))) (i.view-IsByte s v) in
      All-append IsByte bs (i.unwritten (n - length bs) s)
        (subst (All IsByte) (sym (i.read_value n s v))
          (All-append_inv IsByte (take n (i.view s)) (drop n (i.view s)) whole).0)
        (i.unwritten-IsByte (n - length bs) s)

  -- Where `bs` is next in the source, `m` takes just that and returns `a`.
  pub record Reads {A : Type 0} (m : Exec S A) (bs : List ℕ) (a : A) : Type 0 where
    pub at :
        (s : S) (rest : List ℕ)
        → V s
        → i.view s ≡ bs ++ rest
        → (s' : S) × (m s ≡ (ok a, s')) × V s' × (i.view s' ≡ rest)

  pub Reads-pure : {A : Type 0} (a : A) → Reads (pure a) [] a
  Reads-pure a = record { at = λ s rest v e. (s, refl, v, e) }

  pub Reads-get : (b : ℕ) → Reads get_byte (b ∷ []) (some b)
  unfolding get_byte
  Reads-get b = record {
    at = λ s rest v e.
        let c : (i.get s).0 ≡ some b = i.get_value s v ∙ ap head? e in
        ((i.get s).1, rw c, i.get-IsValid s v, i.get_view s v ∙ ap (λ t. drop 1 t) e);
  }

  pub Reads-read : (n : ℕ) (bs : List ℕ) → length bs ≡ n → Reads (read_bytes n) bs bs
  unfolding read_bytes
  Reads-read n bs h = record {
    at = λ s rest v e.
        let c : (i.read n s).0 ≡ bs =
          i.read_value n s v ∙ ap (λ t. take n t) e ∙ take-append n bs rest h in
        (
          (i.read n s).1,
          rw c,
          i.read-IsValid n s v,
          i.read_view n s v ∙ ap (λ t. drop n t) e ∙ drop-append n bs rest h,
        );
  }

  no_unwritten : (k : ℕ) (s : S) → k ≡ 0 → i.unwritten k s ≡ []
  no_unwritten k s e = empty _ (i.length-unwritten k s ∙ e)
    where
      empty : (bs : List ℕ) → length bs ≡ 0 → bs ≡ []
      empty [] h = refl
      empty (b ∷ bs) h = absurd (omega (arith, h))

  pub Reads-word : (n : ℕ) (bs : List ℕ) → length bs ≡ n → Reads (read_word n) bs bs
  unfolding read_word
  Reads-word n bs h = record {
    at = λ s rest v e.
        let c : (i.read n s).0 ≡ bs =
          i.read_value n s v ∙ ap (λ t. take n t) e ∙ take-append n bs rest h in
        let d = no_unwritten (n - length bs) s (omega (arith, h)) in
        (
          (i.read n s).1,
          rw (c, d, append-nil bs) refl,
          i.read-IsValid n s v,
          i.read_view n s v ∙ ap (λ t. drop n t) e ∙ drop-append n bs rest h,
        );
  }

  pub Reads-bind :
      {A B : Type 0} {m : Exec S A} (f : A → Exec S B) {bs cs : List ℕ} {a : A} {b : B}
      → Reads m bs a
      → Reads (f a) cs b
      → Reads (m >>= f) (bs ++ cs) b
  unfolding ◌>>=◌
  Reads-bind f {bs = bs} {cs = cs} first second = record {
    at = λ s rest v e.
        let (s', run, v', e') = first.at s (cs ++ rest) v (e ∙ append_assoc bs cs rest) in
        let (s'', run', v'', e'') = second.at s' rest v' e' in (s'', rw run run', v'', e'');
  }

module _ {S : Type 0} {V : S → Type 0} (o : Out S V) where
  -- `m` appends `bs`.
  pub record Writes (m : S → S) (bs : List ℕ) : Type 0 where
    pub valid : (s : S) → V s → V (m s)
    pub grows : (s : S) → V s → o.bytes (m s) ≡ o.bytes s ++ bs

  pub Writes-id : Writes (λ s. s) []
  Writes-id = record { valid = λ s v. v; grows = λ s v. sym (append-nil (o.bytes s)) }

  pub Writes-put : (b : ℕ) → Writes (o.put b) (b ∷ [])
  Writes-put b = record { valid = o.put-IsValid b; grows = o.put_bytes b }

  pub Writes-write : (bs : List ℕ) → Writes (o.write bs) bs
  Writes-write bs = record { valid = o.write-IsValid bs; grows = o.write_bytes bs }

  pub Writes-zerocopy : (bs : List ℕ) → Writes (o.write_zerocopy bs) bs
  Writes-zerocopy bs = record {
    valid = o.write_zerocopy-IsValid bs;
    grows = o.write_zerocopy_bytes bs;
  }

  pub Writes-then :
      {m n : S → S} {bs cs : List ℕ} → Writes m bs → Writes n cs → Writes (λ s. n (m s)) (bs ++ cs)
  Writes-then {m} {n} {bs} {cs} first second = record {
    valid = λ s v. second.valid (m s) (first.valid s v);
    grows = λ s v.
        second.grows (m s) (first.valid s v)
        ∙ ap (λ t. t ++ cs) (first.grows s v)
        ∙ append_assoc (o.bytes s) bs cs;
  }
