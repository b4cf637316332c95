-- ===== src/Msgpack/Lazy/Copies.antt =====
-- What read_lazy (src/lib/schwa/msgpack/wire_impl.h) takes, beside what it writes.
use libschwa.Prelude.{
  ℕ, ◌≡◌, refl, sym, ap, ap₂, ◌∙◌, Option, none, some, List, [], ◌∷◌, ◌++◌, append-nil,
  append_assoc, length, drop, ◌-◌, ◌⊎◌, min, leb, arith, length-take, take-append-drop, head?-drop,
  head?-none, Bool-cases, inl, inr, subst,
}
use libschwa.Exec.{Error, Result, ok, err, Exec, pure, raise, continue, ◌>>=◌}
use libschwa.Io.Stream.{In, Out}
use libschwa.Io.Effects.{get_byte, read_word, word-length, word-IsByte}
use libschwa.Msgpack.Endian.{be_value, be_bytes, be_bytes-be_value}
use libschwa.Msgpack.Costs.{drop-end}
use libschwa.Msgpack.Write.{write_be}
use libschwa.Msgpack.Read.{read_be}
use libschwa.Msgpack.Lazy.{on_in, on_out, put_if, pass_byte, pass_bytes, pass_be}

module _ {S : Type 0} {V : S → Type 0} (i : In S V) {T : Type 0} {W : T → Type 0}
    (o : Out T W) where
  -- From `p` to `q` the bytes `moved` went from the source to the sink. Behind them the sink got `spilled`, which
  -- is nothing as long as the source is not at its end.
  pub record Moved (p q : S × T) : Type 0 where
    pub moved : List ℕ
    pub spilled : List ℕ
    pub source_valid : V q.0
    pub sink_valid : W q.1
    pub taken : i.view p.0 ≡ moved ++ i.view q.0
    pub written : o.bytes q.1 ≡ o.bytes p.1 ++ (moved ++ spilled)
    pub at_end : (spilled ≡ []) ⊎ (i.view q.0 ≡ [])

  Moved-here : (p : S × T) → V p.0 → W p.1 → Moved p p
  Moved-here p v w = record {
    moved = [];
    spilled = [];
    at_end = inl refl;
    source_valid = v;
    sink_valid = w;
    taken = refl;
    written = sym (append-nil (o.bytes p.1));
  }

  nothing_left : (xs ys : List ℕ) → [] ≡ xs ++ ys → (xs ≡ []) × (ys ≡ [])
  nothing_left [] ys e = (refl, sym e)
  nothing_left (x ∷ xs) ys e = absurd (omega (arith, ap length e))

  swapped :
      (ws xs ys zs : List ℕ)
      → (xs ≡ []) ⊎ (ys ≡ [])
      → (ws ++ xs) ++ (ys ++ zs) ≡ (ws ++ ys) ++ (xs ++ zs)
  swapped ws xs ys zs (inl e) = rw (e, append-nil ws) (sym (append_assoc ws ys zs))
  swapped ws xs ys zs (inr e) = rw (e, append-nil ws) (append_assoc ws xs zs)

  Moved-trans : {p q r : S × T} → Moved p q → Moved q r → Moved p r
  Moved-trans {p} {q} {r} m n =
      let over : (m.spilled ≡ []) ⊎ (n.moved ≡ []) = elim m.at_end [
        | inl e ↦ inl e
        | inr e ↦ inr (nothing_left n.moved (i.view r.0) (sym e ∙ n.taken)).0
      ] in
      record {
        moved = m.moved ++ n.moved;
        spilled = m.spilled ++ n.spilled;
        source_valid = n.source_valid;
        sink_valid = n.sink_valid;
        taken =
            m.taken
            ∙ ap (λ t. m.moved ++ t) n.taken
            ∙ sym (append_assoc m.moved n.moved (i.view r.0));
        written =
            n.written
            ∙ ap (λ t. t ++ (n.moved ++ n.spilled)) m.written
            ∙ append_assoc (o.bytes p.1) (m.moved ++ m.spilled) (n.moved ++ n.spilled)
            ∙ ap (λ t. o.bytes p.1 ++ t) (swapped m.moved m.spilled n.moved n.spilled over);
        at_end = elim m.at_end [
          | inl e ↦ elim n.at_end [ inl f ↦ inl (rw (e, f) refl) | inr f ↦ inr f ]
          | inr e ↦ inr (nothing_left n.moved (i.view r.0) (sym e ∙ n.taken)).1
        ];
      }

  -- Where `m` returns, whatever it returns, it has moved bytes and done nothing else.
  pub record Copies {A : Type 0} (m : Exec (S × T) A) : Type 0 where
    pub at : (p : S × T) → V p.0 → W p.1 → (a : A) (q : S × T) → m p ≡ (ok a, q) → Moved p q

  pub Copies-pure : {A : Type 0} (a : A) → Copies (pure a)
  Copies-pure a = record {
    at = λ p v w b q e. subst (Moved p) (ap (λ t. t.1) e) (Moved-here p v w);
  }

  pub Copies-raise : {A : Type 0} (e : Error) → Copies (raise {A = A} e)
  Copies-raise e = record { at = λ p v w b q h. cc (ap (λ t. t.0) h) }

  continue-Moved :
      {A B : Type 0} (f : A → Exec (S × T) B)
      → ((a : A) → Copies (f a))
      → (p : S × T) (r : Result A) (p' : S × T) → ((a : A) → r ≡ ok a → Moved p p')
      → (b : B) (q : S × T) → continue r f p' ≡ (ok b, q)
      → Moved p q
  continue-Moved f cf p (ok a) p' m b q e =
      let h = m a refl in Moved-trans h ((cf a).at p' h.source_valid h.sink_valid b q e)
  continue-Moved f cf p (err x) p' m b q e = cc (ap (λ t. t.0) e)

  pub Copies-bind :
      {A B : Type 0} (m : Exec (S × T) A) (f : A → Exec (S × T) B)
      → Copies m
      → ((a : A) → Copies (f a))
      → Copies (m >>= f)
  unfolding ◌>>=◌
  Copies-bind m f cm cf = record {
    at = λ p v w b q e.
        continue-Moved f cf p (m p).0 (m p).1 (λ a h. cm.at p v w a (m p).1 (λ j. (h j, (m p).1))) b
          q e;
  }

  Moved-get : (p : S × T) → V p.0 → W p.1 → (i.get p.0).0 ≡ none → Moved p ((i.get p.0).1, p.1)
  Moved-get p v w c =
      let empty = head?-none (i.view p.0) (sym (i.get_value p.0 v) ∙ c) in
      record {
        moved = [];
        spilled = [];
        at_end = inl refl;
        source_valid = i.get-IsValid p.0 v;
        sink_valid = w;
        taken = empty ∙ sym (i.get_view p.0 v ∙ ap (drop 1) empty);
        written = sym (append-nil (o.bytes p.1));
      }

  Moved-get_put :
      (p : S × T) (b : ℕ)
      → V p.0
      → W p.1
      → (i.get p.0).0 ≡ some b
      → Moved p ((i.get p.0).1, o.put b p.1)
  Moved-get_put p b v w c = record {
    moved = b ∷ [];
    spilled = [];
    at_end = inl refl;
    source_valid = i.get-IsValid p.0 v;
    sink_valid = o.put-IsValid b p.1 w;
    taken =
        head?-drop (i.view p.0) b (sym (i.get_value p.0 v) ∙ c)
        ∙ ap (λ t. b ∷ t) (sym (i.get_view p.0 v));
    written = o.put_bytes b p.1 w;
  }

  nothing : (bs : List ℕ) → length bs ≡ 0 → bs ≡ []
  nothing [] e = refl
  nothing (b ∷ bs) e = absurd (omega (arith, e))

  -- A buffer that is read and written: what it had before is spilled, and that only at the end of the input.
  Moved-word :
      (p : S × T) (n : ℕ) (bs : List ℕ)
      → V p.0
      → W p.1
      → bs ≡ (i.read n p.0).0 ++ i.unwritten (n - length (i.read n p.0).0) p.0
      → Moved p ((i.read n p.0).1, o.write bs p.1)
  Moved-word p n bs v w c =
      let got = (i.read n p.0).0 in
      let long : length got ≡ min n (length (i.view p.0)) =
        ap length (i.read_value n p.0 v) ∙ length-take n (i.view p.0) in
      record {
        moved = got;
        spilled = i.unwritten (n - length got) p.0;
        source_valid = i.read-IsValid n p.0 v;
        sink_valid = o.write-IsValid bs p.1 w;
        taken =
            sym (take-append-drop n (i.view p.0))
            ∙ ap₂ (λ s t. s ++ t) (sym (i.read_value n p.0 v)) (sym (i.read_view n p.0 v));
        written = o.write_bytes bs p.1 w ∙ ap (λ t. o.bytes p.1 ++ t) c;
        at_end = elim (Bool-cases (leb n (length (i.view p.0)))) [
          | inl t ↦ inl (nothing _ (i.length-unwritten (n - length got) p.0 ∙ ground (arith, long)))
          | inr t ↦ inr (i.read_view n p.0 v ∙ drop-end n (i.view p.0) (ground arith))
        ];
      }

  put_if-Moved :
      (p : S × T)
      → V p.0
      → W p.1
      → (h a : Option ℕ) (q : S × T) → (i.get p.0).0 ≡ h
      → put_if i o h ((i.get p.0).1, p.1) ≡ (ok a, q)
      → Moved p q
  unfolding put_if on_out ◌>>=◌
  put_if-Moved p v w none a q c e = subst (Moved p) (ap (λ t. t.1) e) (Moved-get p v w c)
  put_if-Moved p v w (some b) a q c e = subst (Moved p) (ap (λ t. t.1) e) (Moved-get_put p b v w c)

  -- A byte that came is put; EOF moves nothing.
  pub Copies-pass_byte : Copies (pass_byte i o)
  unfolding pass_byte on_in get_byte ◌>>=◌
  Copies-pass_byte = record { at = λ p v w a q e. put_if-Moved p v w (i.get p.0).0 a q refl e }

  pub Copies-pass_bytes : (n : ℕ) → Copies (pass_bytes i o n)
  unfolding pass_bytes on_in read_word ◌>>=◌ on_out
  Copies-pass_bytes n = record {
    at = λ p v w a q e. subst (Moved p) (ap (λ t. t.1) e) (Moved-word p n _ v w refl);
  }

  -- A word is written as the bytes that it was read from.
  same_word :
      (p : S × T) (n : ℕ)
      → V p.0
      → be_bytes n (be_value ((i.read n p.0).0 ++ i.unwritten (n - length (i.read n p.0).0) p.0))
        ≡ (i.read n p.0).0 ++ i.unwritten (n - length (i.read n p.0).0) p.0
  same_word p n v =
      let bs = (i.read n p.0).0 ++ i.unwritten (n - length (i.read n p.0).0) p.0 in
      ap (λ k. be_bytes k (be_value bs)) (sym (word-length i n p.0 v))
      ∙ be_bytes-be_value bs (word-IsByte i n p.0 v)

  pub Copies-pass_be : (n : ℕ) → Copies (pass_be i o n)
  unfolding pass_be on_in read_word ◌>>=◌ on_out read_be write_be
  Copies-pass_be n = record {
    at = λ p v w a q e. subst (Moved p) (ap (λ t. t.1) e) (Moved-word p n _ v w (same_word p n v));
  }

  ruleset copy_rules =
      (Copies-pure, Copies-raise, Copies-bind, Copies-pass_byte, Copies-pass_bytes, Copies-pass_be)
