-- ===== src/Msgpack/Lazy/Ends.antt =====
-- How much fuel read_lazy (src/lib/schwa/msgpack/wire_impl.h) needs.
use libschwa.Prelude.{
  ℕ, zero, suc, ◌≡◌, refl, sym, ap, subst, ◌∙◌, ◌≤◌, ◌<◌, ◌-◌, ◌≢◌, Bool, true, false, Option, none,
  some, List, arith, length, head?-drop, length-drop,
}
use libschwa.Exec.{out_of_fuel, Result, ok, err, Exec, pure, continue, ◌>>=◌}
use libschwa.Io.Stream.{In, Out}
use libschwa.Io.Effects.{get_byte, read_word}
use libschwa.Msgpack.Enums.{WireType, fixnum_positive}
use libschwa.Msgpack.Table.{header_type}
use libschwa.Msgpack.Write.{write_be}
use libschwa.Msgpack.Read.{read_be}
use libschwa.Msgpack.Lazy.{
  Todo, done, recurse, raw, on_in, on_out, put_if, pass_byte, pass_bytes, pass_be, lazy_switch,
  repeat, raw_step, lazy_rest, lazy_value, read_lazy,
}

-- Neither a value nor an error of the program's.
abbrev pub HasFuel : {A : Type 0} → Result A → Type 0
HasFuel (ok a) = Unit
HasFuel (err out_of_fuel) = ⊥
HasFuel (err _) = Unit

module _ {S : Type 0} {V : S → Type 0} (i : In S V) {T : Type 0} {W : T → Type 0}
    (o : Out T W) where
  -- At `p` no more than `k` bytes are left.
  pub record Left (k : ℕ) (p : S × T) : Type 0 where
    pub source_valid : V p.0
    pub sink_valid : W p.1
    pub left : length (i.view p.0) ≤ k

  -- Where no more than `k` bytes are left, `m` ends before its fuel does, and no more are left then.
  pub record Ends (k : ℕ) {A : Type 0} (m : Exec (S × T) A) : Type 0 where
    pub at : (p : S × T) → Left k p → HasFuel (m p).0 × Left k (m p).1

  Ends-pure : (k : ℕ) {A : Type 0} (a : A) → Ends k (pure a)
  Ends-pure k a = record { at = λ p l. (tt, l) }

  continue-Ends :
      (k : ℕ) {A B : Type 0} (f : A → Exec (S × T) B)
      → ((a : A) → Ends k (f a))
      → (r : Result A) (q : S × T) → HasFuel r
      → Left k q
      → HasFuel (continue r f q).0 × Left k (continue r f q).1
  continue-Ends k f cf (ok a) q h l = (cf a).at q l
  continue-Ends k f cf (err out_of_fuel) q h l = absurd h
  continue-Ends k f cf (err _) q h l = (tt, l)

  Ends-bind :
      (k : ℕ) {A B : Type 0} (m : Exec (S × T) A) (f : A → Exec (S × T) B)
      → Ends k m
      → ((a : A) → Ends k (f a))
      → Ends k (m >>= f)
  unfolding ◌>>=◌
  Ends-bind k m f cm cf = record {
    at = λ p l. continue-Ends k f cf (m p).0 (m p).1 (cm.at p l).0 (cm.at p l).1;
  }

  -- After `in.get()`, by what it returned.
  Left-get :
      (k : ℕ) (p : S × T)
      → Left k p
      → (m : ℕ) → length (i.view p.0) - 1 ≤ m
      → Left m ((i.get p.0).1, p.1)
  Left-get k p l m h = record {
    source_valid = i.get-IsValid p.0 l.source_valid;
    sink_valid = l.sink_valid;
    left = omega (arith, ap length (i.get_view p.0 l.source_valid), length-drop 1 (i.view p.0));
  }

  Left-put : (k : ℕ) (b : ℕ) (p : S × T) → Left k p → Left k (p.0, o.put b p.1)
  Left-put k b p l = record {
    source_valid = l.source_valid;
    sink_valid = o.put-IsValid b p.1 l.sink_valid;
    left = l.left;
  }

  Left-write : (k : ℕ) (bs : List ℕ) (p : S × T) → Left k p → Left k (p.0, o.write bs p.1)
  Left-write k bs p l = record {
    source_valid = l.source_valid;
    sink_valid = o.write-IsValid bs p.1 l.sink_valid;
    left = l.left;
  }

  Left-read : (k n : ℕ) (p : S × T) → Left k p → Left k ((i.read n p.0).1, p.1)
  Left-read k n p l = record {
    source_valid = i.read-IsValid n p.0 l.source_valid;
    sink_valid = l.sink_valid;
    left =
        omega
          (arith, ap length (i.read_view n p.0 l.source_valid), length-drop n (i.view p.0), l.left);
  }

  put_if-Ends : (k : ℕ) (h : Option ℕ) → Ends k (put_if i o h)
  unfolding put_if on_out ◌>>=◌
  put_if-Ends k none = Ends-pure k none
  put_if-Ends k (some b) = record { at = λ p l. (tt, Left-put k b p l) }

  Ends-pass_byte : (k : ℕ) → Ends k (pass_byte i o)
  unfolding pass_byte on_in get_byte ◌>>=◌
  Ends-pass_byte k = record {
    at = λ p l.
        (put_if-Ends k (i.get p.0).0).at ((i.get p.0).1, p.1)
          (Left-get k p l k (omega (arith, l.left)));
  }

  Ends-pass_bytes : (k n : ℕ) → Ends k (pass_bytes i o n)
  unfolding pass_bytes on_in read_word ◌>>=◌ on_out
  Ends-pass_bytes k n = record { at = λ p l. (tt, Left-write k _ _ (Left-read k n p l)) }

  Ends-pass_be : (k n : ℕ) → Ends k (pass_be i o n)
  unfolding pass_be on_in read_word ◌>>=◌ on_out read_be write_be
  Ends-pass_be k n = record { at = λ p l. (tt, Left-write k _ _ (Left-read k n p l)) }

  ruleset end_rules = (Ends-pure, Ends-bind, Ends-pass_byte, Ends-pass_bytes, Ends-pass_be)

  Ends-lazy_switch : (k : ℕ) (t : WireType) (h : ℕ) → Ends k (lazy_switch i o t h)
  unfolding lazy_switch
  Ends-lazy_switch k fixnum_positive h = search end_rules
  Ends-lazy_switch k _ h = search end_rules

  Ends-repeat :
      (k : ℕ) {step : Exec (S × T) Bool} (n : ℕ) → Ends k step → Ends k (repeat i o step n)
  unfolding repeat
  Ends-repeat k zero c = Ends-pure k true
  Ends-repeat k {step} (suc n) c =
      Ends-bind k step _ c (elim [ true ↦ Ends-repeat k n c | false ↦ Ends-pure k false ])

  Ends-raw_step : (k : ℕ) → Ends k (raw_step i o)
  unfolding raw_step
  Ends-raw_step k =
      Ends-bind k _ _ (Ends-pass_byte k)
        (elim [ none ↦ Ends-pure k false | some _ ↦ Ends-pure k true ])

  Ends-lazy_rest :
      (k : ℕ) {step : Exec (S × T) Bool} (todo : Todo)
      → Ends k step
      → Ends k (lazy_rest i o step todo)
  unfolding lazy_rest
  Ends-lazy_rest k done c = Ends-pure k true
  Ends-lazy_rest k (recurse n) c = Ends-repeat k n c
  Ends-lazy_rest k (raw n) c = Ends-repeat k n (Ends-raw_step k)

  Ends-lazy_value :
      (k : ℕ) {step : Exec (S × T) Bool} (h : Option ℕ)
      → (h ≢ none → Ends k step)
      → Ends k (lazy_value i o step h)
  unfolding lazy_value
  Ends-lazy_value k none c = Ends-pure k false
  Ends-lazy_value k (some h) c =
      Ends-bind k _ _ (Ends-lazy_switch k (header_type (some h)) h)
        λ todo. Ends-lazy_rest k todo (c (λ e. cc))

  Left-more : {k m : ℕ} {p : S × T} → k ≤ m → Left k p → Left m p
  Left-more h l = record {
    source_valid = l.source_valid;
    sink_valid = l.sink_valid;
    left = omega (arith, l.left);
  }

  -- A byte that came was one of those left.
  got_byte : (p : S × T) (b : ℕ) → V p.0 → (i.get p.0).0 ≡ some b → 0 < length (i.view p.0)
  got_byte p b v e =
      let whole = head?-drop (i.view p.0) b (sym (i.get_value p.0 v) ∙ e) in
      omega (arith, ap length whole)

  module _ (k fuel : ℕ) (inner : (m : ℕ) → m < k → Ends m (read_lazy i o fuel)) (p : S × T)
      (l : Left k p) where
    after_get :
        (h : Option ℕ)
        → (i.get p.0).0 ≡ h
        → HasFuel
            (continue
              (put_if i o h ((i.get p.0).1, p.1)).0
              (lazy_value i o (read_lazy i o fuel))
              (put_if i o h ((i.get p.0).1, p.1)).1).0
          × Left k
              (continue
                (put_if i o h ((i.get p.0).1, p.1)).0
                (lazy_value i o (read_lazy i o fuel))
                (put_if i o h ((i.get p.0).1, p.1)).1).1
    unfolding put_if on_out ◌>>=◌
    after_get none e =
        (Ends-lazy_value k none (λ x. absurd (x refl))).at _
          (Left-get k p l k (omega (arith, l.left)))
    after_get (some b) e =
        let some_left = got_byte p b l.source_valid e in
        let m : Left (k - 1) ((i.get p.0).1, p.1) =
          Left-get k p l (k - 1) (omega (arith, l.left)) in
        let (h, q) =
          (Ends-lazy_value (k - 1) (some b)
              (λ x. inner (k - 1) (omega (arith, l.left, some_left)))).at
            _ (Left-put (k - 1) b ((i.get p.0).1, p.1) m) in
        (h, Left-more (omega arith) q)

  Ends-read_lazy : (fuel k : ℕ) → k < fuel → Ends k (read_lazy i o fuel)
  unfolding read_lazy pass_byte on_in get_byte ◌>>=◌
  Ends-read_lazy zero k h = absurd (omega arith)
  Ends-read_lazy (suc fuel) k h = record {
    at = λ p l.
        after_get k fuel (λ m below. Ends-read_lazy fuel m (omega arith)) p l (i.get p.0).0 refl;
  }

  HasFuel-ne : {A : Type 0} (r : Result A) → HasFuel r → r ≢ err out_of_fuel
  HasFuel-ne r h e = subst HasFuel e h

  -- From a valid source and a valid sink, fuel for one level more than there are bytes left is
  -- enough: read_lazy ends.
  pub read_lazy-ends :
      (fuel : ℕ) (s : S) (t : T)
      → V s
      → W t
      → length (i.view s) < fuel
      → (read_lazy i o fuel (s, t)).0 ≢ err out_of_fuel
  read_lazy-ends fuel s t v w h =
      HasFuel-ne _
        ((Ends-read_lazy fuel (length (i.view s)) h).at (s, t)
          (record { source_valid = v; sink_valid = w; left = omega arith })).0
