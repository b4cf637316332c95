-- ===== src/Msgpack/Dynamic/Ends.antt =====
-- How much fuel read_dynamic (src/lib/schwa/msgpack/wire_impl.h) needs.
use libschwa.Prelude.{
  ℕ, zero, suc, ◌≡◌, sym, ap, subst, ◌∙◌, ◌<◌, ◌-◌, ◌≢◌, Option, some, arith, length, head?-drop,
  inl, inr, Option-cases,
}
use libschwa.Exec.{out_of_fuel, err, Exec, pure, ◌>>=◌, ◌>>◌}
use libschwa.Io.Stream.{In}
use libschwa.Io.Effects.{get_byte}
use libschwa.Msgpack.Enums.{
  WireType, fixnum_positive, fixnum_negative, map_16, map_32, array_16, array_32, raw_16, raw_32,
  nil, bool_true, bool_false, float, double, uint_8, uint_16, uint_32, uint_64, int_8, int_16,
  int_32, int_64,
}
use libschwa.Msgpack.Table.{header_type}
use libschwa.Msgpack.Read.{
  read_be, read_nil, read_bool, read_uint, read_int, read_float, read_double,
}
use libschwa.Msgpack.Lazy.Ends.{HasFuel}
use libschwa.Msgpack.Dynamic.{
  Value, Todo, done, items, entries, bytes, peek_byte, raw_bytes, dynamic_switch, read_items,
  read_entries, dynamic_rest, dynamic_value, read_dynamic,
}
use libschwa.Msgpack.Dynamic.Takes.{
  Ends, Left-more, Ends-pure, Ends-bind, Ends-get, Ends-weaken, Ends-be, Ends-word, Ends-raw_bytes,
  Ends-nil, Ends-bool, Ends-float, Ends-double, Ends-uint, Ends-int,
}

module _ {S : Type 0} {V : S → Type 0} (i : In S V) where
  Ends-of :
      (k : ℕ) {A B : Type 0} (m : Exec S A) (g : A → B)
      → Ends i k (k - 1) m
      → Ends i k (k - 1) (do x ← m; pure (g x))
  Ends-of k m g e = Ends-bind i k (k - 1) m _ e λ x. Ends-pure i (k - 1) (g x)

  -- A size in a word after the header.
  Ends-size :
      (k n : ℕ) {B : Type 0} (g : ℕ → B)
      → Ends i k (k - 1) (do get_byte i; w ← read_be i n; pure (g w))
  Ends-size k n g = Ends-bind i k (k - 1) (get_byte i) _ (Ends-get i k) λ _.
      Ends-bind i (k - 1) (k - 1) (read_be i n) _ (Ends-word i (k - 1) n)
        λ w. Ends-pure i (k - 1) (g w)

  Ends-switch : (k : ℕ) (t : WireType) (h : ℕ) → Ends i k (k - 1) (dynamic_switch i t h)
  unfolding dynamic_switch
  Ends-switch k nil h = Ends-of k (read_nil i) _ (Ends-nil i k)
  Ends-switch k bool_true h = Ends-of k (read_bool i) _ (Ends-bool i k)
  Ends-switch k bool_false h = Ends-of k (read_bool i) _ (Ends-bool i k)
  Ends-switch k fixnum_positive h = Ends-of k (read_uint i) _ (Ends-uint i k)
  Ends-switch k uint_8 h = Ends-of k (read_uint i) _ (Ends-uint i k)
  Ends-switch k uint_16 h = Ends-of k (read_uint i) _ (Ends-uint i k)
  Ends-switch k uint_32 h = Ends-of k (read_uint i) _ (Ends-uint i k)
  Ends-switch k uint_64 h = Ends-of k (read_uint i) _ (Ends-uint i k)
  Ends-switch k fixnum_negative h = Ends-of k (read_int i) _ (Ends-int i k)
  Ends-switch k int_8 h = Ends-of k (read_int i) _ (Ends-int i k)
  Ends-switch k int_16 h = Ends-of k (read_int i) _ (Ends-int i k)
  Ends-switch k int_32 h = Ends-of k (read_int i) _ (Ends-int i k)
  Ends-switch k int_64 h = Ends-of k (read_int i) _ (Ends-int i k)
  Ends-switch k float h = Ends-of k (read_float i) _ (Ends-float i k)
  Ends-switch k double h = Ends-of k (read_double i) _ (Ends-double i k)
  Ends-switch k array_16 h = Ends-size k 2 _
  Ends-switch k array_32 h = Ends-size k 4 _
  Ends-switch k map_16 h =
      Ends-of k (read_be i 2) _
        (Ends-weaken i k (k - 2) (k - 1) (read_be i 2) (omega arith) (Ends-be i k 2))
  Ends-switch k map_32 h = Ends-size k 4 _
  Ends-switch k raw_16 h = Ends-size k 2 _
  Ends-switch k raw_32 h = Ends-size k 4 _
  Ends-switch k _ h = Ends-of k (get_byte i) _ (Ends-get i k)

  module _ (k : ℕ) (read : Exec S (Option Value)) (read_Ends : Ends i k k read) where
    Ends-items : (n : ℕ) → Ends i k k (read_items i read n)
    unfolding read_items
    Ends-items zero = Ends-pure i k _
    Ends-items (suc n) =
        Ends-bind i k k read _ read_Ends
          λ v. Ends-bind i k k (read_items i read n) _ (Ends-items n) λ vs. Ends-pure i k _

    Ends-entries : (n : ℕ) → Ends i k k (read_entries i read n)
    unfolding read_entries
    Ends-entries zero = Ends-pure i k _
    Ends-entries (suc n) = Ends-bind i k k read _ read_Ends λ key.
        Ends-bind i k k read _ read_Ends
          λ v. Ends-bind i k k (read_entries i read n) _ (Ends-entries n) λ kvs. Ends-pure i k _

    Ends-rest : (todo : Todo) → Ends i k k (dynamic_rest i read todo)
    unfolding dynamic_rest
    Ends-rest (done via) = Ends-pure i k via
    Ends-rest (items n) =
        Ends-bind i k k (read_items i read n) _ (Ends-items n) λ vs. Ends-pure i k _
    Ends-rest (entries n) =
        Ends-bind i k k (read_entries i read n) _ (Ends-entries n) λ kvs. Ends-pure i k _
    Ends-rest (bytes n) =
        Ends-bind i k k (raw_bytes i n) _ (Ends-raw_bytes i k n) λ bs. Ends-pure i k _

  Ends-value :
      (k : ℕ) (read : Exec S (Option Value)) (h : ℕ)
      → Ends i (k - 1) (k - 1) read
      → Ends i k (k - 1) (dynamic_value i read (some h))
  unfolding dynamic_value
  Ends-value k read h e =
      Ends-bind i k (k - 1) (dynamic_switch i (header_type (some h)) h) _
        (Ends-switch k (header_type (some h)) h)
        λ todo.
          Ends-bind i (k - 1) (k - 1) (dynamic_rest i read todo) _ (Ends-rest (k - 1) read e todo)
            λ via. Ends-pure i (k - 1) _

  -- A byte that is peeked at is one of those left.
  peeked : (s : S) (b : ℕ) → V s → i.peek s ≡ some b → 0 < length (i.view s)
  peeked s b v e =
      let whole = head?-drop (i.view s) b (sym (i.peek_value s v) ∙ e) in
      omega (arith, ap length whole)

  Ends-read_dynamic : (fuel k : ℕ) → k < fuel → Ends i k k (read_dynamic i fuel)
  unfolding read_dynamic peek_byte dynamic_value ◌>>=◌
  Ends-read_dynamic zero k h = absurd (omega arith)
  Ends-read_dynamic (suc fuel) k h = record {
    at = λ s x. elim (Option-cases (i.peek s)) [
      | inl e ↦ rw (e, dynamic_value) (tt, x)
      | inr (b, e) ↦
          let m = peeked s b x.valid e in
          let r =
            (Ends-value k (read_dynamic i fuel) b
                (Ends-read_dynamic fuel (k - 1) (omega (arith, m, x.left)))).at
              s x in
          rw e (r.0, Left-more i (omega arith) r.1)
    ];
  }

  -- From a valid source, fuel for one level more than there are bytes left is enough: read_dynamic ends,
  -- whatever the bytes are.
  pub read_dynamic-ends :
      (fuel : ℕ) (s : S)
      → V s
      → length (i.view s) < fuel
      → (read_dynamic i fuel s).0 ≢ err out_of_fuel
  read_dynamic-ends fuel s v h e =
      subst HasFuel e
        ((Ends-read_dynamic fuel (length (i.view s)) h).at s
          (record { valid = v; left = omega arith })).0
