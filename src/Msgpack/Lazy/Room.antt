-- ===== src/Msgpack/Lazy/Room.antt =====
-- read_lazy of src/lib/schwa/msgpack/wire_impl.h in bytes: what is left of the source and what the sink has.
use libschwa.Prelude.{
  ◌≤◌, ◌≡◌, ◌*◌, ◌%◌, ◌^◌, [], ◌∙◌, refl, ℕ, zero, suc, ◌+◌, ◌-◌, ap, Bool, true, false, Option,
  none, some, length, length-append, arith, inl, inr,
}
use libschwa.Exec.{Exec, pure, ◌>>=◌, ◌>>◌}
use libschwa.Io.Stream.{In, Out}
use libschwa.Io.Effects.{read_word, Writes-put, Writes-write}
use libschwa.Io.Budget.{
  Budget, whole, any, Holds, Less, Fits, free, owed, Fits-pure, Fits-raise, Fits-bind,
}
use libschwa.Msgpack.Enums.{
  WireType, array_16, array_32, map_16, map_32, raw_16, raw_32, float, double, uint_8, uint_16,
  uint_32, uint_64, int_8, int_16, int_32, int_64,
}
use libschwa.Msgpack.Endian.{be_value, be_bytes, length-be_bytes}
use libschwa.Msgpack.Table.{header_type}
use libschwa.Msgpack.Write.{write_be}
use libschwa.Msgpack.Read.{read_be}
use libschwa.Msgpack.Costs.{Takes, AtEnd, got, Takes-get, Takes-word, Takes-step, Grows}
use libschwa.Msgpack.Lazy.{
  Todo, done, recurse, raw, on_in, on_out, put_if, pass_byte, pass_bytes, pass_be, lazy_switch,
  repeat, raw_step, lazy_rest, lazy_value, read_lazy,
}

module _ {S : Type 0} {V : S → Type 0} (i : In S V) {T : Type 0} {W : T → Type 0}
    (o : Out T W) where
  abbrev pub AreValid : S × T → Type 0
  AreValid p = V p.0 × W p.1

  -- The bytes that are left to read and those that were written.
  abbrev pub both : S × T → ℕ
  both p = length (o.bytes p.1) + length (i.view p.0)

  abbrev pub NoneLeft : S × T → Type 0
  NoneLeft p = i.view p.0 ≡ []

  abbrev pub Stays : Budget → {A : Type 0} → (A → Budget) → Exec (S × T) A → Type 0
  Stays = Fits AreValid both NoneLeft

  -- What the source holds, beside what was written.
  Holds-beside :
      (w n m : ℕ) (at_end : Type 0) (b : Budget)
      → Holds (w + n) at_end m b
      → Holds n at_end (m - w) b × w ≤ m
  unfolding Holds
  Holds-beside w n m at_end (whole k) h = (omega (arith, h), omega (arith, h))
  Holds-beside w n m at_end (any k) (inl h) = (inl (omega (arith, h)), omega (arith, h))
  Holds-beside w n m at_end (any k) (inr h) = (inr (h.0, omega (arith, h.1)), omega (arith, h.1))

  Holds-both :
      (w n m : ℕ) (at_end : Type 0) (b : Budget)
      → w ≤ m
      → Holds n at_end (m - w) b
      → Holds (w + n) at_end m b
  unfolding Holds
  Holds-both w n m at_end (whole k) l h = omega (arith, l, h)
  Holds-both w n m at_end (any k) l (inl h) = inl (omega (arith, l, h))
  Holds-both w n m at_end (any k) l (inr h) = inr (h.0, omega (arith, l, h.1))

  pub Stays-in :
      {b : Budget} {A : Type 0} {due : A → Budget} {m : Exec S A}
      → Takes i b due m
      → Stays b due (on_in i o m)
  unfolding on_in
  Stays-in {b} {due = due} {m = m} t = record {
    at = λ n p h.
        let w = length (o.bytes p.1) in
        let (held, l) = Holds-beside w (length (i.view p.0)) n (NoneLeft p) b h.held in
        let r = t.at (n - w) p.0 (record { valid = h.valid.0; held = held }) in
        record {
          valid = (r.valid, h.valid.1);
          held =
              Holds-both w (length (i.view (m p.0).1)) n (AtEnd i (m p.0).1) (owed due (m p.0).0) l
                r.held;
        };
  }

  -- A step of the sink, with what is left of the budget.
  abbrev pub spent : Budget → Budget
  spent (whole k) = whole 0
  spent (any k) = any 0

  cost : Budget → ℕ
  unfolding Holds
  cost (whole k) = k
  cost (any k) = k

  Holds-spent :
      (w w' n m : ℕ) (at_end : Type 0) (b : Budget)
      → w' ≡ w + cost b
      → Holds (w + n) at_end m b
      → Holds (w' + n) at_end m (spent b)
  unfolding Holds cost
  Holds-spent w w' n m at_end (whole k) e h = omega (arith, e, h)
  Holds-spent w w' n m at_end (any k) e (inl h) = inl (omega (arith, e, h))
  Holds-spent w w' n m at_end (any k) e (inr h) = inr (h.0, omega (arith, e, h.1))

  Stays-spent :
      (b : Budget) {m : T → T} → Grows o m (cost b) → Stays b (λ _. spent b) (on_out i o m)
  unfolding on_out
  Stays-spent b {m} g = record {
    at = λ n p h. record {
      valid = (h.valid.0, g.writes.valid p.1 h.valid.1);
      held =
          Holds-spent (length (o.bytes p.1)) (length (o.bytes (m p.1))) (length (i.view p.0)) n
            (NoneLeft p) b
            (ap length (g.writes.grows p.1 h.valid.1)
              ∙ length-append (o.bytes p.1) g.wire
              ∙ ap (λ k. length (o.bytes p.1) + k) g.long)
            h.held;
    };
  }

  pub Stays-out : {k : ℕ} {m : T → T} → Grows o m k → Stays (any k) free (on_out i o m)
  unfolding cost
  Stays-out {k} g = Stays-spent (any k) g

  pub Stays-pure : {b : Budget} {A : Type 0} (a : A) → Stays b free (pure a)
  unfolding Less
  Stays-pure {b = whole k} a = Fits-pure AreValid both NoneLeft free a (omega arith)
  Stays-pure {b = any k} a = Fits-pure AreValid both NoneLeft free a (omega arith)

  pub Stays-bind :
      {b : Budget} {A B : Type 0} {due : A → Budget} {due' : B → Budget} {m : Exec (S × T) A}
      (f : A → Exec (S × T) B)
      → Stays b due m
      → ((a : A) → Stays (due a) due' (f a))
      → Stays b due' (m >>= f)
  Stays-bind f first next = Fits-bind AreValid both NoneLeft f first next

  -- A byte that came is put, and then the eight bytes are there.
  put : Option ℕ → Budget
  put none = any 0
  put (some h) = whole 0

  Stays-put_if : (h : Option ℕ) → Stays (got h) put (put_if i o h)
  unfolding put_if got put cost Less
  Stays-put_if none = Fits-pure AreValid both NoneLeft put none (omega arith)
  Stays-put_if (some b) =
      Stays-bind _
        (Stays-spent (whole 1) (record { wire = _; writes = Writes-put o b; long = refl }))
        λ _. Fits-pure AreValid both NoneLeft put (some b) (omega arith)

  Stays-pass_byte : Stays (any 0) put (pass_byte i o)
  unfolding pass_byte
  Stays-pass_byte = Stays-bind _ (Stays-in (Takes-get i)) Stays-put_if

  -- A buffer of at most eight bytes, all of which is written.
  Stays-pass_bytes : (n : ℕ) → n ≤ 8 → Stays (whole 0) free (pass_bytes i o n)
  unfolding pass_bytes
  Stays-pass_bytes n few =
      Stays-bind _ (Stays-in read)
        λ bs. Stays-out (record { wire = bs; writes = Writes-write o bs; long = refl })
    where
      read : Takes i (whole 0) (λ bs. any (length bs)) (read_word i n)
      read = Takes-step i n few

  Stays-pass_be : (n : ℕ) → n ≤ 8 → Stays (whole 0) free (pass_be i o n)
  unfolding pass_be write_be read_be
  Stays-pass_be n few =
      Stays-bind _ (Stays-in (Takes-word i n 0 be_value (λ w. n) few λ bs long bytes. omega arith))
        λ x.
          Stays-bind _
            (Stays-out (record {
              wire = be_bytes n x;
              writes = Writes-write o _;
              long = length-be_bytes n x;
            }))
            λ _. Stays-pure x

  Stays-passed : (n : ℕ) → n ≤ 8 → Stays (whole 0) free (do pass_bytes i o n; pure done)
  Stays-passed n few = Stays-bind _ (Stays-pass_bytes n few) λ a. Stays-pure done

  Stays-sized :
      (n : ℕ) (g : ℕ → Todo) → n ≤ 8 → Stays (whole 0) free (do s ← pass_be i o n; pure (g s))
  Stays-sized n g few = Stays-bind _ (Stays-pass_be n few) λ a. Stays-pure (g a)

  Stays-lazy_switch : (t : WireType) (h : ℕ) → Stays (whole 0) free (lazy_switch i o t h)
  unfolding lazy_switch
  Stays-lazy_switch int_8 h = Stays-passed 1 (omega arith)
  Stays-lazy_switch uint_8 h = Stays-passed 1 (omega arith)
  Stays-lazy_switch int_16 h = Stays-passed 2 (omega arith)
  Stays-lazy_switch uint_16 h = Stays-passed 2 (omega arith)
  Stays-lazy_switch float h = Stays-passed 4 (omega arith)
  Stays-lazy_switch int_32 h = Stays-passed 4 (omega arith)
  Stays-lazy_switch uint_32 h = Stays-passed 4 (omega arith)
  Stays-lazy_switch double h = Stays-passed 8 (omega arith)
  Stays-lazy_switch int_64 h = Stays-passed 8 (omega arith)
  Stays-lazy_switch uint_64 h = Stays-passed 8 (omega arith)
  Stays-lazy_switch array_16 h = Stays-sized 2 recurse (omega arith)
  Stays-lazy_switch array_32 h = Stays-sized 4 recurse (omega arith)
  Stays-lazy_switch map_16 h = Stays-sized 2 (λ s. recurse (2 * s)) (omega arith)
  Stays-lazy_switch map_32 h = Stays-sized 4 (λ s. recurse (s * 2 % 2 ^ 32)) (omega arith)
  Stays-lazy_switch raw_16 h = Stays-sized 2 raw (omega arith)
  Stays-lazy_switch raw_32 h = Stays-sized 4 raw (omega arith)
  Stays-lazy_switch _ h = Stays-pure _

  Stays-repeat :
      {step : Exec (S × T) Bool} (n : ℕ)
      → Stays (any 0) free step
      → Stays (any 0) free (repeat i o step n)
  unfolding repeat
  Stays-repeat zero c = Stays-pure true
  Stays-repeat (suc n) c =
      Stays-bind _ c (elim [ true ↦ Stays-repeat n c | false ↦ Stays-pure false ])

  Stays-raw_step : Stays (any 0) free (raw_step i o)
  unfolding raw_step
  Stays-raw_step =
      Stays-bind _ Stays-pass_byte (elim [ none ↦ Stays-pure false | some _ ↦ Stays-pure true ])

  Stays-lazy_rest :
      {step : Exec (S × T) Bool} (todo : Todo)
      → Stays (any 0) free step
      → Stays (any 0) free (lazy_rest i o step todo)
  unfolding lazy_rest
  Stays-lazy_rest done c = Stays-pure true
  Stays-lazy_rest (recurse n) c = Stays-repeat n c
  Stays-lazy_rest (raw n) c = Stays-repeat n Stays-raw_step

  Stays-lazy_value :
      {step : Exec (S × T) Bool} (h : Option ℕ)
      → Stays (any 0) free step
      → Stays (put h) free (lazy_value i o step h)
  unfolding lazy_value put
  Stays-lazy_value none c = Stays-pure false
  Stays-lazy_value (some h) c =
      Stays-bind _ (Stays-lazy_switch (header_type (some h)) h) λ todo. Stays-lazy_rest todo c

  -- read_lazy writes no more than it takes, and eight bytes more where it comes to the end of the input.
  pub Stays-read_lazy : (fuel : ℕ) → Stays (any 0) free (read_lazy i o fuel)
  unfolding read_lazy
  Stays-read_lazy zero = Fits-raise AreValid both NoneLeft free _
  Stays-read_lazy (suc fuel) =
      Stays-bind _ Stays-pass_byte λ h. Stays-lazy_value h (Stays-read_lazy fuel)
