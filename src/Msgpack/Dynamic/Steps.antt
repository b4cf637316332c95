-- ===== src/Msgpack/Dynamic/Steps.antt =====
-- What the switch of read_dynamic (src/lib/schwa/msgpack/wire_impl.h) takes and leaves at each header.
use libschwa.Prelude.{
  ℕ, suc, ◌+◌, ◌≡◌, refl, sym, ap, subst, ◌∙◌, Option, some, List, [], ◌∷◌, ◌++◌, append-nil, head?,
  take, drop, length, take-append, drop-append,
}
use libschwa.Exec.{Exec, pure, ◌>>=◌}
use libschwa.Io.Stream.{In}
use libschwa.Io.Effects.{Reads, Reads-pure, Reads-bind}
use libschwa.Msgpack.Header
use libschwa.Msgpack.Endian.{be_bytes}
use libschwa.Msgpack.Enums.{WireType}
use libschwa.Msgpack.Table.{header_type}
use libschwa.Msgpack.Words.{Reads-be, Reads-header}
use libschwa.Msgpack.RoundTrip.{array_header, map_header, raw_header, and_low, and_low_raw}
use libschwa.Msgpack.Dynamic.{
  value, Via, Todo, items, entries, bytes, peek_byte, raw_bytes, dynamic_switch, dynamic_rest,
  dynamic_value, read_dynamic,
}
use libschwa.Msgpack.Dynamic.Format.{
  ArrayHead, array_head_fixed, array_head_16, array_head_32, MapHead, map_head_fixed, map_head_32,
  RawHead, raw_head_fixed, raw_head_16, raw_head_32,
}

module _ {S : Type 0} {V : S → Type 0} (i : In S V) where
  pub Reads-map :
      {A B : Type 0} {m : Exec S A} {bs : List ℕ} {a : A} (f : A → B)
      → Reads i m bs a
      → Reads i (m >>= λ x. pure (f x)) bs (f a)
  Reads-map {bs = bs} f r =
      rw (← append-nil bs) (Reads-bind i (λ x. pure (f x)) r (Reads-pure i (f _)))

  Reads-peek :
      {A : Type 0} (f : Option ℕ → Exec S A) (b : ℕ) {bs : List ℕ} {a : A}
      → Reads i (f (some b)) (b ∷ bs) a
      → Reads i (peek_byte i >>= f) (b ∷ bs) a
  unfolding peek_byte ◌>>=◌
  Reads-peek f b r = record {
    at = λ s rest v e.
        let p : i.peek s ≡ some b = i.peek_value s v ∙ ap head? e in
        let (s', run, v', e') = r.at s rest v e in (s', rw p run, v', e');
  }

  pub Reads-raw : (bs : List ℕ) → Reads i (raw_bytes i (length bs)) bs bs
  unfolding raw_bytes
  Reads-raw bs = record {
    at = λ s rest v e.
        let c : take (length bs) (i.view s) ≡ bs =
          ap (λ t. take (length bs) t) e ∙ take-append (length bs) bs rest refl in
        (
          i.ignore (length bs) s,
          rw c,
          i.ignore-IsValid (length bs) s v,
          i.ignore_view (length bs) s v
              ∙ ap (λ t. drop (length bs) t) e
              ∙ drop-append (length bs) bs rest refl,
        );
  }

  -- On a value that starts with `bs`, the switch takes them and leaves `todo`.
  pub record Switches (bs : List ℕ) (t : WireType) (todo : Todo) : Type 0 where
    pub first : ℕ
    pub later : List ℕ
    pub split : bs ≡ first ∷ later
    pub kind : header_type (some first) ≡ t
    pub reads : Reads i (dynamic_switch i t first) bs todo

  -- A value by its two parts, from its first byte on.
  Reads-parts :
      (d : ℕ) {bs cs : List ℕ} {t : WireType} {todo : Todo} {via : Via} (w : Switches bs t todo)
      → Reads i (dynamic_rest i (read_dynamic i d) todo) cs via
      → Reads i (dynamic_value i (read_dynamic i d) (some w.first)) (bs ++ cs) (some (value t via))
  unfolding dynamic_value
  Reads-parts d {t = t} w r =
      rw w.kind (Reads-bind i _ w.reads (Reads-map (λ via. some (value t via)) r))

  pub Reads-value :
      (d : ℕ) {bs cs : List ℕ} {t : WireType} {todo : Todo} {via : Via}
      → Switches bs t todo
      → Reads i (dynamic_rest i (read_dynamic i d) todo) cs via
      → Reads i (read_dynamic i (suc d)) (bs ++ cs) (some (value t via))
  unfolding read_dynamic
  Reads-value d {bs} {cs} {t} {todo} {via} w r =
      let P : List ℕ → Type 0 =
        λ xs. Reads i (read_dynamic i (suc d)) (xs ++ cs) (some (value t via)) in
      let Q : List ℕ → Type 0 = λ xs.
        Reads i (dynamic_value i (read_dynamic i d) (some w.first)) (xs ++ cs)
          (some (value t via)) in
      subst P (sym w.split) (
        Reads-peek (dynamic_value i (read_dynamic i d)) w.first
          (subst Q w.split (Reads-parts d w r)))

  -- The headers of the containers.
  pub ArrayHead-Switches :
      {n : ℕ} {hs : List ℕ} {t : WireType} → ArrayHead n hs t → Switches hs t (items n)
  unfolding dynamic_switch header_type
  ArrayHead-Switches (array_head_fixed n h) = record {
    first = 0x90 + n;
    later = [];
    split = refl;
    kind = array_header n h;
    reads = Reads-header i _ (0x90 + n) (rw ((and_low n h).0) (Reads-pure i (items n)));
  }
  ArrayHead-Switches (array_head_16 n h) = record {
    first = Header.array_16;
    later = be_bytes 2 n;
    split = refl;
    kind = refl;
    reads = Reads-header i _ Header.array_16 (Reads-map items (Reads-be i 2 n h));
  }
  ArrayHead-Switches (array_head_32 n h) = record {
    first = Header.array_32;
    later = be_bytes 4 n;
    split = refl;
    kind = refl;
    reads = Reads-header i _ Header.array_32 (Reads-map items (Reads-be i 4 n h));
  }

  pub MapHead-Switches :
      {n : ℕ} {hs : List ℕ} {t : WireType} → MapHead n hs t → Switches hs t (entries n)
  unfolding dynamic_switch header_type
  MapHead-Switches (map_head_fixed n h) = record {
    first = 0x80 + n;
    later = [];
    split = refl;
    kind = map_header n h;
    reads = Reads-header i _ (0x80 + n) (rw ((and_low n h).1) (Reads-pure i (entries n)));
  }
  MapHead-Switches (map_head_32 n h) = record {
    first = Header.map_32;
    later = be_bytes 4 n;
    split = refl;
    kind = refl;
    reads = Reads-header i _ Header.map_32 (Reads-map entries (Reads-be i 4 n h));
  }

  pub RawHead-Switches :
      {n : ℕ} {hs : List ℕ} {t : WireType} → RawHead n hs t → Switches hs t (bytes n)
  unfolding dynamic_switch header_type
  RawHead-Switches (raw_head_fixed n h) = record {
    first = 0xa0 + n;
    later = [];
    split = refl;
    kind = raw_header n h;
    reads = Reads-header i _ (0xa0 + n) (rw (and_low_raw n h) (Reads-pure i (bytes n)));
  }
  RawHead-Switches (raw_head_16 n h) = record {
    first = Header.raw_16;
    later = be_bytes 2 n;
    split = refl;
    kind = refl;
    reads = Reads-header i _ Header.raw_16 (Reads-map bytes (Reads-be i 2 n h));
  }
  RawHead-Switches (raw_head_32 n h) = record {
    first = Header.raw_32;
    later = be_bytes 4 n;
    split = refl;
    kind = refl;
    reads = Reads-header i _ Header.raw_32 (Reads-map bytes (Reads-be i 4 n h));
  }
