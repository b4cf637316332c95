-- ===== src/Fields/RoundTrip.antt =====
-- What write_field of src/lib/schwa/dr/field_defs_impl.h writes, read_field reads back (wire.h).
use libschwa.Prelude.{
  ℕ, ◌+◌, ◌-◌, ◌%◌, ◌^◌, ◌<◌, ◌≤◌, ◌≡◌, refl, ap, ◌∙◌, some, List, [], ◌∷◌, length, All, arith,
}
use native.Mathlib.Nat.{mod-eq_of_lt, mod-add-mod, add-mod_right}
use libschwa.Prelude.Int.{IsSigned, of_word-to_word}
use libschwa.Exec.{ok, pure, ◌>>=◌}
use libschwa.Io.Stream.{In, Out}
use libschwa.Unicode.Utf8.{to_utf8}
use libschwa.Msgpack.Write.{write_uint, write_array_size}
use libschwa.Msgpack.Read.{read_uint}
use libschwa.Msgpack.Text.{Trip-text, write_utf8}
use libschwa.Msgpack.RoundTrip.{
  IsNegativeFixnum, read_uint-write_uint, read_int-write_int, read_bool-write_bool,
  read_float-write_float, read_double-write_double, read_raw-write_raw,
  read_array_size-write_array_size,
}
use libschwa.Fields.Stores.{IStore}
use libschwa.Fields.Passes.{act, Passes, Passes-pure, Passes-act, Passes-then, Passes-end}
use libschwa.Fields.Values
use libschwa.Fields.Values.{
  Kind, Value, bool_value, number, signed, text, address, addresses, range, address_range,
  should_write, index_of, at_index, or_undefined, minus, plus, write_pointers, write_value,
  write_field, read_pointers, read_pair, read_value,
}

-- The address is that of an annotation of the store.
pub record IsStored (store : IStore) (ptr : ℕ) : Type 0 where
  pub index : ℕ
  pub index_fits : index < 2 ^ 64
  pub stored : store.at_index index ≡ some ptr

-- The value is one of the kind, it fits its width and the lengths of the format, and its pointers are to
-- annotations of the store. A negative fixnum is not one, since it is not read back.
abbrev pub IsFit : IStore → Kind → Value → Type 0
IsFit store Values.bool (bool_value b) = Unit {0}
IsFit store (Values.uint w) (number n) = n < 2 ^ w × 2 ^ w ≤ 2 ^ 64
IsFit store (Values.int w) (signed z) =
    IsSigned (2 ^ (w - 1)) z × IsSigned (2 ^ 63) z × ¬ (IsNegativeFixnum z)
IsFit store Values.float (number n) = n < 2 ^ 32
IsFit store Values.double (number n) = n < 2 ^ 64
IsFit store Values.string (text cs) = length cs < 2 ^ 32
IsFit store Values.unicode (text cs) =
    All (λ c. c < 0x200000) cs × (utf8 : List ℕ) × (to_utf8 cs ≡ ok utf8) × length utf8 < 2 ^ 32
IsFit store Values.pointer (address (some p)) = IsStored store p
IsFit store Values.pointers (addresses ps) = length ps < 2 ^ 32 × All (IsStored store) ps
IsFit store (Values.slice w) (range start stop) = start < 2 ^ w × stop < 2 ^ w × 2 ^ w ≤ 2 ^ 64
IsFit store Values.pointer_slice (address_range (some start) (some stop)) =
    IsStored store start × IsStored store stop
IsFit store _ _ = ⊥

plus-minus : (w a b : ℕ) → a < 2 ^ w → b < 2 ^ w → plus w (minus w b a) a ≡ b
unfolding plus minus
plus-minus w a b h k =
    let e : b + (2 ^ w - a) + a ≡ b + 2 ^ w = omega (arith, h) in
    mod-add-mod (b + (2 ^ w - a)) (2 ^ w) a
    ∙ ap (λ t. t % 2 ^ w) e
    ∙ add-mod_right b (2 ^ w)
    ∙ mod-eq_of_lt k

plus_from : (w a b : ℕ) → a < 2 ^ w → b < 2 ^ w → plus w a (minus w b a) ≡ b
unfolding plus minus
plus_from w a b h k =
    let e : a + minus w b a ≡ minus w b a + a = omega arith in
    ap (λ t. t % 2 ^ w) e ∙ plus-minus w a b h k

minus-lt : (w a b : ℕ) → a < 2 ^ w → minus w b a < 2 ^ w
unfolding minus
minus-lt w a b h = omega (arith, h)

module _ {T : Type 0} {W : T → Type 0} (o : Out T W) {S : Type 0} {V : S → Type 0} (i : In S V)
    (store : IStore) where
  Passes-uint : (n : ℕ) → n < 2 ^ 64 → Passes o i (act (write_uint o n)) (read_uint i) tt n
  Passes-uint n h = Passes-act o i (read_uint-write_uint o i n h)

  stored_lem : (p : ℕ) (h : IsStored store p) → store.index_of p ≡ some h.index
  stored_lem p h = store.index_of-at_index h.index p h.stored

  Passes-pointers :
      (ps : List ℕ)
      → All (IsStored store) ps
      → Passes o i (write_pointers o store ps) (read_pointers i store (length ps)) tt ps
  unfolding write_pointers read_pointers index_of at_index or_undefined ◌>>=◌
  Passes-pointers [] h = Passes-pure o i tt []
  Passes-pointers (p ∷ ps) (h, hs) = rw (stored_lem p h) (
      Passes-then o i {n = write_pointers o store ps}
        (λ offset. do
          q ← at_index store offset
          qs ← read_pointers i store (length ps)
          pure (q ∷ qs))
        (Passes-uint h.index h.index_fits)
        (rw h.stored (Passes-end o i _ (Passes-pointers ps hs) λ s. refl)))

  Passes-pair : Passes o i (act (write_array_size o 2)) (read_pair i store) tt tt
  unfolding read_pair ◌>>=◌
  Passes-pair =
      Passes-end o i _ (Passes-act o i (read_array_size-write_array_size o i 2 (omega arith)))
        λ s. refl

  -- A value of the type of its field, which fits its width and the lengths of the format, is no negative fixnum
  -- and has its pointers, not null, to annotations of the store, is written with no throw, and where those bytes
  -- come next, read_value takes just them and returns the same value, with pointers to the same annotations.
  pub read_value-write_value :
      (kind : Kind) (v : Value)
      → IsFit store kind v
      → Passes o i (write_value o store kind v) (read_value i store kind) tt v
  unfolding write_value read_value index_of at_index or_undefined ◌>>=◌
  read_value-write_value Values.bool (bool_value b) h =
      Passes-end o i _ (Passes-act o i (read_bool-write_bool o i b)) λ s. refl
  read_value-write_value (Values.uint w) (number n) (h, k) =
      Passes-end o i _ (Passes-uint n (omega (arith, h, k))) λ s. rw (mod-eq_of_lt h) refl
  read_value-write_value (Values.int w) (signed z) (h, k, l) =
      Passes-end o i _ (Passes-act o i (read_int-write_int o i z k l))
        λ s. rw (of_word-to_word (2 ^ (w - 1)) z h) refl
  read_value-write_value Values.float (number n) h =
      Passes-end o i _ (Passes-act o i (read_float-write_float o i n h)) λ s. refl
  read_value-write_value Values.double (number n) h =
      Passes-end o i _ (Passes-act o i (read_double-write_double o i n h)) λ s. refl
  read_value-write_value Values.string (text cs) h =
      Passes-end o i _ (Passes-act o i (read_raw-write_raw o i cs h)) λ s. refl
  read_value-write_value Values.unicode (text cs) (h, utf8, e, l) =
      let t = Trip-text o i cs utf8 h e l in
      Passes-end o i _
        (record { writer = _; runs = λ s j. (t.0 s j, (write_utf8 o cs s).1); trip = t.1 })
        λ s. refl
  read_value-write_value Values.pointer (address (some p)) h =
      rw (stored_lem p h)
        (Passes-end o i _ (Passes-uint h.index h.index_fits) λ s. rw h.stored refl)
  read_value-write_value Values.pointers (addresses ps) (l, h) =
      Passes-then o i _ (Passes-act o i (read_array_size-write_array_size o i (length ps) l))
        (Passes-end o i _ (Passes-pointers ps h) λ s. refl)
  read_value-write_value (Values.slice w) (range start stop) (h, k, l) =
      let d = minus-lt w start stop h in
      Passes-then o i _ Passes-pair (
        Passes-then o i _ (Passes-uint start (omega (arith, h, l))) (
          Passes-end o i _ (Passes-uint (minus w stop start) (omega (arith, d, l)))
            λ s. rw (mod-eq_of_lt h, mod-eq_of_lt d, plus-minus w start stop h k) refl))
  read_value-write_value Values.pointer_slice (address_range (some start) (some stop)) (h, k) =
      rw (stored_lem start h, stored_lem stop k)
        (Passes-then o i _ Passes-pair (
          Passes-then o i _ (Passes-uint h.index h.index_fits) (
            Passes-end o i _
              (Passes-uint (minus 64 k.index h.index) (minus-lt 64 h.index k.index h.index_fits))
              λ s.
                rw (h.stored, plus_from 64 h.index k.index h.index_fits k.index_fits, k.stored)
                  refl)))
  read_value-write_value _ _ h = absurd h
