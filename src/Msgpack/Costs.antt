-- ===== src/Msgpack/Costs.antt =====
-- The bytes that the readers of src/lib/schwa/msgpack/wire_impl.h take, against those that write_uint writes
-- for the same number.
use libschwa.Prelude.{
  ℕ, zero, refl, length-drop, suc, ◌+◌, ◌*◌, ◌%◌, ◌^◌, ◌≤◌, ◌<◌, ◌≡◌, sym, ap, subst, ◌∙◌, Bool,
  true, false, Option, none, some, List, [], ◌∷◌, length, drop, head?, All, IsByte, leb,
  if◌then◌else◌, arith, bit_and, Bool-cases, inl, inr,
}
use libschwa.Prelude.Digits.{bit_and-ones}
use native.Mathlib.Nat.{pow-suc, mul_assoc, mul_comm}
use libschwa.Exec.{Exec, pure, ◌>>=◌}
use libschwa.Io.Stream.{In, Out}
use libschwa.Io.Effects.{get_byte, read_word, word-length, word-IsByte, Writes}
use libschwa.Io.Budget.{Budget, whole, any, Holds, Fits, Less, Fits-pure, Fits-raise, Fits-bind}
use libschwa.Msgpack.Header
use libschwa.Msgpack.Enums.{WireType, fixnum_positive, uint_8, uint_16, uint_32, uint_64}
use libschwa.Msgpack.Endian.{be_value, be_value_from, be_bytes, length-be_bytes}
use libschwa.Msgpack.Table.{header_type}
use libschwa.Msgpack.Write.{
  write_uint_fixed, write_uint8, write_uint16, write_uint32, write_uint64, write_uint, write_be,
}
use libschwa.Msgpack.Read.{mask, read_val_uint_fixed, read_be, uint_of, read_uint}
use libschwa.Msgpack.Words.{Writes-be, Writes-word}

-- How many bytes write_uint writes.
unfoldable pub width : ℕ → ℕ
width x =
    if leb x 127
    then 1
    else if leb x 0xff
    then 2
    else if leb x 0xffff
    then 3
    else if leb x 0xffff_ffff
    then 5
    else 9

-- What `in.get()` took: a byte that came shows that the input was not at its end before.
unfoldable pub got : Option ℕ → Budget
got none = any 0
got (some b) = whole 1

module _ {T : Type 0} {W : T → Type 0} (o : Out T W) where
  pub record Grows (m : T → T) (k : ℕ) : Type 0 where
    pub wire : List ℕ
    pub writes : Writes o m wire
    pub long : length wire ≡ k

  Grows-if :
      (b : Bool) {m m' : T → T} {k k' : ℕ}
      → Grows m k
      → Grows m' k'
      → Grows (if b then m else m') (if b then k else k')
  Grows-if true g g' = g
  Grows-if false g g' = g'

  Grows-word : (c n x : ℕ) → Grows (λ s. write_be o n x (o.put c s)) (suc n)
  Grows-word c n x = record {
    wire = c ∷ be_bytes n x;
    writes = Writes-word o c n x;
    long = omega (arith, length-be_bytes n x);
  }

  pub Grows-write_uint : (x : ℕ) → Grows (write_uint o x) (width x)
  unfolding write_uint width write_uint_fixed write_uint8 write_uint16 write_uint32 write_uint64
  Grows-write_uint x =
      Grows-if (leb x 127)
        (record {
          wire = be_bytes 1 (bit_and x 0x7F);
          writes = Writes-be o 1 (bit_and x 0x7F);
          long = length-be_bytes 1 (bit_and x 0x7F);
        })
        (Grows-if (leb x 0xff) (Grows-word Header.uint_8 1 x) (
          Grows-if (leb x 0xffff) (Grows-word Header.uint_16 2 x) (
            Grows-if (leb x 0xffff_ffff) (Grows-word Header.uint_32 4 x)
              (Grows-word Header.uint_64 8 x))))

be_value_from-lt :
    (acc k : ℕ) (bs : List ℕ) → acc < k → All IsByte bs → be_value_from acc bs < k * 256 ^ length bs
unfolding be_value_from
be_value_from-lt acc k [] l h = omega (arith, l)
be_value_from-lt acc k (b ∷ bs) l h =
    let next = be_value_from-lt (acc * 256 + b) (k * 256) bs (omega (arith, l, h.0)) h.1 in
    let e : k * 256 ^ suc (length bs) ≡ (k * 256) * 256 ^ length bs =
      ap (λ p. k * p) (pow-suc 256 (length bs) ∙ mul_comm (256 ^ length bs) 256)
      ∙ sym (mul_assoc k 256 (256 ^ length bs)) in
    omega (arith, next, e)

pub be_value-lt : (bs : List ℕ) → All IsByte bs → be_value bs < 256 ^ length bs
unfolding be_value
be_value-lt bs h = omega (arith, be_value_from-lt 0 1 bs (omega arith) h)

pub width-wrap : (w : ℕ) → width (w % 2 ^ 32) ≤ width w
unfolding width
width-wrap w = ground arith

low_seven-leb : (h : ℕ) → leb (bit_and h 0x7F) 127 ≡ true
low_seven-leb h = rw (bit_and-ones 7 h) (ground arith)

low_seven-le : (h : Option ℕ) → width (read_val_uint_fixed h) ≤ 1
unfolding width read_val_uint_fixed mask
low_seven-le none = omega arith
low_seven-le (some h) =
    let e : leb (bit_and h 0x7F) 127 ≡ true = low_seven-leb h in rw e (omega arith)

width-le : (x : ℕ) → width x ≤ 9
unfolding width
width-le x = ground arith

pub drop-end : (n : ℕ) (xs : List ℕ) → length xs ≤ n → drop n xs ≡ []
drop-end zero [] h = refl
drop-end zero (x ∷ xs) h = absurd (omega (arith, h))
drop-end (suc n) [] h = refl
drop-end (suc n) (x ∷ xs) h = drop-end n xs (omega (arith, h))

after_get :
    (v : List ℕ) (m : ℕ)
    → Holds (length v) (v ≡ []) m (any 0)
    → Holds (length (drop 1 v)) (drop 1 v ≡ []) m (got (head? v))
unfolding Holds got
after_get [] m h = h
after_get (b ∷ bs) m (inl h) = omega (arith, h)
after_get (b ∷ bs) m (inr h) = absurd (omega (arith, ap length h.0))

-- A word of `n` bytes, of which the input has what it has.
after_word :
    (v : List ℕ) (m n j k : ℕ)
    → n ≤ 8
    → k ≤ 8 + j
    → k ≤ n + j
    → Holds (length v) (v ≡ []) m (whole j)
    → Holds (length (drop n v)) (drop n v ≡ []) m (any k)
unfolding Holds
after_word v m n j k few l fit h = elim (Bool-cases (leb n (length v))) [
  | inl t ↦ inl (ground (arith, length-drop n v, fit, h))
  | inr t ↦ inr (
      let short : length v ≤ n = ground arith in
      (drop-end n v short, omega (arith, ap length (drop-end n v short), l, h)))
]

module _ {S : Type 0} {V : S → Type 0} (i : In S V) where
  abbrev pub left_of : S → ℕ
  left_of s = length (i.view s)

  abbrev pub AtEnd : S → Type 0
  AtEnd s = i.view s ≡ []

  -- A step of the source alone, in bytes left.
  abbrev pub Takes : Budget → {A : Type 0} → (A → Budget) → Exec S A → Type 0
  Takes = Fits V left_of AtEnd

  pub Takes-get : Takes (any 0) got (get_byte i)
  unfolding get_byte
  Takes-get = record {
    at = λ m s h. record {
      valid = i.get-IsValid s h.valid;
      held = rw (i.get_view s h.valid, i.get_value s h.valid) (after_get (i.view s) m h.held);
    };
  }

  -- A word of at most eight bytes, from a state where the input had a byte just before.
  pub Takes-word :
      (n j : ℕ) {A : Type 0} (f : List ℕ → A) (due : A → ℕ)
      → n ≤ 8
      → ((bs : List ℕ) → length bs ≡ n → All IsByte bs → due (f bs) ≤ n + j)
      → Takes (whole j) (λ a. any (due a)) (do bs ← read_word i n; pure (f bs))
  unfolding ◌>>=◌ read_word
  Takes-word n j f due few fit = record {
    at = λ m s h.
        let small = fit _ (word-length i n s h.valid) (word-IsByte i n s h.valid) in
        record {
          valid = i.read-IsValid n s h.valid;
          held =
              rw (i.read_view n s h.valid)
                (after_word (i.view s) m n j _ few (omega (arith, small, few)) small h.held);
        };
  }

  pub Takes-step : (n : ℕ) → n ≤ 8 → Takes (whole 0) (λ bs. any (length bs)) (read_word i n)
  unfolding read_word
  Takes-step n few = record {
    at = λ m s h.
        let long = word-length i n s h.valid in
        record {
          valid = i.read-IsValid n s h.valid;
          held = rw (i.read_view n s h.valid) (
              after_word (i.view s) m n 0 _ few (omega (arith, long, few)) (omega (arith, long))
                h.held);
        };
  }

  Takes-be :
      (n : ℕ)
      → n ≤ 8
      → ((w : ℕ) → w < 256 ^ n → width w ≤ suc n)
      → Takes (whole 1) (λ w. any (width w)) (read_be i n)
  unfolding read_be
  Takes-be n few fit = Takes-word n 1 be_value width few λ bs long bytes.
      omega
        (arith, fit (be_value bs) (subst (λ k. be_value bs < 256 ^ k) long (be_value-lt bs bytes)))

  Takes-uint_of :
      (t : WireType) (h : Option ℕ) → Takes (whole 1) (λ w. any (width w)) (uint_of i t h)
  unfolding uint_of width Less
  Takes-uint_of fixnum_positive h =
      Fits-pure V left_of AtEnd (λ w. any (width w)) _ (low_seven-le h)
  Takes-uint_of uint_8 h = Takes-be 1 (omega arith) λ w l. ground arith
  Takes-uint_of uint_16 h = Takes-be 2 (omega arith) λ w l. ground arith
  Takes-uint_of uint_32 h = Takes-be 4 (omega arith) λ w l. ground arith
  Takes-uint_of uint_64 h = Takes-be 8 (omega arith) λ w l. ground arith
  Takes-uint_of _ h = Fits-raise V left_of AtEnd (λ w. any (width w)) _

  -- read_uint takes no fewer bytes than write_uint writes for the same number, but at the end of the input.
  pub Takes-read_uint : Takes (any 0) (λ w. any (width w)) (read_uint i)
  unfolding read_uint got header_type uint_of
  Takes-read_uint = Fits-bind V left_of AtEnd _ Takes-get (elim [
    | none ↦ Fits-raise V left_of AtEnd (λ w. any (width w)) _
    | some h ↦ Takes-uint_of (header_type (some h)) (some h)
  ])
