-- ===== src/Msgpack/Dynamic/Takes.antt =====
-- How much the readers of src/lib/schwa/msgpack/wire_impl.h take at least, and that they need no fuel.
use libschwa.Prelude.{
  ℕ, ap, ◌≤◌, ◌-◌, Bool, true, false, Option, arith, length, length-drop, if◌then◌else◌,
}
use libschwa.Exec.{Error, out_of_fuel, Result, ok, err, Exec, pure, raise, continue, ◌>>=◌}
use libschwa.Io.Stream.{In}
use libschwa.Io.Effects.{get_byte, read_word}
use libschwa.Msgpack.Enums.{
  WireType, fixnum_positive, fixnum_negative, uint_8, uint_16, uint_32, uint_64, int_8, int_16,
  int_32, int_64,
}
use libschwa.Msgpack.Table.{header_type}
use libschwa.Msgpack.Read.{
  read_be, read_val_int, read_nil, read_bool, read_uint, uint_of, read_int, int_of, signed,
  read_float, read_double,
}
use libschwa.Msgpack.Lazy.Ends.{HasFuel}
use libschwa.Msgpack.Dynamic.{raw_bytes}

module _ {S : Type 0} {V : S → Type 0} (i : In S V) where
  -- No more than `k` bytes are left.
  pub record Left (k : ℕ) (s : S) : Type 0 where
    pub valid : V s
    pub left : length (i.view s) ≤ k

  -- From where no more than `k` bytes are left, `m` ends before its fuel does, and no more than `l` are
  -- left then.
  pub record Ends (k l : ℕ) {A : Type 0} (m : Exec S A) : Type 0 where
    pub at : (s : S) → Left k s → HasFuel (m s).0 × Left l (m s).1

  pub Left-more : {k l : ℕ} {s : S} → k ≤ l → Left k s → Left l s
  Left-more h x = record { valid = x.valid; left = omega (arith, h, x.left) }

  pub Ends-pure : (k : ℕ) {A : Type 0} (a : A) → Ends k k (pure a)
  Ends-pure k a = record { at = λ s l. (tt, l) }

  Ends-raise :
      (k : ℕ) {A : Type 0} (e : Error) → HasFuel {A = A} (err e) → Ends k k {A = A} (raise e)
  Ends-raise k e h = record { at = λ s l. (h, l) }

  HasFuel-err : (A B : Type 0) (e : Error) → HasFuel {A = A} (err e) → HasFuel {A = B} (err e)
  HasFuel-err A B out_of_fuel h = absurd h
  HasFuel-err A B _ h = tt

  continue-Ends :
      (k l : ℕ) {A B : Type 0} (f : A → Exec S B)
      → l ≤ k
      → ((a : A) → Ends k l (f a))
      → (r : Result A) (s : S) → HasFuel r
      → Left l s
      → HasFuel (continue r f s).0 × Left l (continue r f s).1
  continue-Ends k l f h cf (ok a) s e x = (cf a).at s (Left-more h x)
  continue-Ends k l {A} {B} f h cf (err e) s u x = (HasFuel-err A B e u, x)

  -- The first step takes what is to be taken, and the others may be done with that.
  pub Ends-bind :
      (k l : ℕ) {A B : Type 0} (m : Exec S A) (f : A → Exec S B)
      → Ends k l m
      → ((a : A) → Ends l l (f a))
      → Ends k l (m >>= f)
  unfolding ◌>>=◌
  Ends-bind k l m f cm cf = record {
    at = λ s x. continue-Ends l l f (omega arith) cf (m s).0 (m s).1 (cm.at s x).0 (cm.at s x).1;
  }

  Ends-if :
      (k l : ℕ) {A : Type 0} (b : Bool) (m n : Exec S A)
      → Ends k l m
      → Ends k l n
      → Ends k l (if b then m else n)
  Ends-if k l true m n x y = x
  Ends-if k l false m n x y = y

  pub Ends-get : (k : ℕ) → Ends k (k - 1) (get_byte i)
  unfolding get_byte
  Ends-get k = record {
    at = λ s x. (
      tt,
      record {
        valid = i.get-IsValid s x.valid;
        left = omega (arith, ap length (i.get_view s x.valid), length-drop 1 (i.view s), x.left);
      },
    );
  }

  Ends-read : (k n : ℕ) → Ends k (k - n) (read_word i n)
  unfolding read_word
  Ends-read k n = record {
    at = λ s x. (
      tt,
      record {
        valid = i.read-IsValid n s x.valid;
        left = omega (arith, ap length (i.read_view n s x.valid), length-drop n (i.view s), x.left);
      },
    );
  }

  pub Ends-raw_bytes : (k n : ℕ) → Ends k k (raw_bytes i n)
  unfolding raw_bytes
  Ends-raw_bytes k n = record {
    at = λ s x. (
      tt,
      record {
        valid = i.ignore-IsValid n s x.valid;
        left =
            omega (arith, ap length (i.ignore_view n s x.valid), length-drop n (i.view s), x.left);
      },
    );
  }

  pub Ends-weaken : (k l m : ℕ) {A : Type 0} (f : Exec S A) → l ≤ m → Ends k l f → Ends k m f
  Ends-weaken k l m f h e = record { at = λ s x. ((e.at s x).0, Left-more h (e.at s x).1) }

  pub Ends-be : (k n : ℕ) → Ends k (k - n) (read_be i n)
  unfolding read_be
  Ends-be k n = Ends-bind k (k - n) (read_word i n) _ (Ends-read k n) λ bs. Ends-pure (k - n) _

  -- A word where nothing needs to be taken.
  pub Ends-word : (k n : ℕ) → Ends k k (read_be i n)
  Ends-word k n = Ends-weaken k (k - n) k (read_be i n) (omega arith) (Ends-be k n)

  pub Ends-nil : (k : ℕ) → Ends k (k - 1) (read_nil i)
  unfolding read_nil
  Ends-nil k =
      Ends-bind k (k - 1) (get_byte i) _ (Ends-get k)
        λ h. Ends-if (k - 1) (k - 1) _ _ _ (Ends-pure (k - 1) tt) (Ends-raise (k - 1) _ tt)

  pub Ends-bool : (k : ℕ) → Ends k (k - 1) (read_bool i)
  unfolding read_bool
  Ends-bool k = Ends-bind k (k - 1) (get_byte i) _ (Ends-get k) λ h.
      Ends-if (k - 1) (k - 1) _ _ _ (Ends-pure (k - 1) true)
        (Ends-if (k - 1) (k - 1) _ _ _ (Ends-pure (k - 1) false) (Ends-raise (k - 1) _ tt))

  pub Ends-float : (k : ℕ) → Ends k (k - 1) (read_float i)
  unfolding read_float
  Ends-float k =
      Ends-bind k (k - 1) (get_byte i) _ (Ends-get k)
        λ h. Ends-if (k - 1) (k - 1) _ _ _ (Ends-word (k - 1) 4) (Ends-raise (k - 1) _ tt)

  pub Ends-double : (k : ℕ) → Ends k (k - 1) (read_double i)
  unfolding read_double
  Ends-double k =
      Ends-bind k (k - 1) (get_byte i) _ (Ends-get k)
        λ h. Ends-if (k - 1) (k - 1) _ _ _ (Ends-word (k - 1) 8) (Ends-raise (k - 1) _ tt)

  Ends-uint_of : (k : ℕ) (t : WireType) (h : Option ℕ) → Ends k k (uint_of i t h)
  unfolding uint_of
  Ends-uint_of k fixnum_positive h = Ends-pure k _
  Ends-uint_of k uint_8 h = Ends-word k 1
  Ends-uint_of k uint_16 h = Ends-word k 2
  Ends-uint_of k uint_32 h = Ends-word k 4
  Ends-uint_of k uint_64 h = Ends-word k 8
  Ends-uint_of k _ h = Ends-raise k _ tt

  Ends-val_int : (k n h : ℕ) → Ends k k (read_val_int i n h)
  unfolding read_val_int
  Ends-val_int k n h = Ends-bind k k (read_be i n) _ (Ends-word k n) λ w. Ends-pure k _

  Ends-signed : (k : ℕ) (m : Exec S ℕ) → Ends k k m → Ends k k (signed i m)
  unfolding signed
  Ends-signed k m e = Ends-bind k k m _ e λ w. Ends-pure k _

  Ends-int_of : (k : ℕ) (t : WireType) (h : Option ℕ) → Ends k k (int_of i t h)
  unfolding int_of
  Ends-int_of k fixnum_negative h = Ends-pure k _
  Ends-int_of k fixnum_positive h = Ends-pure k _
  Ends-int_of k int_8 h = Ends-val_int k 1 _
  Ends-int_of k int_16 h = Ends-val_int k 2 _
  Ends-int_of k int_32 h = Ends-val_int k 4 _
  Ends-int_of k int_64 h = Ends-val_int k 8 _
  Ends-int_of k uint_8 h = Ends-signed k _ (Ends-word k 1)
  Ends-int_of k uint_16 h = Ends-signed k _ (Ends-word k 2)
  Ends-int_of k uint_32 h = Ends-signed k _ (Ends-word k 4)
  Ends-int_of k uint_64 h = Ends-signed k _ (Ends-word k 8)
  Ends-int_of k _ h = Ends-raise k _ tt

  pub Ends-uint : (k : ℕ) → Ends k (k - 1) (read_uint i)
  unfolding read_uint
  Ends-uint k =
      Ends-bind k (k - 1) (get_byte i) _ (Ends-get k) λ h. Ends-uint_of (k - 1) (header_type h) h

  pub Ends-int : (k : ℕ) → Ends k (k - 1) (read_int i)
  unfolding read_int
  Ends-int k =
      Ends-bind k (k - 1) (get_byte i) _ (Ends-get k) λ h. Ends-int_of (k - 1) (header_type h) h
