-- ===== src/Exec.antt =====
-- C++ functions that change the object they are given and may throw, as explicit state passing:
-- src/lib/schwa/exception.h and src/lib/schwa/msgpack/exception.{h,cc}.
-- What was changed before a throw stays changed, so the state comes back beside the error too.
pub mod Post
use libschwa.Prelude.{ℕ, Option}

-- `read_exception got expected` is msgpack::ReadException; `got` is what `in.get()` returned
-- (`none` is EOF) and `expected` is `none` where the constructor's default -1 stands. The text of
-- its message is not kept. `assertion` is a failed `assert`.
-- `value_exception` is ValueException, `unicode_exception c` is UnicodeException at `c`.
-- `compile_error` and `runtime_error` are those of dr/query.h and `reader_exception` is that of
-- dr/exception.h, without their texts, and `undefined` is
-- what C++ leaves undefined (overflow, division by zero, a bad index).
-- `out_of_fuel` is no C++ value either: the bound on the recursion that the model uses ran out.
pub data Error : Type 0 where
  read_exception : Option ℕ → Option ℕ → Error
  assertion value_exception out_of_fuel : Error
  compile_error runtime_error reader_exception undefined : Error
  unicode_exception : ℕ → Error

pub data Result (A : Type 0) : Type 0 where
  ok : A → Result A
  err : Error → Result A

abbrev pub Exec : Type 0 → Type 0 → Type 0
Exec S A = S → Result A × S

module _ {S A : Type 0} where
  abbrev pub pure : A → Exec S A
  pure a s = (ok a, s)

  abbrev pub raise : Error → Exec S A
  raise e s = (err e, s)

module _ {S A B : Type 0} where
  abbrev pub continue : Result A → (A → Exec S B) → Exec S B
  continue (ok a) f s = f a s
  continue (err e) f s = (err e, s)

  infixl 10 ◌>>=◌ ◌>>◌
  unfoldable pub ◌>>=◌ : Exec S A → (A → Exec S B) → Exec S B
  ◌>>=◌ m f s = continue (m s).0 f (m s).1

  abbrev pub ◌>>◌ : Exec S A → Exec S B → Exec S B
  m >> n = m >>= λ _. n
