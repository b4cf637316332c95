-- ===== src/Unicode/Decoder.antt =====
-- UTF8Decoder of src/lib/schwa/unicode.h: its iterators, over any two functions that read a code point.
use libschwa.Prelude.{
  ℕ, zero, suc, ◌+◌, ◌-◌, Bool, true, false, List, [], ◌∷◌, ◌++◌, length, reverse, take,
  if◌then◌else◌,
}
use libschwa.Exec.{Result, ok, err, Exec, pure, raise, out_of_fuel, ◌>>=◌, ◌>>◌}
use libschwa.Unicode.Utf8.{max_code_point, read_utf8}

-- Iterator: `before` is what lies from `_start` to `_cp_start`, the nearest byte first, `current` from
-- there to `_cp_end`, and `after` from there to `_end`.
pub record Utf8Iterator : Type 0 where
  pub before : List ℕ
  pub current : List ℕ
  pub after : List ℕ
  pub code_point : ℕ
  pub read : Bool

-- The constructor at `initial`, between what lies before it and after it.
unfoldable pub start_at : List ℕ → List ℕ → Utf8Iterator
start_at before after = record {
  before = before;
  current = [];
  after = after;
  code_point = max_code_point;
  read = false;
}

-- begin() of a decoder of `data`, and rbegin(), for which `_start` and `_end` are swapped.
unfoldable pub begin_forward : List ℕ → Utf8Iterator
unfolding start_at
begin_forward data_ = start_at [] data_

unfoldable pub begin_backward : List ℕ → Utf8Iterator
unfolding start_at
begin_backward data_ = start_at [] (reverse data_)

-- `*this == end()`.
unfoldable pub is_end : Utf8Iterator → Bool
is_end it = elim it.current [ [] ↦ elim it.after [ [] ↦ true | b ∷ bs ↦ false ] | b ∷ bs ↦ false ]

-- `_cp_start = _cp_end`.
unfoldable pub passed : Utf8Iterator → Utf8Iterator
passed it = record it { before = reverse it.current ++ it.before; current = [] }

unfoldable pub moved : Utf8Iterator → Result (ℕ × List ℕ) → Result (Unit {0}) × Utf8Iterator
moved it (err e) = (err e, it)
moved it (ok (c, rest)) = (
  ok tt,
  record it {
    current = take (length it.after - length rest) it.after;
    after = rest;
    code_point = c;
  },
)

module _ (forward : List ℕ → Result (ℕ × List ℕ)) where
  -- _read_forward, after its first statement.
  unfoldable pub read_on : List ℕ → Exec Utf8Iterator (Unit {0})
  unfolding moved
  read_on [] it = (ok tt, record it { code_point = max_code_point })
  read_on (b ∷ bs) it = moved it (forward (b ∷ bs))

  unfoldable pub read_forward : Exec Utf8Iterator (Unit {0})
  unfolding read_on passed
  read_forward it = read_on it.after (passed it)

  -- `if (!_read) { _read_forward(); _read = true; }`
  unfoldable pub ensure_read : Exec Utf8Iterator (Unit {0})
  unfolding read_forward
  ensure_read it =
      if it.read then (ok tt, it) else (read_forward >> λ it. (ok tt, record it { read = true })) it

  -- operator ++ and operator *.
  unfoldable pub increment : Exec Utf8Iterator (Unit {0})
  unfolding ensure_read
  increment = do ensure_read; read_forward

  unfoldable pub current_code_point : Exec Utf8Iterator ℕ
  unfolding ensure_read
  current_code_point = do ensure_read; λ it. (ok it.code_point, it)

  -- `for (it = begin(); it != end(); ++it)`: what `*it` gives, in order, in at most `fuel` rounds.
  unfoldable pub decode : ℕ → Exec Utf8Iterator (List ℕ)
  unfolding is_end increment current_code_point
  decode zero it = raise out_of_fuel it
  decode (suc fuel) it =
      let round = (do c ← current_code_point; increment; cs ← decode fuel; pure (c ∷ cs)) it in
      if is_end it then (ok [], it) else round

-- UnicodeString::from_utf8: the string of what the loop visits. A code point takes at least a byte.
unfoldable pub from_utf8 : List ℕ → Result (List ℕ)
unfolding begin_forward decode
from_utf8 utf8 = (decode read_utf8 (length utf8 + 2) (begin_forward utf8)).0

module _ (backward : List ℕ → Result (ℕ × List ℕ)) where
  unfoldable pub moved_back : Utf8Iterator → Result (ℕ × List ℕ) → Result (Unit {0}) × Utf8Iterator
  moved_back it (err e) = (err e, it)
  moved_back it (ok (c, rest)) = (
    ok tt,
    record it {
      before = rest;
      current = reverse (take (length it.before - length rest) it.before);
      code_point = c;
    },
  )

  -- _read_backward after its first statement, which operator -- is.
  unfoldable pub read_back : List ℕ → Exec Utf8Iterator (Unit {0})
  unfolding moved_back
  read_back [] it = (ok tt, it)
  read_back (b ∷ bs) it = moved_back it (backward (b ∷ bs))

  unfoldable pub decrement : Exec Utf8Iterator (Unit {0})
  unfolding read_back
  decrement it = read_back it.before (record it { current = []; after = it.current ++ it.after })
