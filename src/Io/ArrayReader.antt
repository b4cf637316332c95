-- ===== src/Io/ArrayReader.antt =====
-- src/lib/schwa/io/array_reader.h and array_reader.cc: a byte source over an array in memory.
use libschwa.Prelude.{
  replicate, ℕ, zero, suc, ◌+◌, ◌-◌, ◌≡◌, refl, sym, ◌∙◌, Option, none, List, [], ◌∷◌, min, arith,
  ◌==◌, if◌then◌else◌, length, head?, get_elem?, take, drop, length-drop, drop-drop, take-min, All,
  IsByte, All-drop, drop-min,
}
use libschwa.Io.Stream.{In}

-- `upto` is the offset of `_upto` in the array.
pub record ArrayReader : Type 0 where
  pub data_bytes : List ℕ
  pub nbytes : ℕ
  pub upto : ℕ
  pub left : ℕ

-- The constructor ArrayReader(data, nbytes).
unfoldable pub create : List ℕ → ArrayReader
create bs = record { data_bytes = bs; nbytes = length bs; upto = 0; left = length bs }

-- `none` is EOF. Behind the array the loaded byte is whatever lies there.
unfoldable pub get : ArrayReader → Option ℕ × ArrayReader
get r =
    if r.left == 0
    then (none, r)
    else (get_elem? r.data_bytes r.upto, record r { upto = r.upto + 1; left = r.left - 1 })

unfoldable pub peek : ArrayReader → Option ℕ
peek r = if r.left == 0 then none else get_elem? r.data_bytes r.upto

unfoldable pub read : ℕ → ArrayReader → List ℕ × ArrayReader
read amount r =
    let n = min r.left amount in
    (take n (drop r.upto r.data_bytes), record r { upto = r.upto + n; left = r.left - n })

-- The number of bytes skipped is the result.
unfoldable pub ignore : ℕ → ArrayReader → ℕ × ArrayReader
ignore amount r =
    let n = min r.left amount in (n, record r { upto = r.upto + n; left = r.left - n })

pub record IsValid (r : ArrayReader) : Type 0 where
  pub whole : r.nbytes ≡ length r.data_bytes
  pub inside : r.upto + r.left ≡ r.nbytes
  pub octets : All IsByte r.data_bytes

unfoldable pub view : ArrayReader → List ℕ
view r = drop r.upto r.data_bytes

pub create-IsValid : (bs : List ℕ) → All IsByte bs → IsValid (create bs)
unfolding create
create-IsValid bs h = record { whole = refl; inside = omega arith; octets = h }

pub get-IsValid : (r : ArrayReader) → IsValid r → IsValid (get r).1
unfolding get
get-IsValid r v = ground arith

pub read-IsValid : (n : ℕ) (r : ArrayReader) → IsValid r → IsValid (read n r).1
unfolding read
read-IsValid n r v = record { whole = v.whole; inside = omega (arith, v.inside); octets = v.octets }

pub ignore-IsValid : (n : ℕ) (r : ArrayReader) → IsValid r → IsValid (ignore n r).1
unfolding ignore
ignore-IsValid n r v = record {
  whole = v.whole;
  inside = omega (arith, v.inside);
  octets = v.octets;
}

-- The counter `_left` is the length of what is left.
length-view : (r : ArrayReader) → IsValid r → length (view r) ≡ r.left
unfolding view
length-view r v = omega (arith, length-drop r.upto r.data_bytes, v.whole, v.inside)

get_elem?-eq-head?-drop {ℓ} :
    {A : Type ℓ} (i : ℕ) (xs : List A) → get_elem? xs i ≡ head? (drop i xs)
get_elem?-eq-head?-drop zero [] = refl
get_elem?-eq-head?-drop (suc i) [] = refl
get_elem?-eq-head?-drop zero (x ∷ xs) = refl
get_elem?-eq-head?-drop (suc i) (x ∷ xs) = get_elem?-eq-head?-drop i xs

pub view-IsByte : (r : ArrayReader) → IsValid r → All IsByte (view r)
unfolding view
view-IsByte r v = All-drop IsByte r.upto r.data_bytes v.octets

module _ (r : ArrayReader) (v : IsValid r) where
  pub peek_value : peek r ≡ head? (view r)
  unfolding peek view
  peek_value = ground (arith, length-view r v, get_elem?-eq-head?-drop r.upto r.data_bytes)

  pub get_value : (get r).0 ≡ head? (view r)
  unfolding get view
  get_value = ground (arith, length-view r v, get_elem?-eq-head?-drop r.upto r.data_bytes)

  pub get_view : view (get r).1 ≡ drop 1 (view r)
  unfolding get view
  get_view = ground (arith, length-view r v, drop-drop r.upto 1 r.data_bytes)

module _ (n : ℕ) (r : ArrayReader) (v : IsValid r) where
  pub read_value : (read n r).0 ≡ take n (view r)
  unfolding read view
  read_value = rw (← length-view r v) (take-min n (drop r.upto r.data_bytes))

  pub read_view : view (read n r).1 ≡ drop n (view r)
  unfolding read view
  read_view =
      sym (drop-drop r.upto (min r.left n) r.data_bytes)
      ∙ rw (← length-view r v) (drop-min n (drop r.upto r.data_bytes))

  pub ignore_view : view (ignore n r).1 ≡ drop n (view r)
  unfolding ignore view
  ignore_view =
      sym (drop-drop r.upto (min r.left n) r.data_bytes)
      ∙ rw (← length-view r v) (drop-min n (drop r.upto r.data_bytes))

pub length-replicate : (n b : ℕ) → length (replicate n b) ≡ n
length-replicate zero b = refl
length-replicate (suc n) b = omega (arith, length-replicate n b)

pub zeros-IsByte : (n : ℕ) → All IsByte (replicate n 0)
zeros-IsByte zero = tt
zeros-IsByte (suc n) = (omega arith, zeros-IsByte n)

-- An ArrayReader is a byte source. A buffer that it leaves unwritten has zeros here.
abbrev pub array_in : In ArrayReader IsValid
array_in = record {
  view = view;
  view-IsByte = view-IsByte;
  get = get;
  peek = peek;
  read = read;
  unwritten = λ n r. replicate n 0;
  length-unwritten = λ n r. length-replicate n 0;
  unwritten-IsByte = λ n r. zeros-IsByte n;
  ignore = λ n r. (ignore n r).1;
  get-IsValid = get-IsValid;
  get_value = get_value;
  get_view = get_view;
  peek_value = peek_value;
  read-IsValid = read-IsValid;
  read_value = read_value;
  read_view = read_view;
  ignore-IsValid = ignore-IsValid;
  ignore_view = ignore_view;
}
