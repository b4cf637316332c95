-- ===== src/Query/Numbers.antt =====
-- Numbers in texts: strtoll and sscanf("%" SCNd64) as src/lib/schwa/dr/query.cc calls them, and the
-- decimal text that an output stream gives.
use libschwa.Prelude.{
  ℕ, zero, suc, ◌+◌, ◌-◌, ◌*◌, ◌/◌, ◌%◌, ◌^◌, Bool, true, false, ◌&&◌, ◌||◌, Option, none, some, [],
  ◌∷◌, ◌++◌, leb, ltb, ◌==◌, if◌then◌else◌,
}
use libschwa.Prelude.Int.{ℤ, pos, negsuc}
use libschwa.Query.Syntax.{Text}

unfoldable pub is_digit : ℕ → Bool
is_digit c = leb 48 c && leb c 57

-- std::isspace in the C locale.
unfoldable pub is_space : ℕ → Bool
is_space c = (leb 9 c && leb c 13) || c == 32

unfoldable pub skip_spaces : Text → Text
unfolding is_space
skip_spaces [] = []
skip_spaces (c ∷ cs) = let rest = skip_spaces cs in if is_space c then rest else c ∷ cs

-- Whether there is a minus, and what follows a sign.
unfoldable pub take_sign : Text → Bool × Text
take_sign [] = (false, [])
take_sign (c ∷ cs) =
    if c == 45 then (true, cs) else if c == 43 then (false, cs) else (false, c ∷ cs)

unfoldable pub take_digits : ℕ → Text → ℕ × Text
unfolding is_digit
take_digits acc [] = (acc, [])
take_digits acc (c ∷ cs) =
    let rest = take_digits (acc * 10 + (c - 48)) cs in if is_digit c then rest else (acc, c ∷ cs)

unfoldable pub starts_digit : Text → Bool
unfolding is_digit
starts_digit [] = false
starts_digit (c ∷ cs) = is_digit c

-- Out of range, strtoll gives the nearest int64_t.
unfoldable pub clamp : Bool → ℕ → ℤ
clamp true zero = pos 0
clamp true (suc n) = if ltb n (2 ^ 63) then negsuc n else negsuc (2 ^ 63 - 1)
clamp false n = if ltb n (2 ^ 63) then pos n else pos (2 ^ 63 - 1)

-- The value, and where `*end` points; without digits that is the start.
unfoldable pub strtoll : Text → ℤ × Text
unfolding skip_spaces take_sign take_digits starts_digit clamp
strtoll str =
    let signed = take_sign (skip_spaces str) in
    let (n, end) = take_digits 0 signed.1 in
    if starts_digit signed.1 then (clamp signed.0 n, end) else (pos 0, str)

-- What sscanf stores; `none` is a result that is not 1.
unfoldable pub scan_int : Text → Option ℤ
unfolding strtoll
scan_int str = if starts_digit (take_sign (skip_spaces str)).1 then some (strtoll str).0 else none

-- The decimal digits of a number below 10 ^ fuel.
unfoldable pub digits : ℕ → ℕ → Text
digits zero n = []
digits (suc fuel) n =
    let front = digits fuel (n / 10) in
    if ltb n 10 then (48 + n) ∷ [] else front ++ (48 + n % 10) ∷ []

-- `ss << value` for an int64_t, which has at most 19 digits.
unfoldable pub int_text : ℤ → Text
unfolding digits
int_text (pos n) = digits 20 n
int_text (negsuc n) = 45 ∷ digits 20 (n + 1)
