-- ===== src/Tokenizer/Actions.antt =====
-- The member functions of Tokenizer in src/lib/schwa/tokenizer/tokenizer.cc that the generated machine
-- calls.
use libschwa.Prelude.{
  ℕ, Bool, true, false, not, ◌&&◌, ◌||◌, Option, none, some, List, [], ◌∷◌, leb, ◌==◌,
  if◌then◌else◌,
}
use libschwa.Tokenizer.Stream.{TokenType, word, number, punctuation, quote, dash, terminator}
use libschwa.Tokenizer.State

-- The bytes that stand for quotes and dashes: ` `` ' '' --
abbrev pub back_quote : List ℕ
back_quote = 96 ∷ []

abbrev pub back_quotes : List ℕ
back_quotes = 96 ∷ 96 ∷ []

abbrev pub apostrophe : List ℕ
apostrophe = 39 ∷ []

abbrev pub apostrophes : List ℕ
apostrophes = 39 ∷ 39 ∷ []

abbrev pub dashes : List ℕ
dashes = 45 ∷ 45 ∷ []

-- std::isupper, std::isdigit and std::isalnum in the C locale.
unfoldable pub is_upper_or_digit : ℕ → Bool
is_upper_or_digit c = (leb 65 c && leb c 90) || (leb 48 c && leb c 57)

unfoldable pub is_alnum : ℕ → Bool
unfolding is_upper_or_digit
is_alnum c = is_upper_or_digit c || (leb 97 c && leb c 122)

unfoldable pub is_word : TokenType → Bool
is_word word = true
is_word _ = false

abbrev pub S : Type 0
S = State.State

unfoldable pub token : TokenType → Option (List ℕ) → S → S
unfolding State.ensure_sentence State.add
token type norm s = State.add type norm (State.ensure_sentence s)

-- The bytes of the memory at their addresses.
module _ (byte : ℕ → ℕ) where
  -- After a terminator a capital or a digit begins a sentence; anything else continues it.
  unfoldable pub after_terminator : TokenType → S → S
  unfolding is_upper_or_digit is_word State.flush_sentence
  after_terminator type s =
      if s.seen_terminator
      then if is_word type && is_upper_or_digit (byte s.ts)
        then State.flush_sentence s
        else record s { seen_terminator = false }
      else s

  unfoldable pub word_token : TokenType → Option (List ℕ) → S → S
  unfolding after_terminator token
  word_token type norm s = token type norm (after_terminator type s)

  unfoldable pub split_token : TokenType → TokenType → Option (List ℕ) → Option (List ℕ) → S → S
  unfolding after_terminator State.ensure_sentence State.split
  split_token type1 type2 norm1 norm2 s =
      State.split type1 type2 norm1 norm2 (State.ensure_sentence (after_terminator type1 s))

unfoldable pub punct : TokenType → Option (List ℕ) → S → S
unfolding State.flush_sentence token
punct type norm s = token type norm (State.flush_sentence s)

unfoldable pub end_token : TokenType → Option (List ℕ) → S → S
unfolding token
end_token type norm s = token type norm s

unfoldable pub terminate : Option (List ℕ) → S → S
unfolding end_token
terminate norm s = end_token terminator norm (record s { seen_terminator = true })

unfoldable pub open_single_quote : S → S
unfolding punct
open_single_quote s = record (punct quote (some back_quote) s) { in_single_quotes = true }

unfoldable pub close_single_quote : S → S
unfolding end_token
close_single_quote s = record (end_token quote (some apostrophe) s) { in_single_quotes = false }

unfoldable pub open_double_quote : S → S
unfolding punct
open_double_quote s = record (punct quote (some back_quotes) s) { in_double_quotes = true }

unfoldable pub close_double_quote : S → S
unfolding end_token
close_double_quote s = record (end_token quote (some apostrophes) s) { in_double_quotes = false }

unfoldable pub single_quote : (ℕ → ℕ) → ℕ → S → S
unfolding open_single_quote close_single_quote is_alnum
single_quote byte eof s =
    if s.in_single_quotes || (s.te == eof) || not (is_alnum (byte s.te))
    then close_single_quote s
    else open_single_quote s

unfoldable pub double_quote : S → S
unfolding open_double_quote close_double_quote
double_quote s = if s.in_double_quotes then close_double_quote s else open_double_quote s

unfoldable pub dash_or_item : S → S
unfolding punct State.begin_item
dash_or_item s = if s.in_sentence then punct dash (some dashes) s else State.begin_item s

unfoldable pub number_or_item : (ℕ → ℕ) → S → S
unfolding split_token State.begin_item
number_or_item byte s =
    if s.in_sentence
    then record (split_token byte number punctuation none none s) { seen_terminator = true }
    else State.begin_item s
