-- ===== src/Tokenizer/Sentences/Tokens.antt =====
-- State::check_sentence_length, State::add and State::split of tokenizer_state.h: the tokens of a sentence
-- and its length.
use libschwa.Prelude.{ℕ, suc, ◌<◌, ◌≡◌, refl, true, false, ltb, leb, Option, some, List, arith}
use libschwa.Tokenizer.Stream
use libschwa.Tokenizer.Stream.{TokenType, Event}
use libschwa.Tokenizer.State.{
  State, emit, end_sentence, check_sentence_length, clear_norms, add, split, max_sentence_length,
}
use libschwa.Tokenizer.Sentences.{
  watch, watch_all, watch_after, open_sentence, IsLength, Follows, same-Follows, if-lem,
  ensure_sentence-Follows, ensure_sentence-IsOpen, IsOpen, open_length,
}

ltb_less : (a b : ℕ) → a < b → ltb a b ≡ true
ltb_less a b h = ground arith

leb_more : (a b : ℕ) → leb a b ≡ false → b < a
leb_more a b h = ground arith

-- A token has been given to the stream and not been counted yet.
IsUncounted : State → Type 0
unfolding watch_all
IsUncounted s =
    (watch_all s.dest ≡ some (some (suc s.sentence_length)))
    × (IsOpen s)
    × s.sentence_length < max_sentence_length

token-IsUncounted :
    (type : TokenType) (at len : ℕ) (norm : Option (List ℕ)) (s : State)
    → Follows s
    → IsOpen s
    → IsUncounted (emit (Stream.add type at len norm) s)
unfolding Follows IsUncounted emit watch_all watch_after watch open_sentence IsLength
token-IsUncounted type at len norm s (calls, l) opened =
    let less = open_length s.in_sentence s.sentence_length opened l in
    (rw (calls, opened, ltb_less s.sentence_length max_sentence_length less) refl, opened, less)

ended-Follows :
    (s : State) (n : ℕ) → watch_all s.dest ≡ some (some n) → IsOpen s → Follows (end_sentence s)
unfolding end_sentence Follows emit watch_all watch_after watch open_sentence IsLength
ended-Follows s n calls opened = rw opened (rw calls refl, refl)

longer-Follows :
    (s : State)
    → IsUncounted s
    → suc s.sentence_length < max_sentence_length
    → Follows (record s { sentence_length = suc s.sentence_length })
unfolding Follows IsUncounted watch_all open_sentence IsLength
longer-Follows s (calls, opened, _) less = rw opened (calls, less)

check_sentence_length-Follows : (s : State) → IsUncounted s → Follows (check_sentence_length s)
unfolding check_sentence_length IsUncounted
check_sentence_length-Follows s u =
    if-lem Follows (leb max_sentence_length (suc s.sentence_length)) _ _
      (λ e.
        ensure_sentence-Follows _
          (ended-Follows (record s { sentence_length = suc s.sentence_length }) _ (u.0) (u.1)))
      λ e. longer-Follows s u (leb_more _ _ e)

check_sentence_length-IsOpen : (s : State) → IsOpen s → IsOpen (check_sentence_length s)
unfolding check_sentence_length
check_sentence_length-IsOpen s opened =
    if-lem IsOpen (leb max_sentence_length (suc s.sentence_length)) _ _
      (λ e.
        ensure_sentence-IsOpen
          (end_sentence (record s { sentence_length = suc s.sentence_length })))
      λ e. opened

pub add-Follows :
    (type : TokenType) (norm : Option (List ℕ)) (s : State)
    → Follows s
    → IsOpen s
    → Follows (add type norm s)
unfolding add clear_norms
add-Follows type norm s f opened =
    same-Follows _ _ (check_sentence_length-Follows _ (token-IsUncounted type _ _ _ s f opened))
      refl refl refl

pub split-Follows :
    (type1 type2 : TokenType) (norm1 norm2 : Option (List ℕ)) (s : State)
    → Follows s
    → IsOpen s
    → Follows (split type1 type2 norm1 norm2 s)
unfolding split clear_norms emit
split-Follows type1 type2 norm1 norm2 s f opened =
    let first_follows =
      check_sentence_length-Follows _ (token-IsUncounted type1 _ _ _ s f opened) in
    let first_opened = check_sentence_length-IsOpen (emit (Stream.add type1 _ _ _) s) opened in
    same-Follows _ _
      (check_sentence_length-Follows _ (token-IsUncounted type2 _ _ _ _ first_follows first_opened))
      refl refl refl
