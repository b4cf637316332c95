-- ===== src/Tokenizer/Sentences.antt =====
-- The sentences and the tokens that the functions of tokenizer_state.h give the stream.
use libschwa.Prelude.{
  ℕ, zero, suc, ◌<◌, ◌≡◌, refl, Bool, true, false, ltb, leb, Option, none, some, List, [], ◌∷◌,
  if◌then◌else◌, arith, ◌+◌, ◌&&◌, ◌||◌, not, ◌==◌,
}
use libschwa.Tokenizer.Stream
use libschwa.Tokenizer.Stream.{TokenType, Event}
use libschwa.Tokenizer.State.{
  State, emit, no_quotes, error, end_sentence, end_paragraph, begin_paragraph, ensure_paragraph,
  sentence_paragraph, begin_sentence, ensure_sentence, check_sentence_length, clear_norms, add,
  split, flush_sentence, begin_document, begin_heading, end_heading, end_item, end_list, begin_list,
  ensure_list, begin_item, end_document, max_sentence_length, new_state,
}
pub mod Tokens
pub mod Structure
pub mod Whole

-- What a stream that counts the tokens of the open sentence, if one is open, makes of a call; none, if the
-- call is out of place.
unfoldable pub watch : Event → Option ℕ → Option (Option ℕ)
watch Stream.begin_sentence none = some (some 0)
watch Stream.begin_sentence (some n) = none
watch Stream.end_sentence none = none
watch Stream.end_sentence (some n) = some none
watch (Stream.add _ _ _ _) none = none
watch (Stream.add _ _ _ _) (some n) =
    if ltb n max_sentence_length then some (some (suc n)) else none
watch (Stream.error _ _) o = some o
watch Stream.begin_list o = some o
watch Stream.end_list o = some o
watch Stream.begin_item o = some o
watch Stream.end_item o = some o
watch Stream.begin_paragraph o = some o
watch Stream.end_paragraph o = some o
watch Stream.begin_document o = some o
watch Stream.end_document o = some o
watch (Stream.begin_heading _) o = some o
watch (Stream.end_heading _) o = some o

unfoldable pub watch_after : Event → Option (Option ℕ) → Option (Option ℕ)
unfolding watch
watch_after e none = none
watch_after e (some o) = watch e o

-- The calls, the last one first.
unfoldable pub watch_all : List Event → Option (Option ℕ)
unfolding watch_after
watch_all [] = some none
watch_all (e ∷ es) = watch_after e (watch_all es)

unfoldable pub open_sentence : Bool → ℕ → Option ℕ
open_sentence true n = some n
open_sentence false n = none

unfoldable pub IsLength : Bool → ℕ → Type 0
IsLength true n = n < max_sentence_length
IsLength false n = n ≡ 0

-- The calls are in place, and the state knows the open sentence and the number of its tokens.
unfoldable pub Follows : State → Type 0
unfolding watch_all open_sentence IsLength
Follows s =
    (watch_all s.dest ≡ some (open_sentence s.in_sentence s.sentence_length))
    × IsLength s.in_sentence s.sentence_length

IsNeutral : Event → Type 0
unfolding watch
IsNeutral e = (o : Option ℕ) → watch e o ≡ some o

emit-Follows : (e : Event) (s : State) → IsNeutral e → Follows s → Follows (emit e s)
unfolding Follows emit watch_all watch_after IsNeutral
emit-Follows e s neutral (calls, len) = (rw calls (neutral _), len)

-- A state whose stream, open sentence and number of tokens are those of `s`.
same-Follows :
    (s t : State)
    → Follows s
    → t.dest ≡ s.dest
    → t.in_sentence ≡ s.in_sentence
    → t.sentence_length ≡ s.sentence_length
    → Follows t
unfolding Follows
same-Follows s t f d i l = rw (d, i, l) f

-- What holds in both branches.
pub if-lem :
    (P : State → Type 0) (b : Bool) (s t : State)
    → (b ≡ true → P s)
    → (b ≡ false → P t)
    → P (if b then s else t)
if-lem P true s t f g = f refl
if-lem P false s t f g = g refl

closed-Follows :
    (s : State)
    → Follows s
    → s.in_sentence ≡ true
    → Follows (record (emit Stream.end_sentence s) {
      seen_terminator = false;
      in_sentence = false;
      sentence_length = 0;
    })
unfolding Follows emit watch_all watch_after watch open_sentence IsLength
closed-Follows s (calls, len) e = (rw (calls, e) refl, refl)

end_sentence-Follows : (s : State) → Follows s → Follows (end_sentence s)
unfolding end_sentence
end_sentence-Follows s f = if-lem Follows s.in_sentence _ _ (closed-Follows s f) λ e. f

end_paragraph-Follows : (s : State) → Follows s → Follows (end_paragraph s)
unfolding end_paragraph no_quotes IsNeutral watch
end_paragraph-Follows s f =
    if-lem Follows s.in_paragraph _ _
      (λ e.
        same-Follows _ _
          (emit-Follows Stream.end_paragraph _ (λ o. refl) (end_sentence-Follows s f)) refl refl
          refl)
      λ e. f

begin_paragraph-Follows : (s : State) → Follows s → Follows (begin_paragraph s)
unfolding begin_paragraph no_quotes IsNeutral watch
begin_paragraph-Follows s f =
    emit-Follows Stream.begin_paragraph _ (λ o. refl)
      (same-Follows _ _ (end_paragraph-Follows s f) refl refl refl)

abbrev IsClosed : State → Type 0
IsClosed s = s.in_sentence ≡ false

abbrev pub IsOpen : State → Type 0
IsOpen s = s.in_sentence ≡ true

end_sentence-IsClosed : (s : State) → IsClosed (end_sentence s)
unfolding end_sentence emit
end_sentence-IsClosed s = if-lem IsClosed s.in_sentence _ _ (λ e. refl) λ e. e

sentence_paragraph-Follows : (s : State) → Follows s → Follows (sentence_paragraph s)
unfolding sentence_paragraph ensure_paragraph
sentence_paragraph-Follows s f =
    if-lem Follows s.in_heading _ _ (λ e. f)
      λ e.
        if-lem Follows s.in_list _ _ (λ e. f)
          λ e. if-lem Follows s.in_paragraph _ _ (λ e. f) λ e. begin_paragraph-Follows s f

sentence_paragraph-IsClosed : (s : State) → IsClosed s → IsClosed (sentence_paragraph s)
unfolding sentence_paragraph ensure_paragraph begin_paragraph end_paragraph emit no_quotes
sentence_paragraph-IsClosed s closed =
    if-lem IsClosed s.in_heading _ _ (λ e. closed)
      λ e.
        if-lem IsClosed s.in_list _ _ (λ e. closed)
          λ e.
            if-lem IsClosed s.in_paragraph _ _ (λ e. closed)
              λ e. if-lem IsClosed s.in_paragraph _ _ (λ e. end_sentence-IsClosed s) λ e. closed

closed_length : (b : Bool) (n : ℕ) → b ≡ false → IsLength b n → n ≡ 0
unfolding IsLength
closed_length false n e l = l
closed_length true n e l = ground arith

open_length : (b : Bool) (n : ℕ) → b ≡ true → IsLength b n → n < max_sentence_length
unfolding IsLength
open_length true n e l = l
open_length false n e l = omega arith

opened-Follows :
    (s : State)
    → Follows s
    → IsClosed s
    → Follows
        (emit Stream.begin_sentence (record s { in_sentence = true; seen_terminator = false }))
unfolding Follows emit watch_all watch_after watch open_sentence IsLength
opened-Follows s (calls, len) closed =
    let none_yet = closed_length s.in_sentence s.sentence_length closed len in
    (rw (calls, closed, none_yet) refl, rw none_yet (omega arith))

begin_sentence-Follows : (s : State) → Follows s → IsClosed s → Follows (begin_sentence s)
unfolding begin_sentence
begin_sentence-Follows s f closed =
    opened-Follows (sentence_paragraph s) (sentence_paragraph-Follows s f)
      (sentence_paragraph-IsClosed s closed)

ensure_sentence-Follows : (s : State) → Follows s → Follows (ensure_sentence s)
unfolding ensure_sentence
ensure_sentence-Follows s f = if-lem Follows s.in_sentence _ _ (λ e. f) (begin_sentence-Follows s f)

pub ensure_sentence-IsOpen : (s : State) → IsOpen (ensure_sentence s)
unfolding ensure_sentence begin_sentence emit
ensure_sentence-IsOpen s = if-lem IsOpen s.in_sentence _ _ (λ e. e) λ e. refl
