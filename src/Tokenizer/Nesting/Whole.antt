-- ===== src/Tokenizer/Nesting/Whole.antt =====
-- Tokenizer::tokenize over a buffer, of tokenizer_gen.cc: what it opens it closes.
use libschwa.Prelude.{ℕ, ◌≡◌, refl, Bool, true, false, Option, some, List, ◌+◌, ◌∙◌, suc, leb}
use libschwa.Tokenizer.Stream
use libschwa.Tokenizer.Stream.{TokenType, Event}
use libschwa.Tokenizer.State
use libschwa.Tokenizer.State.{
  State, emit, no_quotes, end_sentence, end_paragraph, begin_paragraph, ensure_paragraph,
  sentence_paragraph, begin_sentence, ensure_sentence, check_sentence_length, clear_norms, add,
  split, flush_sentence, begin_document, begin_heading, end_heading, end_item, end_list, begin_list,
  ensure_list, begin_item, end_document, new_state, max_sentence_length,
}
use libschwa.Tokenizer.Sentences.{if-lem, IsOpen}
use libschwa.Tokenizer.Kept.{Kept, run-Kept}
use libschwa.Tokenizer.Run.{Action, tokenize}
use libschwa.Tokenizer.Nesting.{
  lay, lay_after, lay_all, IsLaid, IsNeutral, Layout, same-IsLaid, emit-IsLaid, end_sentence-IsLaid,
  begin_paragraph-IsLaid, end_paragraph-IsLaid, end_paragraph-closes,
}
use libschwa.Tokenizer.Nesting.Lists.{
  begin_list-IsLaid, end_list-IsLaid, end_list-closes, end_list-in_paragraph, begin_item-IsLaid,
  end_item-IsLaid,
}

sentence_paragraph-IsLaid : (s : State) → IsLaid s → IsLaid (sentence_paragraph s)
unfolding sentence_paragraph ensure_paragraph
sentence_paragraph-IsLaid s h =
    if-lem IsLaid s.in_heading _ _ (λ e. h)
      λ e.
        if-lem IsLaid s.in_list _ _ (λ e. h)
          λ e. if-lem IsLaid s.in_paragraph _ _ (λ e. h) λ e. begin_paragraph-IsLaid s h

ensure_sentence-IsLaid : (s : State) → IsLaid s → IsLaid (ensure_sentence s)
unfolding ensure_sentence begin_sentence IsNeutral lay
ensure_sentence-IsLaid s h =
    if-lem IsLaid s.in_sentence _ _ (λ e. h)
      λ e.
        emit-IsLaid Stream.begin_sentence _ (λ l. refl)
          (same-IsLaid _ _ (sentence_paragraph-IsLaid s h) refl refl refl refl)

check_sentence_length-IsLaid : (s : State) → IsLaid s → IsLaid (check_sentence_length s)
unfolding check_sentence_length
check_sentence_length-IsLaid s h =
    let longer =
      same-IsLaid s (record s { sentence_length = suc s.sentence_length }) h refl refl refl refl in
    if-lem IsLaid (leb max_sentence_length (suc s.sentence_length)) _ _
      (λ e. ensure_sentence-IsLaid _ (end_sentence-IsLaid _ longer)) λ e. longer

token-IsLaid :
    (type : TokenType) (at len : ℕ) (norm : Option (List ℕ)) (s : State)
    → IsLaid s
    → IsLaid (check_sentence_length (emit (Stream.add type at len norm) s))
unfolding IsNeutral lay
token-IsLaid type at len norm s h = check_sentence_length-IsLaid _ (emit-IsLaid _ s (λ l. refl) h)

add-IsLaid :
    (type : TokenType) (norm : Option (List ℕ)) (s : State)
    → IsLaid s
    → IsOpen s
    → IsLaid (add type norm s)
unfolding add clear_norms
add-IsLaid type norm s h opened = same-IsLaid _ _ (token-IsLaid type _ _ _ s h) refl refl refl refl

split-IsLaid :
    (type1 type2 : TokenType) (norm1 norm2 : Option (List ℕ)) (s : State)
    → IsLaid s
    → IsOpen s
    → IsLaid (split type1 type2 norm1 norm2 s)
unfolding split clear_norms
split-IsLaid type1 type2 norm1 norm2 s h opened =
    same-IsLaid _ _ (token-IsLaid type2 _ _ _ _ (token-IsLaid type1 _ _ _ s h)) refl refl refl refl

flush_sentence-IsLaid : (s : State) → IsLaid s → IsLaid (flush_sentence s)
unfolding flush_sentence
flush_sentence-IsLaid s h =
    same-IsLaid _ _ (if-lem IsLaid s.seen_terminator _ _ (λ e. end_sentence-IsLaid s h) λ e. h) refl
      refl refl refl

begin_heading-IsLaid : (depth : ℕ) (s : State) → IsLaid s → IsLaid (begin_heading depth s)
unfolding begin_heading no_quotes IsNeutral lay
begin_heading-IsLaid depth s h =
    emit-IsLaid (Stream.begin_heading depth) _ (λ l. refl)
      (same-IsLaid _ _ (end_paragraph-IsLaid s h) refl refl refl refl)

end_heading-IsLaid : (depth : ℕ) (s : State) → IsLaid s → IsLaid (end_heading depth s)
unfolding end_heading no_quotes IsNeutral lay
end_heading-IsLaid depth s h =
    if-lem IsLaid s.in_heading _ _
      (λ e.
        same-IsLaid _ _
          (emit-IsLaid (Stream.end_heading depth) _ (λ l. refl) (end_sentence-IsLaid s h)) refl refl
          refl refl)
      λ e. h

IsLaid-Kept : Kept IsLaid
unfolding State.error IsNeutral lay
IsLaid-Kept = record {
  same = λ s t h d _ _ p l i. same-IsLaid s t h d p l i;
  keeps_ensure_sentence = ensure_sentence-IsLaid;
  keeps_flush_sentence = flush_sentence-IsLaid;
  keeps_error = λ s h. emit-IsLaid (Stream.error _ _) s (λ l. refl) h;
  keeps_begin_paragraph = begin_paragraph-IsLaid;
  keeps_end_paragraph = end_paragraph-IsLaid;
  keeps_begin_list = begin_list-IsLaid;
  keeps_end_list = end_list-IsLaid;
  keeps_begin_item = begin_item-IsLaid;
  keeps_end_item = end_item-IsLaid;
  keeps_begin_heading = begin_heading-IsLaid;
  keeps_end_heading = end_heading-IsLaid;
  keeps_add = add-IsLaid;
  keeps_split = split-IsLaid;
}

begin_document-IsLaid :
    (offset : ℕ) → IsLaid (begin_document (record new_state { offset = offset }))
unfolding begin_document no_quotes IsLaid emit lay_all lay_after lay
begin_document-IsLaid offset = (refl, λ _. refl)

-- Nothing is open.
abbrev pub nothing_open : Layout
nothing_open = record { paragraph = false; list = false; item = false }

closed-IsLaid :
    (s : State)
    → IsLaid s
    → s.in_paragraph ≡ false
    → s.in_list ≡ false
    → s.in_item ≡ false
    → lay_all s.dest ≡ some nothing_open
unfolding IsLaid
closed-IsLaid s (calls, items) p l i = rw (calls, p, l, i) refl

end_document-closes : (s : State) → IsLaid s → lay_all (end_document s).dest ≡ some nothing_open
unfolding end_document emit lay_all lay_after lay
end_document-closes s h =
    let laid = end_paragraph-IsLaid s h in
    let (l, i) = end_list-closes (end_paragraph s) laid in
    let p = end_list-in_paragraph (end_paragraph s) ∙ end_paragraph-closes s in
    rw (closed-IsLaid _ (end_list-IsLaid (end_paragraph s) laid) p l i) refl

-- When the machine comes to the end of a text, whatever it found in it, tokenize has ended every paragraph,
-- list and item that it began; none was begun in another one of its kind, and an item only in a list, which
-- ended after it. A paragraph and a list may overlap.
pub tokenize-closes :
    (machine : (ℕ → ℕ) → ℕ → ℕ → List Action × Bool) (byte : ℕ → ℕ) (data_at len : ℕ)
    → (machine byte data_at (data_at + len)).1 ≡ true
    → lay_all (tokenize machine byte data_at len).1.dest ≡ some nothing_open
unfolding tokenize
tokenize-closes machine byte data_at len finished =
    let found = machine byte data_at (data_at + len) in
    rw finished (
      end_document-closes _
        (run-Kept IsLaid-Kept byte (data_at + len) found.0 _ (begin_document-IsLaid data_at)))
