-- ===== src/Tokenizer/Sentences/Structure.antt =====
-- The paragraphs, headings, lists, items and documents of tokenizer_state.h: what they do to sentences.
use libschwa.Prelude.{ℕ, refl}
use libschwa.Tokenizer.Stream
use libschwa.Tokenizer.State.{
  State, emit, no_quotes, end_paragraph, flush_sentence, begin_document, begin_heading, end_heading,
  end_item, end_list, begin_list, ensure_list, begin_item, end_document, new_state,
}
use libschwa.Tokenizer.Sentences.{
  watch, watch_all, watch_after, open_sentence, IsLength, Follows, IsNeutral, emit-Follows,
  same-Follows, if-lem, end_sentence-Follows, end_paragraph-Follows,
}

pub flush_sentence-Follows : (s : State) → Follows s → Follows (flush_sentence s)
unfolding flush_sentence
flush_sentence-Follows s f =
    same-Follows _ _ (if-lem Follows s.seen_terminator _ _ (λ e. end_sentence-Follows s f) λ e. f)
      refl refl refl

pub begin_heading-Follows : (depth : ℕ) (s : State) → Follows s → Follows (begin_heading depth s)
unfolding begin_heading no_quotes IsNeutral watch
begin_heading-Follows depth s f =
    emit-Follows (Stream.begin_heading depth) _ (λ o. refl)
      (same-Follows _ _ (end_paragraph-Follows s f) refl refl refl)

pub end_heading-Follows : (depth : ℕ) (s : State) → Follows s → Follows (end_heading depth s)
unfolding end_heading no_quotes IsNeutral watch
end_heading-Follows depth s f =
    if-lem Follows s.in_heading _ _
      (λ e.
        same-Follows _ _
          (emit-Follows (Stream.end_heading depth) _ (λ o. refl) (end_sentence-Follows s f)) refl
          refl refl)
      λ e. f

pub end_item-Follows : (s : State) → Follows s → Follows (end_item s)
unfolding end_item IsNeutral watch
end_item-Follows s f =
    if-lem Follows s.in_item _ _
      (λ e.
        same-Follows _ _ (emit-Follows Stream.end_item _ (λ o. refl) (end_sentence-Follows s f))
          refl refl refl)
      λ e. f

pub end_list-Follows : (s : State) → Follows s → Follows (end_list s)
unfolding end_list no_quotes IsNeutral watch
end_list-Follows s f =
    if-lem Follows s.in_list _ _
      (λ e.
        same-Follows _ _ (emit-Follows Stream.end_list _ (λ o. refl) (end_item-Follows s f)) refl
          refl refl)
      λ e. f

pub begin_list-Follows : (s : State) → Follows s → Follows (begin_list s)
unfolding begin_list no_quotes IsNeutral watch
begin_list-Follows s f =
    emit-Follows Stream.begin_list _ (λ o. refl)
      (same-Follows _ _ (end_list-Follows s f) refl refl refl)

pub ensure_list-Follows : (s : State) → Follows s → Follows (ensure_list s)
unfolding ensure_list
ensure_list-Follows s f = if-lem Follows s.in_list _ _ (λ e. f) λ e. begin_list-Follows s f

pub begin_item-Follows : (s : State) → Follows s → Follows (begin_item s)
unfolding begin_item IsNeutral watch
begin_item-Follows s f =
    emit-Follows Stream.begin_item _ (λ o. refl)
      (same-Follows _ _ (ensure_list-Follows (end_item s) (end_item-Follows s f)) refl refl refl)

pub end_document-Follows : (s : State) → Follows s → Follows (end_document s)
unfolding end_document IsNeutral watch
end_document-Follows s f =
    same-Follows _ _
      (emit-Follows Stream.end_document _ (λ o. refl)
        (end_list-Follows (end_paragraph s) (end_paragraph-Follows s f)))
      refl refl refl

pub begin_document-Follows :
    (offset : ℕ) → Follows (begin_document (record new_state { offset = offset }))
unfolding begin_document no_quotes Follows emit watch_all watch_after watch open_sentence IsLength
begin_document-Follows offset = (refl, refl)
