-- ===== src/Tokenizer/Sentences/Whole.antt =====
-- Tokenizer::tokenize over a buffer, of tokenizer_gen.cc, and the functions of tokenizer.cc: what the
-- stream is given.
use libschwa.Prelude.{ℕ, refl, Bool, List, ◌+◌}
use libschwa.Tokenizer.Stream
use libschwa.Tokenizer.Stream.{TokenType, word, number, punctuation, quote, dash, terminator}
use libschwa.Tokenizer.State
use libschwa.Tokenizer.Run.{Action, tokenize}
use libschwa.Tokenizer.State.{
  State, emit, no_quotes, end_sentence, end_paragraph, begin_paragraph, ensure_paragraph,
  sentence_paragraph, begin_sentence, ensure_sentence, check_sentence_length, clear_norms, add,
  split, flush_sentence, begin_document, begin_heading, end_heading, end_item, end_list, begin_list,
  ensure_list, begin_item, end_document, max_sentence_length, new_state,
}
use libschwa.Tokenizer.Kept.{Kept, run-Kept}
use libschwa.Tokenizer.Sentences.{
  watch, Follows, IsNeutral, emit-Follows, same-Follows, if-lem, end_paragraph-Follows,
  begin_paragraph-Follows, ensure_sentence-Follows,
}
use libschwa.Tokenizer.Sentences.Tokens.{add-Follows, split-Follows}
use libschwa.Tokenizer.Sentences.Structure.{
  flush_sentence-Follows, begin_heading-Follows, end_heading-Follows, end_item-Follows,
  end_list-Follows, begin_list-Follows, begin_item-Follows, end_document-Follows,
  begin_document-Follows,
}

Follows-Kept : Kept Follows
unfolding State.error IsNeutral watch
Follows-Kept = record {
  same = λ s t f d i l _ _ _. same-Follows s t f d i l;
  keeps_ensure_sentence = ensure_sentence-Follows;
  keeps_flush_sentence = flush_sentence-Follows;
  keeps_error = λ s f. emit-Follows (Stream.error _ _) s (λ o. refl) f;
  keeps_begin_paragraph = begin_paragraph-Follows;
  keeps_end_paragraph = end_paragraph-Follows;
  keeps_begin_list = begin_list-Follows;
  keeps_end_list = end_list-Follows;
  keeps_begin_item = begin_item-Follows;
  keeps_end_item = end_item-Follows;
  keeps_begin_heading = begin_heading-Follows;
  keeps_end_heading = end_heading-Follows;
  keeps_add = add-Follows;
  keeps_split = split-Follows;
}

-- Whatever the machine finds in a text, tokenize gives the stream a sentence only when none is open, and a
-- token or the end of a sentence only when one is; no sentence gets more than 256 tokens; and the state that
-- tokenize leaves says whether a sentence is open and how many tokens it has, at most 255.
pub tokenize-Follows :
    (machine : (ℕ → ℕ) → ℕ → ℕ → List Action × Bool) (byte : ℕ → ℕ) (data_at len : ℕ)
    → Follows ((tokenize machine byte data_at len).1)
unfolding tokenize
tokenize-Follows machine byte data_at len =
    let found = machine byte data_at (data_at + len) in
    let f = run-Kept Follows-Kept byte (data_at + len) found.0 _ (begin_document-Follows data_at) in
    if-lem Follows found.1 _ _ (λ e. end_document-Follows _ f) λ e. f
