-- ===== src/Tokenizer/Stream.antt =====
-- Type of src/lib/schwa/tokenizer/common.h and the calls of a Stream of stream.h.
use libschwa.Prelude.{ℕ, Option, List}

pub data TokenType : Type 0 where
  word number unit abbreviation contraction possessive punctuation quote dash terminator : TokenType

-- A token has its beginning, its length and its normal form, if there is one; its bytes are those at its
-- beginning.
pub data Event : Type 0 where
  add : TokenType → ℕ → ℕ → Option (List ℕ) → Event
  error : ℕ → ℕ → Event
  begin_sentence end_sentence begin_list end_list begin_item end_item : Event
  begin_paragraph end_paragraph begin_document end_document : Event
  begin_heading end_heading : ℕ → Event
