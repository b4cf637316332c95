-- ===== src/Tokenizer/Run.antt =====
-- Tokenizer::tokenize over a buffer, of src/lib/schwa/tokenizer/tokenizer_gen.cc, and the calls that its
-- machine makes.
use libschwa.Prelude.{ℕ, ◌+◌, Bool, Option, List, [], ◌∷◌, if◌then◌else◌}
use libschwa.Tokenizer.Stream.{TokenType}
use libschwa.Tokenizer.State
use libschwa.Tokenizer.Actions
use libschwa.Tokenizer.Actions.{S}

-- What the machine may do: set the registers, or call one of the functions. `word_token`, `end_token` and
-- `terminate` are _word, _end and _terminator; a paragraph ends at a blank line or at a tag; the depth of a
-- heading is what strtol reads in its tag.
pub data Action : Type 0 where
  match : ℕ → ℕ → Option (List ℕ) → Option (List ℕ) → ℕ → Action
  word_token punct end_token : TokenType → Option (List ℕ) → Action
  split : TokenType → TokenType → Option (List ℕ) → Option (List ℕ) → Action
  terminate : Option (List ℕ) → Action
  error single_quote double_quote open_single_quote close_single_quote open_double_quote : Action
  close_double_quote end_paragraph begin_paragraph begin_list end_list begin_item end_item : Action
  begin_heading end_heading : ℕ → Action
  dash_or_item number_or_item : Action

module _ (byte : ℕ → ℕ) (eof : ℕ) where
  unfoldable pub step : Action → S → S
  unfolding State.error State.end_paragraph State.begin_paragraph State.begin_list State.end_list
      State.begin_item State.end_item State.begin_heading State.end_heading Actions.word_token
      Actions.punct Actions.end_token Actions.split_token Actions.terminate Actions.single_quote
      Actions.double_quote Actions.open_single_quote Actions.close_single_quote
      Actions.open_double_quote Actions.close_double_quote Actions.dash_or_item
      Actions.number_or_item
  step (match begin end first second len) s = record s {
    ts = begin;
    te = end;
    n1 = first;
    n2 = second;
    suffix = len;
  }
  step (word_token type norm) s = Actions.word_token byte type norm s
  step (punct type norm) s = Actions.punct type norm s
  step (end_token type norm) s = Actions.end_token type norm s
  step (split type1 type2 norm1 norm2) s = Actions.split_token byte type1 type2 norm1 norm2 s
  step (terminate norm) s = Actions.terminate norm s
  step error s = State.error s
  step single_quote s = Actions.single_quote byte eof s
  step double_quote s = Actions.double_quote s
  step open_single_quote s = Actions.open_single_quote s
  step close_single_quote s = Actions.close_single_quote s
  step open_double_quote s = Actions.open_double_quote s
  step close_double_quote s = Actions.close_double_quote s
  step end_paragraph s = State.end_paragraph s
  step begin_paragraph s = State.begin_paragraph s
  step begin_list s = State.begin_list s
  step end_list s = State.end_list s
  step begin_item s = State.begin_item s
  step end_item s = State.end_item s
  step (begin_heading depth) s = State.begin_heading depth s
  step (end_heading depth) s = State.end_heading depth s
  step dash_or_item s = Actions.dash_or_item s
  step number_or_item s = Actions.number_or_item byte s

  unfoldable pub run : List Action → S → S
  unfolding step
  run [] s = s
  run (a ∷ actions) s = run actions (step a s)

-- What the machine does over a text, and whether it came to the end of it.
module _ (machine : (ℕ → ℕ) → ℕ → ℕ → List Action × Bool) where
  unfoldable pub tokenize : (ℕ → ℕ) → ℕ → ℕ → Bool × S
  unfolding run State.begin_document State.end_document
  tokenize byte data_at len =
      let eof = data_at + len in
      let begun = State.begin_document (record State.new_state { offset = data_at }) in
      let found = machine byte data_at eof in
      let s = run byte eof found.0 begun in (found.1, if found.1 then State.end_document s else s)
