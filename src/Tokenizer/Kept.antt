-- ===== src/Tokenizer/Kept.antt =====
-- What the functions of tokenizer.cc keep when those of tokenizer_state.h keep it.
use libschwa.Prelude.{ℕ, ◌≡◌, refl, Option, none, some, List, [], ◌∷◌, ◌&&◌, ◌||◌, not, ◌==◌}
use libschwa.Tokenizer.Stream.{TokenType, number, punctuation, quote, dash, terminator}
use libschwa.Tokenizer.State
use libschwa.Tokenizer.State.{State}
use libschwa.Tokenizer.Actions
use libschwa.Tokenizer.Run
use libschwa.Tokenizer.Run.{Action, step, run}
use libschwa.Tokenizer.Sentences.{if-lem, IsOpen, ensure_sentence-IsOpen}

-- A predicate on the stream and on the flags of the structure that every function keeps.
pub record Kept (P : State → Type 0) : Type 0 where
  pub same :
      (s t : State)
      → P s
      → t.dest ≡ s.dest
      → t.in_sentence ≡ s.in_sentence
      → t.sentence_length ≡ s.sentence_length
      → t.in_paragraph ≡ s.in_paragraph
      → t.in_list ≡ s.in_list
      → t.in_item ≡ s.in_item
      → P t
  pub keeps_ensure_sentence : (s : State) → P s → P (State.ensure_sentence s)
  pub keeps_flush_sentence : (s : State) → P s → P (State.flush_sentence s)
  pub keeps_error : (s : State) → P s → P (State.error s)
  pub keeps_begin_paragraph : (s : State) → P s → P (State.begin_paragraph s)
  pub keeps_end_paragraph : (s : State) → P s → P (State.end_paragraph s)
  pub keeps_begin_list : (s : State) → P s → P (State.begin_list s)
  pub keeps_end_list : (s : State) → P s → P (State.end_list s)
  pub keeps_begin_item : (s : State) → P s → P (State.begin_item s)
  pub keeps_end_item : (s : State) → P s → P (State.end_item s)
  pub keeps_begin_heading : (depth : ℕ) (s : State) → P s → P (State.begin_heading depth s)
  pub keeps_end_heading : (depth : ℕ) (s : State) → P s → P (State.end_heading depth s)
  pub keeps_add :
      (type : TokenType) (norm : Option (List ℕ)) (s : State)
      → P s
      → IsOpen s
      → P (State.add type norm s)
  pub keeps_split :
      (type1 type2 : TokenType) (norm1 norm2 : Option (List ℕ)) (s : State)
      → P s
      → IsOpen s
      → P (State.split type1 type2 norm1 norm2 s)

module _ {P : State → Type 0} (k : Kept P) (byte : ℕ → ℕ) (eof : ℕ) where
  token-Kept :
      (type : TokenType) (norm : Option (List ℕ)) (s : State) → P s → P (Actions.token type norm s)
  unfolding Actions.token
  token-Kept type norm s f =
      k.keeps_add type norm _ (k.keeps_ensure_sentence s f) (ensure_sentence-IsOpen s)

  punct-Kept :
      (type : TokenType) (norm : Option (List ℕ)) (s : State) → P s → P (Actions.punct type norm s)
  unfolding Actions.punct
  punct-Kept type norm s f = token-Kept type norm _ (k.keeps_flush_sentence s f)

  end_token-Kept :
      (type : TokenType) (norm : Option (List ℕ)) (s : State)
      → P s
      → P (Actions.end_token type norm s)
  unfolding Actions.end_token
  end_token-Kept type norm s f = token-Kept type norm s f

  open_single_quote-Kept : (s : State) → P s → P (Actions.open_single_quote s)
  unfolding Actions.open_single_quote
  open_single_quote-Kept s f =
      k.same _ _ (punct-Kept quote (some Actions.back_quote) s f) refl refl refl refl refl refl

  close_single_quote-Kept : (s : State) → P s → P (Actions.close_single_quote s)
  unfolding Actions.close_single_quote
  close_single_quote-Kept s f =
      k.same _ _ (end_token-Kept quote (some Actions.apostrophe) s f) refl refl refl refl refl refl

  open_double_quote-Kept : (s : State) → P s → P (Actions.open_double_quote s)
  unfolding Actions.open_double_quote
  open_double_quote-Kept s f =
      k.same _ _ (punct-Kept quote (some Actions.back_quotes) s f) refl refl refl refl refl refl

  close_double_quote-Kept : (s : State) → P s → P (Actions.close_double_quote s)
  unfolding Actions.close_double_quote
  close_double_quote-Kept s f =
      k.same _ _ (end_token-Kept quote (some Actions.apostrophes) s f) refl refl refl refl refl refl

  after_terminator-Kept :
      (type : TokenType) (s : State) → P s → P (Actions.after_terminator byte type s)
  unfolding Actions.after_terminator
  after_terminator-Kept type s f =
      if-lem P s.seen_terminator _ _
        (λ e.
          if-lem P (Actions.is_word type && Actions.is_upper_or_digit (byte s.ts)) _ _
            (λ e. k.keeps_flush_sentence s f) λ e. k.same _ _ f refl refl refl refl refl refl)
        λ e. f

  split_token-Kept :
      (type1 type2 : TokenType) (norm1 norm2 : Option (List ℕ)) (s : State)
      → P s
      → P (Actions.split_token byte type1 type2 norm1 norm2 s)
  unfolding Actions.split_token
  split_token-Kept type1 type2 norm1 norm2 s f =
      k.keeps_split type1 type2 norm1 norm2 _
        (k.keeps_ensure_sentence _ (after_terminator-Kept type1 s f))
        (ensure_sentence-IsOpen (Actions.after_terminator byte type1 s))

  step-Kept : (a : Action) (s : State) → P s → P (step byte eof a s)
  unfolding step Actions.word_token Actions.terminate Actions.single_quote Actions.double_quote
      Actions.dash_or_item Actions.number_or_item
  step-Kept (Run.match _ _ _ _ _) s f = k.same s _ f refl refl refl refl refl refl
  step-Kept (Run.word_token type norm) s f = token-Kept type norm _ (after_terminator-Kept type s f)
  step-Kept (Run.punct type norm) s f = punct-Kept type norm s f
  step-Kept (Run.end_token type norm) s f = end_token-Kept type norm s f
  step-Kept (Run.split type1 type2 norm1 norm2) s f = split_token-Kept type1 type2 norm1 norm2 s f
  step-Kept (Run.terminate norm) s f =
      end_token-Kept terminator norm _ (k.same s _ f refl refl refl refl refl refl)
  step-Kept Run.error s f = k.keeps_error s f
  step-Kept Run.single_quote s f =
      if-lem P (s.in_single_quotes || (s.te == eof) || not (Actions.is_alnum (byte s.te))) _ _
        (λ e. close_single_quote-Kept s f) λ e. open_single_quote-Kept s f
  step-Kept Run.double_quote s f =
      if-lem P s.in_double_quotes _ _ (λ e. close_double_quote-Kept s f)
        λ e. open_double_quote-Kept s f
  step-Kept Run.open_single_quote s f = open_single_quote-Kept s f
  step-Kept Run.close_single_quote s f = close_single_quote-Kept s f
  step-Kept Run.open_double_quote s f = open_double_quote-Kept s f
  step-Kept Run.close_double_quote s f = close_double_quote-Kept s f
  step-Kept Run.end_paragraph s f = k.keeps_end_paragraph s f
  step-Kept Run.begin_paragraph s f = k.keeps_begin_paragraph s f
  step-Kept Run.begin_list s f = k.keeps_begin_list s f
  step-Kept Run.end_list s f = k.keeps_end_list s f
  step-Kept Run.begin_item s f = k.keeps_begin_item s f
  step-Kept Run.end_item s f = k.keeps_end_item s f
  step-Kept (Run.begin_heading depth) s f = k.keeps_begin_heading depth s f
  step-Kept (Run.end_heading depth) s f = k.keeps_end_heading depth s f
  step-Kept Run.dash_or_item s f =
      if-lem P s.in_sentence _ _ (λ e. punct-Kept dash (some Actions.dashes) s f)
        λ e. k.keeps_begin_item s f
  step-Kept Run.number_or_item s f =
      if-lem P s.in_sentence _ _
        (λ e.
          k.same _ _ (split_token-Kept number punctuation none none s f) refl refl refl refl refl
            refl)
        λ e. k.keeps_begin_item s f

  pub run-Kept : (actions : List Action) (s : State) → P s → P (run byte eof actions s)
  unfolding run
  run-Kept [] s f = f
  run-Kept (a ∷ actions) s f = run-Kept actions (step byte eof a s) (step-Kept a s f)
