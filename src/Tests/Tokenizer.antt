-- ===== src/Tests/Tokenizer.antt =====
-- The tokenizer at concrete inputs.
use libschwa.Prelude.{ℕ, ◌≡◌, refl, Bool, true, none, some, List, [], ◌∷◌, ◌==◌, if◌then◌else◌}
use libschwa.Tokenizer.Stream
use libschwa.Tokenizer.Run
use libschwa.Tokenizer.Run.{Action, tokenize}
use libschwa.Tokenizer.Sentences.{Follows}
use libschwa.Tokenizer.Nesting.{lay_all}
use libschwa.Tokenizer.Nesting.Whole.{nothing_open, tokenize-closes}
use libschwa.Tokenizer.Sentences.Whole.{tokenize-Follows}

-- The calls for the text "Go. It", of which the machine makes the same whatever the bytes are.
machine : (ℕ → ℕ) → ℕ → ℕ → List Action × Bool
machine byte data_at eof = (
  Run.match 100 102 none none 0
      ∷ Run.word_token Stream.word none
      ∷ Run.match 102 103 none none 0
      ∷ Run.terminate none
      ∷ Run.match 104 106 none none 0
      ∷ Run.word_token Stream.word none
      ∷ [],
  true,
)

-- The bytes at which the words begin.
byte : ℕ → ℕ
byte n = if n == 104 then 73 else 71

text_events : (tokenize machine byte 100 6).1.dest ≡ (
    Stream.end_document
    ∷ Stream.end_paragraph
    ∷ Stream.end_sentence
    ∷ Stream.add Stream.word 4 2 none
    ∷ Stream.begin_sentence
    ∷ Stream.end_sentence
    ∷ Stream.add Stream.terminator 2 1 none
    ∷ Stream.add Stream.word 0 2 none
    ∷ Stream.begin_sentence
    ∷ Stream.begin_paragraph
    ∷ Stream.begin_document
    ∷ [])
unfolding tokenize machine byte
text_events = refl

tokenize-Follows_example : Follows ((tokenize machine byte 100 6).1)
tokenize-Follows_example = tokenize-Follows machine byte 100 6

tokenize-closes_example : lay_all (tokenize machine byte 100 6).1.dest ≡ some nothing_open
tokenize-closes_example = tokenize-closes machine byte 100 6 (unfold machine in refl)
