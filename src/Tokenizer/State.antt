-- ===== src/Tokenizer/State.antt =====
-- State of src/lib/schwa/tokenizer/tokenizer_state.h.
use libschwa.Prelude.{
  ℕ, suc, ◌-◌, Bool, true, false, Option, none, some, List, [], ◌∷◌, leb, if◌then◌else◌,
}
use libschwa.Tokenizer.Stream
use libschwa.Tokenizer.Stream.{TokenType, Event}

-- `ts`, `te` and `offset` are addresses. The registers that only the machine reads are left out. `dest` is
-- what the stream was told, the last call first.
pub record State : Type 0 where
  pub ts : ℕ
  pub te : ℕ
  pub offset : ℕ
  pub n1 : Option (List ℕ)
  pub n2 : Option (List ℕ)
  pub suffix : ℕ
  pub in_document : Bool
  pub in_heading : Bool
  pub in_paragraph : Bool
  pub in_list : Bool
  pub in_item : Bool
  pub in_sentence : Bool
  pub seen_terminator : Bool
  pub in_double_quotes : Bool
  pub in_single_quotes : Bool
  pub sentence_length : ℕ
  pub dest : List Event

abbrev pub max_sentence_length : ℕ
max_sentence_length = 256

unfoldable pub emit : Event → State → State
emit e s = record s { dest = e ∷ s.dest }

unfoldable pub no_quotes : State → State
no_quotes s = record s { in_double_quotes = false; in_single_quotes = false }

-- `norm ? norm : n1`.
unfoldable pub or_norm : Option (List ℕ) → Option (List ℕ) → Option (List ℕ)
or_norm none n = n
or_norm (some norm) n = some norm

-- The constructor State().
abbrev pub new_state : State
new_state = record {
  ts = 0;
  te = 0;
  offset = 0;
  n1 = none;
  n2 = none;
  suffix = 0;
  in_document = false;
  in_heading = false;
  in_paragraph = false;
  in_list = false;
  in_item = false;
  in_sentence = false;
  seen_terminator = false;
  in_double_quotes = false;
  in_single_quotes = false;
  sentence_length = 0;
  dest = [];
}

unfoldable pub error : State → State
unfolding emit
error s = emit (Stream.error (s.ts - s.offset) (s.te - s.ts)) s

unfoldable pub end_sentence : State → State
unfolding emit
end_sentence s =
    if s.in_sentence
    then record (emit Stream.end_sentence s) {
      seen_terminator = false;
      in_sentence = false;
      sentence_length = 0;
    }
    else s

unfoldable pub end_paragraph : State → State
unfolding emit no_quotes end_sentence
end_paragraph s =
    if s.in_paragraph
    then record (no_quotes (emit Stream.end_paragraph (end_sentence s))) { in_paragraph = false }
    else s

unfoldable pub begin_paragraph : State → State
unfolding emit no_quotes end_paragraph
begin_paragraph s =
    emit Stream.begin_paragraph (no_quotes (record (end_paragraph s) { in_paragraph = true }))

unfoldable pub ensure_paragraph : State → State
unfolding begin_paragraph
ensure_paragraph s = if s.in_paragraph then s else begin_paragraph s

-- The paragraph of a sentence outside headings and lists.
unfoldable pub sentence_paragraph : State → State
unfolding ensure_paragraph
sentence_paragraph s = if s.in_heading then s else if s.in_list then s else ensure_paragraph s

unfoldable pub begin_sentence : State → State
unfolding emit sentence_paragraph
begin_sentence s =
    emit Stream.begin_sentence
      (record (sentence_paragraph s) { in_sentence = true; seen_terminator = false })

unfoldable pub ensure_sentence : State → State
unfolding begin_sentence
ensure_sentence s = if s.in_sentence then s else begin_sentence s

unfoldable pub check_sentence_length : State → State
unfolding end_sentence ensure_sentence
check_sentence_length s =
    let t : State = record s { sentence_length = suc s.sentence_length } in
    if leb max_sentence_length t.sentence_length then ensure_sentence (end_sentence t) else t

-- The end of `add` and of `split`.
unfoldable pub clear_norms : State → State
clear_norms s = record s { n1 = none; n2 = none; suffix = 0 }

unfoldable pub add : TokenType → Option (List ℕ) → State → State
unfolding emit or_norm check_sentence_length clear_norms
add type norm s = clear_norms (
    check_sentence_length
      (emit (Stream.add type (s.ts - s.offset) (s.te - s.ts) (or_norm norm s.n1)) s))

-- Neither call in between changes `te`, `suffix` or `n2`.
unfoldable pub split : TokenType → TokenType → Option (List ℕ) → Option (List ℕ) → State → State
unfolding emit or_norm check_sentence_length clear_norms
split type1 type2 norm1 norm2 s =
    let middle = s.te - s.suffix in
    let first =
      check_sentence_length
        (emit (Stream.add type1 (s.ts - s.offset) (middle - s.ts) (or_norm norm1 s.n1)) s) in
    clear_norms (
      check_sentence_length
        (emit (Stream.add type2 (middle - s.offset) (s.te - middle) (or_norm norm2 s.n2)) first))

unfoldable pub flush_sentence : State → State
unfolding end_sentence
flush_sentence s = record (if s.seen_terminator then end_sentence s else s) {
  seen_terminator = false;
}

unfoldable pub begin_document : State → State
unfolding emit no_quotes
begin_document s =
    record (no_quotes (emit Stream.begin_document (record s { in_document = true }))) {
      seen_terminator = false;
      in_item = false;
      in_list = false;
      in_heading = false;
      in_paragraph = false;
      in_sentence = false;
    }

unfoldable pub begin_heading : ℕ → State → State
unfolding emit no_quotes end_paragraph
begin_heading depth s =
    emit (Stream.begin_heading depth) (no_quotes (record (end_paragraph s) { in_heading = true }))

unfoldable pub end_heading : ℕ → State → State
unfolding emit no_quotes end_sentence
end_heading depth s =
    if s.in_heading
    then record (no_quotes (emit (Stream.end_heading depth) (end_sentence s))) {
      in_heading = false;
    }
    else s

unfoldable pub end_item : State → State
unfolding emit end_sentence
end_item s =
    if s.in_item then record (emit Stream.end_item (end_sentence s)) { in_item = false } else s

unfoldable pub end_list : State → State
unfolding emit no_quotes end_item
end_list s =
    if s.in_list
    then record (no_quotes (emit Stream.end_list (end_item s))) { in_list = false }
    else s

unfoldable pub begin_list : State → State
unfolding emit no_quotes end_list
begin_list s = emit Stream.begin_list (no_quotes (record (end_list s) { in_list = true }))

unfoldable pub ensure_list : State → State
unfolding begin_list
ensure_list s = if s.in_list then s else begin_list s

unfoldable pub begin_item : State → State
unfolding emit end_item ensure_list
begin_item s = emit Stream.begin_item (record (ensure_list (end_item s)) { in_item = true })

unfoldable pub ensure_item : State → State
unfolding begin_list
ensure_item s = if s.in_item then s else begin_list s

unfoldable pub end_document : State → State
unfolding emit end_paragraph end_list
end_document s = record (emit Stream.end_document (end_list (end_paragraph s))) {
  in_document = false;
}
