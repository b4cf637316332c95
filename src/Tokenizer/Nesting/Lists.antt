-- ===== src/Tokenizer/Nesting/Lists.antt =====
-- The lists and items that the functions of tokenizer_state.h give the stream.
use libschwa.Prelude.{◌≡◌, refl, true, false, ◌∙◌}
use libschwa.Tokenizer.Stream
use libschwa.Tokenizer.Stream.{TokenType, Event}
use libschwa.Tokenizer.State.{
  State, emit, no_quotes, end_item, end_list, begin_list, ensure_list, begin_item,
}
use libschwa.Tokenizer.Sentences.{if-lem}
use libschwa.Tokenizer.Nesting.{
  lay, lay_after, lay_all, IsLaid, end_sentence-IsLaid, end_sentence_lem,
}

pub ended_item-IsLaid :
    (s : State)
    → IsLaid s
    → s.in_item ≡ true
    → IsLaid (record (emit Stream.end_item s) { in_item = false })
unfolding IsLaid emit lay_all lay_after lay
ended_item-IsLaid s (calls, items) e = (rw (calls, e) refl, λ _. refl)

pub end_item-IsLaid : (s : State) → IsLaid s → IsLaid (end_item s)
unfolding end_item
end_item-IsLaid s h =
    if-lem IsLaid s.in_item _ _
      (λ e.
        ended_item-IsLaid _ (end_sentence-IsLaid s h) (end_sentence_lem (λ p l i. i ≡ true) s e))
      λ e. h

pub end_item-closes : (s : State) → (end_item s).in_item ≡ false
unfolding end_item emit
end_item-closes s = if-lem (λ t. t.in_item ≡ false) s.in_item _ _ (λ e. refl) λ e. e

pub end_item-in_list : (s : State) → (end_item s).in_list ≡ s.in_list
unfolding end_item emit
end_item-in_list s =
    if-lem (λ t. t.in_list ≡ s.in_list) s.in_item _ _
      (λ e. end_sentence_lem (λ p l i. l ≡ s.in_list) s refl) λ e. refl

pub ended_list-IsLaid :
    (s : State)
    → IsLaid s
    → s.in_list ≡ true
    → s.in_item ≡ false
    → IsLaid (record (no_quotes (emit Stream.end_list s)) { in_list = false })
unfolding IsLaid emit no_quotes lay_all lay_after lay
ended_list-IsLaid s (calls, items) l i = (rw (calls, l, i) refl, λ _. i)

pub end_list-IsLaid : (s : State) → IsLaid s → IsLaid (end_list s)
unfolding end_list
end_list-IsLaid s h =
    if-lem IsLaid s.in_list _ _
      (λ e. ended_list-IsLaid _ (end_item-IsLaid s h) (end_item-in_list s ∙ e) (end_item-closes s))
      λ e. h

pub end_list-closes :
    (s : State) → IsLaid s → ((end_list s).in_list ≡ false) × ((end_list s).in_item ≡ false)
unfolding end_list no_quotes emit IsLaid
end_list-closes s (calls, items) =
    if-lem (λ t. (t.in_list ≡ false) × (t.in_item ≡ false)) s.in_list _ _
      (λ e. (refl, end_item-closes s)) λ e. (e, items e)

pub begun_list-IsLaid :
    (s : State)
    → IsLaid s
    → s.in_list ≡ false
    → IsLaid (emit Stream.begin_list (no_quotes (record s { in_list = true })))
unfolding IsLaid emit no_quotes lay_all lay_after lay
begun_list-IsLaid s (calls, items) e = (rw (calls, e) refl, λ f. items e)

pub begin_list-IsLaid : (s : State) → IsLaid s → IsLaid (begin_list s)
unfolding begin_list
begin_list-IsLaid s h = begun_list-IsLaid _ (end_list-IsLaid s h) ((end_list-closes s h).0)

pub begun_item-IsLaid :
    (s : State)
    → IsLaid s
    → s.in_list ≡ true
    → s.in_item ≡ false
    → IsLaid (emit Stream.begin_item (record s { in_item = true }))
unfolding IsLaid emit lay_all lay_after lay
begun_item-IsLaid s (calls, items) l i = (rw (calls, l, i) refl, λ f. rw l at f)

pub ensure_list-IsLaid : (s : State) → IsLaid s → IsLaid (ensure_list s)
unfolding ensure_list
ensure_list-IsLaid s h = if-lem IsLaid s.in_list _ _ (λ e. h) λ e. begin_list-IsLaid s h

-- With no item open, a list is open after ensure_list, and still no item.
ensure_list-opens :
    (s : State)
    → IsLaid s
    → s.in_item ≡ false
    → ((ensure_list s).in_list ≡ true) × ((ensure_list s).in_item ≡ false)
unfolding ensure_list begin_list no_quotes emit
ensure_list-opens s h i =
    if-lem (λ t. (t.in_list ≡ true) × (t.in_item ≡ false)) s.in_list _ _ (λ e. (e, i))
      λ e. (refl, (end_list-closes s h).1)

pub begin_item-IsLaid : (s : State) → IsLaid s → IsLaid (begin_item s)
unfolding begin_item
begin_item-IsLaid s h =
    let ended = end_item-IsLaid s h in
    let (l, i) = ensure_list-opens (end_item s) ended (end_item-closes s) in
    begun_item-IsLaid _ (ensure_list-IsLaid (end_item s) ended) l i

end_item-in_paragraph : (s : State) → (end_item s).in_paragraph ≡ s.in_paragraph
unfolding end_item emit
end_item-in_paragraph s =
    if-lem (λ t. t.in_paragraph ≡ s.in_paragraph) s.in_item _ _
      (λ e. end_sentence_lem (λ p l i. p ≡ s.in_paragraph) s refl) λ e. refl

pub end_list-in_paragraph : (s : State) → (end_list s).in_paragraph ≡ s.in_paragraph
unfolding end_list no_quotes emit
end_list-in_paragraph s =
    if-lem (λ t. t.in_paragraph ≡ s.in_paragraph) s.in_list _ _ (λ e. end_item-in_paragraph s)
      λ e. refl
