-- ===== src/Tokenizer/Nesting.antt =====
-- The paragraphs, lists and items that the functions of tokenizer_state.h give the stream.
use libschwa.Prelude.{
  ℕ, ◌≡◌, refl, Bool, true, false, ◌&&◌, not, Option, none, some, List, [], ◌∷◌, if◌then◌else◌, ◌+◌,
  ◌∙◌,
}
use libschwa.Tokenizer.Stream
use libschwa.Tokenizer.Stream.{TokenType, Event}
use libschwa.Tokenizer.State
use libschwa.Tokenizer.State.{
  State, emit, no_quotes, end_sentence, end_paragraph, begin_paragraph, ensure_paragraph,
  sentence_paragraph, begin_sentence, ensure_sentence, check_sentence_length, clear_norms, add,
  split, flush_sentence, begin_document, begin_heading, end_heading, end_item, end_list, begin_list,
  ensure_list, begin_item, end_document, new_state,
}
use libschwa.Tokenizer.Sentences.{if-lem, IsOpen}
pub mod Lists
pub mod Whole

-- Which of a paragraph, a list and an item are open. The state keeps paragraphs and lists apart, and the calls may
-- begin one in the other and end the outer one first: each kind is followed for itself.
pub record Layout : Type 0 where
  pub paragraph : Bool
  pub list : Bool
  pub item : Bool

-- What a call makes of it; none, if a paragraph is begun in another one, a list in another one, an item
-- outside a list or in another one, or if what the call ends is not open, or is a list with an open item.
unfoldable pub lay : Event → Layout → Option Layout
lay Stream.begin_paragraph l = if l.paragraph then none else some (record l { paragraph = true })
lay Stream.end_paragraph l = if l.paragraph then some (record l { paragraph = false }) else none
lay Stream.begin_list l = if l.list then none else some (record l { list = true })
lay Stream.end_list l = if l.list && not l.item then some (record l { list = false }) else none
lay Stream.begin_item l = if l.list && not l.item then some (record l { item = true }) else none
lay Stream.end_item l = if l.item then some (record l { item = false }) else none
lay Stream.begin_sentence l = some l
lay Stream.end_sentence l = some l
lay (Stream.add _ _ _ _) l = some l
lay (Stream.error _ _) l = some l
lay Stream.begin_document l = some l
lay Stream.end_document l = some l
lay (Stream.begin_heading _) l = some l
lay (Stream.end_heading _) l = some l

unfoldable pub lay_after : Event → Option Layout → Option Layout
unfolding lay
lay_after e none = none
lay_after e (some l) = lay e l

-- The calls, the last one first.
unfoldable pub lay_all : List Event → Option Layout
unfolding lay_after
lay_all [] = some (record { paragraph = false; list = false; item = false })
lay_all (e ∷ es) = lay_after e (lay_all es)

-- The calls are in place, and the state has the flags of what is open.
unfoldable pub IsLaid : State → Type 0
unfolding lay_all
IsLaid s =
    (lay_all s.dest
      ≡ some (record { paragraph = s.in_paragraph; list = s.in_list; item = s.in_item }))
    × (s.in_list ≡ false → s.in_item ≡ false)

IsNeutral : Event → Type 0
unfolding lay
IsNeutral e = (l : Layout) → lay e l ≡ some l

same-IsLaid :
    (s t : State)
    → IsLaid s
    → t.dest ≡ s.dest
    → t.in_paragraph ≡ s.in_paragraph
    → t.in_list ≡ s.in_list
    → t.in_item ≡ s.in_item
    → IsLaid t
unfolding IsLaid
same-IsLaid s t h d p l i = rw (d, p, l, i) h

emit-IsLaid : (e : Event) (s : State) → IsNeutral e → IsLaid s → IsLaid (emit e s)
unfolding IsLaid emit lay_all lay_after IsNeutral
emit-IsLaid e s neutral (calls, items) = (rw calls (neutral _), items)

end_sentence-IsLaid : (s : State) → IsLaid s → IsLaid (end_sentence s)
unfolding end_sentence IsNeutral lay
end_sentence-IsLaid s h =
    if-lem IsLaid s.in_sentence _ _
      (λ e. same-IsLaid _ _ (emit-IsLaid Stream.end_sentence s (λ l. refl) h) refl refl refl refl)
      λ e. h

end_sentence_lem :
    (P : Bool → Bool → Bool → Type 0) (s : State)
    → P s.in_paragraph s.in_list s.in_item
    → P (end_sentence s).in_paragraph (end_sentence s).in_list (end_sentence s).in_item
unfolding end_sentence emit
end_sentence_lem P s h =
    if-lem (λ t. P t.in_paragraph t.in_list t.in_item) s.in_sentence _ _ (λ e. h) λ e. h

ended_paragraph-IsLaid :
    (s : State)
    → IsLaid s
    → s.in_paragraph ≡ true
    → IsLaid (record (no_quotes (emit Stream.end_paragraph s)) { in_paragraph = false })
unfolding IsLaid emit no_quotes lay_all lay_after lay
ended_paragraph-IsLaid s (calls, items) e = (rw (calls, e) refl, items)

end_paragraph-IsLaid : (s : State) → IsLaid s → IsLaid (end_paragraph s)
unfolding end_paragraph
end_paragraph-IsLaid s h =
    if-lem IsLaid s.in_paragraph _ _
      (λ e.
        ended_paragraph-IsLaid _ (end_sentence-IsLaid s h)
          (end_sentence_lem (λ p l i. p ≡ true) s e))
      λ e. h

end_paragraph-closes : (s : State) → (end_paragraph s).in_paragraph ≡ false
unfolding end_paragraph no_quotes emit
end_paragraph-closes s = if-lem (λ t. t.in_paragraph ≡ false) s.in_paragraph _ _ (λ e. refl) λ e. e

begun_paragraph-IsLaid :
    (s : State)
    → IsLaid s
    → s.in_paragraph ≡ false
    → IsLaid (emit Stream.begin_paragraph (no_quotes (record s { in_paragraph = true })))
unfolding IsLaid emit no_quotes lay_all lay_after lay
begun_paragraph-IsLaid s (calls, items) e = (rw (calls, e) refl, items)

begin_paragraph-IsLaid : (s : State) → IsLaid s → IsLaid (begin_paragraph s)
unfolding begin_paragraph
begin_paragraph-IsLaid s h =
    begun_paragraph-IsLaid _ (end_paragraph-IsLaid s h) (end_paragraph-closes s)
