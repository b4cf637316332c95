-- ===== src/Query/Variable.antt =====
-- VariableExpr of src/lib/schwa/dr/query.cc: variables, their attributes, and the loop over the
-- annotations of a store.
use libschwa.Prelude.{
  ℕ, suc, ◌^◌, Bool, true, false, not, ◌||◌, ◌==◌, Option, none, some, List, [], ◌∷◌, length,
  get_elem?, if◌then◌else◌,
}
use libschwa.Prelude.Int.{of_word}
use libschwa.Exec.{assertion, runtime_error, undefined, Exec, pure, raise, ◌>>=◌, ◌>>◌}
use libschwa.Io.ArrayReader.{create, array_in}
use libschwa.Msgpack.Enums.{is_array, is_bool, is_map, is_raw, is_sint, is_uint}
use libschwa.Msgpack.Dynamic
use libschwa.Msgpack.Dynamic.{
  Via, via_array, via_map, via_raw, via_bool, via_int64, via_uint64, Values, no_values, value_and,
  Pairs, no_pairs, pair_and, read_dynamic,
}
use libschwa.Query.Syntax.{Text, str_eq}
use libschwa.Query.Value.{
  RtFieldDef, RtStoreDef, RtSchema, Value, annotation, document, integer, missing, store, string,
  to_bool, as_int,
}
use libschwa.Query.Context.{
  EvalContext, get_var, set_var, unset_var, push_rtstore, pop_rtstore, top_rtstore,
}

abbrev pub ann_name : Text
ann_name = 97 ∷ 110 ∷ 110 ∷ []

-- The C string that starts at the front of some bytes.
unfoldable pub c_text : List ℕ → Text
c_text [] = []
c_text (b ∷ bs) = let rest = c_text bs in if b == 0 then [] else b ∷ rest

-- Reads of the union of a msgpack::Value. Of another member than the one that was written C++ says
-- nothing, nor of bytes behind a buffer.
unfoldable pub bool_member : Via → Exec EvalContext Value
bool_member (via_bool b) = pure (as_int b)
bool_member _ = raise undefined

unfoldable pub int64_member : Via → Exec EvalContext Value
int64_member (via_int64 n) = pure (integer n)
int64_member _ = raise undefined

unfoldable pub uint64_member : Via → Exec EvalContext ℕ
uint64_member (via_uint64 n) = pure n
uint64_member _ = raise undefined

unfoldable pub raw_member : Via → Exec EvalContext Text
unfolding c_text
raw_member (via_raw size bytes) =
    if length bytes == size then pure (c_text bytes) else raise undefined
raw_member _ = raise undefined

unfoldable pub map_member : Via → Exec EvalContext Pairs
map_member (via_map map) = pure map
map_member _ = raise undefined

unfoldable pub array_member : Via → Exec EvalContext Values
array_member (via_array array) = pure array
array_member _ = raise undefined

unfoldable pub field_to_value : RtFieldDef → Dynamic.Value → Exec EvalContext Value
unfolding bool_member int64_member uint64_member raw_member
field_to_value field (Dynamic.value type via) =
    if field.is_slice || (field.points_into || field.is_self_pointer)
    then raise runtime_error
    else if is_bool type
    then bool_member via
    else if is_sint type
    then int64_member via
    else if is_uint type
    then (do w ← uint64_member via; pure (integer (of_word (2 ^ 63) w)))
    else if is_raw type
    then (do str ← raw_member via; pure (string str))
    else raise runtime_error

-- `*fields[id]`.
unfoldable pub field_at : List RtFieldDef → ℕ → Exec EvalContext RtFieldDef
field_at fields id = elim (get_elem? fields id) [ none ↦ raise undefined | some field ↦ pure field ]

-- The loop over a map for the attribute.
unfoldable pub find_field : List RtFieldDef → Text → Pairs → Exec EvalContext (Option Value)
unfolding field_to_value field_at uint64_member str_eq
find_field fields attribute no_pairs = pure none
find_field fields attribute (pair_and (Dynamic.value type via) item rest) =
    let later = find_field fields attribute rest in
    if is_uint type
    then (do
      id ← uint64_member via
      field ← field_at fields id
      if str_eq field.serial attribute
          then (do v ← field_to_value field item; pure (some v))
          else later)
    else raise assertion

-- `mp::read_dynamic` over a buffer of its own. Lazy bytes are whole values unless their stream was cut short, and a
-- word that such a value lacks bytes for is filled with zeros.
unfoldable pub decode : List ℕ → Exec EvalContext (Option Dynamic.Value)
unfolding read_dynamic
decode bytes ctx = ((read_dynamic array_in (suc (length bytes)) (create bytes)).0, ctx)

unfoldable pub or_missing : Option Value → Value
or_missing none = missing
or_missing (some v) = v

unfoldable pub eval_ann_attribute : Text → Pairs → Exec EvalContext Value
unfolding find_field or_missing top_rtstore
eval_ann_attribute attribute map = do
  rtstore ← top_rtstore
  found ← find_field rtstore.klass_fields attribute map
  pure (or_missing found)

-- The tests on what the document's bytes give.
unfoldable pub document_map : Option Dynamic.Value → Exec EvalContext Pairs
unfolding map_member
document_map none = raise assertion
document_map (some (Dynamic.value type via)) =
    if is_map type then map_member via else raise assertion

unfoldable pub find_store : List RtStoreDef → Text → Value
unfolding str_eq
find_store [] attribute = missing
find_store (def ∷ defs) attribute =
    let later = find_store defs attribute in
    if str_eq def.serial attribute then store def else later

unfoldable pub field_or_store : List RtStoreDef → Text → Option Value → Value
unfolding find_store
field_or_store stores attribute none = find_store stores attribute
field_or_store stores attribute (some v) = v

unfoldable pub doc_attribute : RtSchema → Text → Exec EvalContext Value
unfolding find_field field_or_store document_map decode
doc_attribute schema attribute = do
  decoded ← decode schema.lazy_data
  map ← document_map decoded
  found ← find_field schema.fields attribute map
  pure (field_or_store schema.stores attribute found)

abbrev pub rt_attribute : Option RtSchema → Text → Exec EvalContext Value
rt_attribute none attribute = raise undefined
rt_attribute (some schema) attribute = doc_attribute schema attribute

unfoldable pub eval_doc_attribute : Text → Exec EvalContext Value
unfolding doc_attribute
eval_doc_attribute attribute ctx = rt_attribute ctx.doc attribute ctx

unfoldable pub attribute_of : Text → Value → Exec EvalContext Value
unfolding eval_ann_attribute eval_doc_attribute
attribute_of attribute (annotation map) = eval_ann_attribute attribute map
attribute_of attribute document = eval_doc_attribute attribute
attribute_of attribute _ = raise runtime_error

-- The rest of `eval` for a variable that is there.
unfoldable pub variable_value : Option Text → Option Value → Exec EvalContext Value
unfolding attribute_of
variable_value attribute none = raise runtime_error
variable_value none (some v) = pure v
variable_value (some attribute) (some v) = attribute_of attribute v

unfoldable pub variable_eval : Text → Option Text → Exec EvalContext Value
unfolding variable_value get_var
variable_eval token attribute = do v ← get_var token; variable_value attribute v

-- The tests on what a store's bytes give, of which the first is on no pointer.
unfoldable pub store_array : Option Dynamic.Value → Exec EvalContext Values
unfolding array_member
store_array none = raise undefined
store_array (some (Dynamic.value type via)) =
    if is_array type then array_member via else raise assertion

-- What the loop does for an annotation, up to `unset_var`.
unfoldable pub annotate :
    RtStoreDef → Exec EvalContext Value → Dynamic.Value → Exec EvalContext Value
unfolding map_member set_var push_rtstore pop_rtstore unset_var
annotate rtstore expr (Dynamic.value type via) =
    if is_map type
    then (do
      map ← map_member via
      set_var ann_name (annotation map)
      push_rtstore rtstore
      v ← expr
      pop_rtstore
      unset_var ann_name
      pure v)
    else raise assertion

unfoldable pub iterate : RtStoreDef → Exec EvalContext Value → Bool → Values → Exec EvalContext Bool
unfolding annotate to_bool
iterate rtstore expr is_any no_values = pure (not is_any)
iterate rtstore expr is_any (value_and item rest) =
    let later = iterate rtstore expr is_any rest in
    (do
      v ← annotate rtstore expr item
      if is_any
          then (if to_bool v then pure true else later)
          else if to_bool v
          then later
          else pure false)

unfoldable pub store_iter : RtStoreDef → Exec EvalContext Value → Bool → Exec EvalContext Bool
unfolding decode store_array iterate
store_iter rtstore expr is_any = do
  decoded ← decode rtstore.lazy_data
  array ← store_array decoded
  iterate rtstore expr is_any array
