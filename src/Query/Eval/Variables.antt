-- ===== src/Query/Eval/Variables.antt =====
-- VariableExpr of src/lib/schwa/dr/query.cc: what it gives, and that it leaves the EvalContext as it was.
use libschwa.Prelude.{
  ℕ, ◌≡◌, refl, inl, inr, true, false, ◌||◌, ◌==◌, length, Option, none, some, List, [], ◌∷◌,
  get_elem?, Option-cases, Bool-cases, suc,
}
use libschwa.Exec.{Result, ok, err, ◌>>=◌}
use libschwa.Exec.Post.{Post, returns, throws, Post-bind, Post-bind_same, Post-if}
use libschwa.Io.ArrayReader.{create, array_in}
use libschwa.Msgpack.Enums.{is_bool, is_map, is_raw, is_sint, is_uint}
use libschwa.Msgpack.Dynamic
use libschwa.Msgpack.Dynamic.{
  Via, via_array, via_map, via_raw, via_bool, via_int64, via_uint64, Values, no_values, value_and,
  Pairs, no_pairs, pair_and, read_dynamic,
}
use libschwa.Query.Syntax.{Text, str_eq, variable}
use libschwa.Query.Value.{
  RtFieldDef, RtStoreDef, RtSchema, Value, annotation, document, integer, string, type_of, as_int,
}
use libschwa.Query.Context.{EvalContext, find, get_var, top_of, top_rtstore}
use libschwa.Query.Variable.{
  bool_member, int64_member, uint64_member, raw_member, map_member, field_to_value, field_at,
  find_field, decode, or_missing, eval_ann_attribute, document_map, find_store, field_or_store,
  doc_attribute, rt_attribute, eval_doc_attribute, attribute_of, variable_value, variable_eval,
}
use libschwa.Query.Eval.Types.{types, Has, Has-any}

module _ (c : EvalContext) where
  -- A value with a type of the mask, in the context as it was.
  abbrev pub Gives : ℕ → Value → EvalContext → Type 0
  Gives mask v d = Has mask v × (d ≡ c)

  abbrev Same : {A : Type 0} → A → EvalContext → Type 0
  Same a d = Unit {0} × (d ≡ c)

  bool_member-Post : (via : Via) → Post (Gives 68) (bool_member via c)
  unfolding bool_member as_int type_of
  bool_member-Post (via_bool true) = returns (refl, refl)
  bool_member-Post (via_bool false) = returns (refl, refl)
  bool_member-Post _ = throws

  int64_member-Post : (via : Via) → Post (Gives 68) (int64_member via c)
  unfolding int64_member type_of
  int64_member-Post (via_int64 n) = returns (refl, refl)
  int64_member-Post _ = throws

  uint64_member-Post : (via : Via) → Post Same (uint64_member via c)
  unfolding uint64_member
  uint64_member-Post (via_uint64 n) = returns (tt, refl)
  uint64_member-Post _ = throws

  raw_member-Post : (via : Via) → Post Same (raw_member via c)
  unfolding raw_member
  raw_member-Post (via_raw size bytes) =
      Post-if (length bytes == size) _ _ c (λ e. returns (tt, refl)) (λ e. throws)
  raw_member-Post _ = throws

  pub map_member-Post : (via : Via) → Post Same (map_member via c)
  unfolding map_member
  map_member-Post (via_map map) = returns (tt, refl)
  map_member-Post _ = throws

  field_to_value-Post :
      (field : RtFieldDef) (v : Dynamic.Value) → Post (Gives 68) (field_to_value field v c)
  unfolding field_to_value type_of
  field_to_value-Post field (Dynamic.value type via) =
      Post-if (field.is_slice || (field.points_into || field.is_self_pointer)) _ _ c (λ e. throws)
        λ e.
          Post-if (is_bool type) _ _ c (λ e. bool_member-Post via)
            λ e.
              Post-if (is_sint type) _ _ c (λ e. int64_member-Post via)
                λ e.
                  Post-if (is_uint type) _ _ c
                    (λ e.
                      Post-bind_same (uint64_member via) _ (uint64_member-Post via)
                        λ w _. returns (refl, refl))
                    λ e.
                      Post-if (is_raw type) _ _ c
                        (λ e.
                          Post-bind_same (raw_member via) _ (raw_member-Post via)
                            λ w _. returns (refl, refl))
                        λ e. throws

  field_at-Post : (fields : List RtFieldDef) (id : ℕ) → Post Same (field_at fields id c)
  unfolding field_at
  field_at-Post fields id = elim (Option-cases (get_elem? fields id)) [
    | inl e ↦ rw (e, field_at) throws
    | inr (f, e) ↦ rw (e, field_at) (returns (tt, refl))
  ]

  -- A field that was found is an integer or a string.
  abbrev Found : Option Value → EvalContext → Type 0
  Found none d = Unit {0} × (d ≡ c)
  Found (some v) d = Has 68 v × (d ≡ c)

  find_field-Post :
      (fields : List RtFieldDef) (attribute : Text) (map : Pairs)
      → Post Found (find_field fields attribute map c)
  unfolding find_field
  find_field-Post fields attribute no_pairs = returns (tt, refl)
  find_field-Post fields attribute (pair_and (Dynamic.value type via) item rest) =
      Post-if (is_uint type) _ _ c
        (λ e. Post-bind_same (uint64_member via) _ (uint64_member-Post via) λ id _.
          Post-bind_same (field_at fields id) _ (field_at-Post fields id) λ field _.
            Post-if (str_eq field.serial attribute) _ _ c
              (λ e.
                Post-bind_same (field_to_value field item) _ (field_to_value-Post field item)
                  λ v h. returns (h, refl))
              λ e. find_field-Post fields attribute rest)
        λ e. throws

  unchanged : {A : Type 0} (r : Result A) → Post Same (r, c)
  unchanged (ok a) = returns (tt, refl)
  unchanged (err e) = throws

  pub decode-Post : (bytes : List ℕ) → Post Same (decode bytes c)
  unfolding decode
  decode-Post bytes = unchanged ((read_dynamic array_in (suc (length bytes)) (create bytes)).0)

  document_map-Post : (v : Option Dynamic.Value) → Post Same (document_map v c)
  unfolding document_map
  document_map-Post none = throws
  document_map-Post (some (Dynamic.value type via)) =
      Post-if (is_map type) _ _ c (λ e. map_member-Post via) (λ e. throws)

  find_store-Has :
      (stores : List RtStoreDef) (attribute : Text) → Has 108 (find_store stores attribute)
  unfolding find_store type_of
  find_store-Has [] attribute = refl
  find_store-Has (def ∷ defs) attribute = elim (Bool-cases (str_eq def.serial attribute)) [
    | inl e ↦ rw e refl
    | inr e ↦ rw e (find_store-Has defs attribute)
  ]

  -- An integer or a string is of a type that attributes have.
  plain : (v : Value) → Has 68 v → Has 108 v
  unfolding type_of
  plain (integer n) h = refl
  plain (string str) h = refl
  plain _ h = absurd (cc h)

  top_of-Post : (stores : List RtStoreDef) → Post Same (top_of stores c)
  top_of-Post [] = throws
  top_of-Post (def ∷ defs) = returns (tt, refl)

  top_rtstore-Post : Post Same (top_rtstore c)
  unfolding top_rtstore
  top_rtstore-Post = top_of-Post c.stores

  or_missing-Post :
      (o : Option Value) (d : EvalContext) → Found o d → Post (Gives 108) (ok (or_missing o), d)
  unfolding or_missing type_of
  or_missing-Post none d h = returns (refl, h.1)
  or_missing-Post (some v) d h = returns (plain v h.0, h.1)

  field_or_store-Post :
      (stores : List RtStoreDef) (attribute : Text) (o : Option Value) (d : EvalContext)
      → Found o d
      → Post (Gives 108) (ok (field_or_store stores attribute o), d)
  unfolding field_or_store
  field_or_store-Post stores attribute none d h = returns (find_store-Has stores attribute, h.1)
  field_or_store-Post stores attribute (some v) d h = returns (plain v h.0, h.1)

  doc_attribute-Post :
      (schema : RtSchema) (attribute : Text) → Post (Gives 108) (doc_attribute schema attribute c)
  unfolding doc_attribute
  doc_attribute-Post schema attribute =
      Post-bind_same (decode schema.lazy_data) _ (decode-Post schema.lazy_data) λ decoded _.
        Post-bind_same (document_map decoded) _ (document_map-Post decoded) λ map _.
          Post-bind (find_field schema.fields attribute map) _
            (find_field-Post schema.fields attribute map)
            (field_or_store-Post schema.stores attribute)

  ann_attribute-Post :
      (attribute : Text) (map : Pairs) → Post (Gives 108) (eval_ann_attribute attribute map c)
  unfolding eval_ann_attribute
  ann_attribute-Post attribute map = Post-bind_same top_rtstore _ top_rtstore-Post λ rtstore _.
      Post-bind (find_field rtstore.klass_fields attribute map) _
        (find_field-Post rtstore.klass_fields attribute map) or_missing-Post

  rt_attribute-Post :
      (doc : Option RtSchema) (attribute : Text) → Post (Gives 108) (rt_attribute doc attribute c)
  rt_attribute-Post none attribute = throws
  rt_attribute-Post (some schema) attribute = doc_attribute-Post schema attribute

  attribute_of-Post : (attribute : Text) (v : Value) → Post (Gives 108) (attribute_of attribute v c)
  unfolding attribute_of eval_doc_attribute
  attribute_of-Post attribute (annotation map) = ann_attribute-Post attribute map
  attribute_of-Post attribute document = rt_attribute-Post c.doc attribute
  attribute_of-Post attribute _ = throws

  pub variable_eval-Post :
      (token : Text) (attribute : Option Text)
      → Post (Gives (types (variable token attribute))) (variable_eval token attribute c)
  unfolding variable_eval variable_value get_var types ◌>>=◌
  variable_eval-Post token none = elim (Option-cases (find token c.vars)) [
    | inl e ↦ rw e throws
    | inr (v, e) ↦ rw e (returns (Has-any v, refl))
  ]
  variable_eval-Post token (some attribute) = elim (Option-cases (find token c.vars)) [
    | inl e ↦ rw e throws
    | inr (v, e) ↦ rw e (attribute_of-Post attribute v)
  ]
