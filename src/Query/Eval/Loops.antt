-- ===== src/Query/Eval/Loops.antt =====
-- The functions `all` and `any` of src/lib/schwa/dr/query.cc: what they compute, and what a loop in a loop
-- does to the variable `ann`.
use libschwa.Prelude.{
  ℕ, ◌≡◌, refl, subst, ◌∙◌, Bool, true, false, ◌&&◌, ◌||◌, not, Option, none, some, List, [], ◌∷◌,
  if◌then◌else◌, inl, inr, Bool-cases,
}
use libschwa.Exec.{ok, err, runtime_error, Exec, ◌>>=◌}
use libschwa.Exec.Post.{Post-any, step, Post, returns, throws, Post-bind, Post-if, Post-ok}
use libschwa.Msgpack.Enums.{WireType, is_array, is_map}
use libschwa.Msgpack.Dynamic
use libschwa.Msgpack.Dynamic.{Values, no_values, value_and, Pairs, via_array, via_map}
use libschwa.Query.Syntax.{Text, str_eq, Expr, call, arg_and, no_args}
use libschwa.Query.Value.{
  RtStoreDef, Value, annotation, store, as_int, to_bool, type_of, check_accepts,
}
use libschwa.Query.Context.{
  EvalContext, find, erase, emplace, get_var, set_var, unset_var, push_rtstore, pop_rtstore,
}
use libschwa.Query.Variable.{
  ann_name, map_member, array_member, store_array, decode, annotate, iterate, store_iter,
  variable_value, variable_eval,
}
use libschwa.Query.Functions.{all_name, any_name, quantify, call_quantifier, function_value}
use libschwa.Query.Eval.{eval}
use libschwa.Query.Eval.Keeps.{find-erase_same}
use libschwa.Query.Eval.Stores.{entered}

-- Whether one, or each, of the annotations has a property.
unfoldable pub quantified : Bool → (Pairs → Bool) → List Pairs → Bool
quantified is_any p [] = not is_any
quantified true p (m ∷ ms) = p m || quantified true p ms
quantified false p (m ∷ ms) = p m && quantified false p ms

-- Values that are maps, and these maps.
pub data Instances : Values → List Pairs → Type 0 where
  no_instances : Instances no_values []
  instance_and :
      {vs : Values} {ms : List Pairs} (type : WireType) (m : Pairs)
      → is_map type ≡ true
      → Instances vs ms
      → Instances (value_and (Dynamic.value type (via_map m)) vs) (m ∷ ms)

erase-find-none :
    (key : Text) (vars : List (Text × Value)) → find key vars ≡ none → erase key vars ≡ vars
unfolding find erase
erase-find-none key [] h = refl
erase-find-none key ((name, value) ∷ vars) h = elim (Bool-cases (str_eq name key)) [
  | inl e ↦ absurd (cc (subst (λ b. (if b then some value else find key vars) ≡ none) e h))
  | inr e ↦
      rw
        (
          e,
          erase-find-none key vars
              (subst (λ b. (if b then some value else find key vars) ≡ none) e h),
        )
        refl
]

module _ (def : RtStoreDef) (expr : Exec EvalContext Value) where
  -- After an annotation there is no `ann`, whatever there was before.
  annotate-forgets :
      (v : Dynamic.Value) (c : EvalContext)
      → Post (λ v d. find ann_name d.vars ≡ none) (annotate def expr v c)
  unfolding annotate unset_var
  annotate-forgets (Dynamic.value type via) c =
      Post-if (is_map type) _ _ c
        (λ e. Post-bind (map_member via) _ Post-any λ map d _.
          Post-bind (set_var ann_name (annotation map)) _ Post-any λ _ d _.
            Post-bind (push_rtstore def) _ Post-any λ _ d _. Post-bind expr _ Post-any λ v d _.
              Post-bind pop_rtstore _ Post-any λ _ d _.
                Post-bind {P = λ _ e. find ann_name e.vars ≡ none} (unset_var ann_name) _
                  (returns (find-erase_same ann_name d.vars)) λ _ d h. returns h)
        λ e. throws

  abbrev Forgets : Bool → Values → EvalContext → Type 0
  Forgets is_any vs c = Post (λ b d. find ann_name d.vars ≡ none) (iterate def expr is_any vs c)

  iterate-step :
      (is_any : Bool) (v : Dynamic.Value) (vs : Values) (c : EvalContext)
      → ((d : EvalContext) → find ann_name d.vars ≡ none → Forgets is_any vs d)
      → Forgets is_any (value_and v vs) c
  unfolding iterate
  iterate-step is_any v vs c next =
      Post-bind (annotate def expr v) _ (annotate-forgets v c) λ w d h.
        Post-if is_any _ _ d (λ e. Post-if (to_bool w) _ _ d (λ e. returns h) λ e. next d h)
          λ e. Post-if (to_bool w) _ _ d (λ e. next d h) (λ e. returns h)

  iterate-free :
      (is_any : Bool) (vs : Values) (c : EvalContext)
      → find ann_name c.vars ≡ none
      → Forgets is_any vs c
  unfolding iterate
  iterate-free is_any no_values c h = returns h
  iterate-free is_any (value_and v vs) c h = iterate-step is_any v vs c (iterate-free is_any vs)

  -- After a loop over a store that is not empty, a use of `ann` is a RuntimeError, whatever `ann` was
  -- before the loop.
  pub ann-after_iterate :
      (is_any b : Bool) (v : Dynamic.Value) (vs : Values) (c d : EvalContext)
      (attribute : Option Text)
      → iterate def expr is_any (value_and v vs) c ≡ (ok b, d)
      → variable_eval ann_name attribute d ≡ (err runtime_error, d)
  unfolding variable_eval variable_value get_var ◌>>=◌
  ann-after_iterate is_any b v vs c d attribute h =
      rw (Post-ok (iterate-step is_any v vs c (iterate-free is_any vs)) h) refl

-- In a loop within a loop `ann` is the annotation of the outer loop, for the first annotation of the inner
-- one; then there is no `ann`.
pub annotate-nested :
    (def : RtStoreDef) (type : WireType) (map : Pairs) (c : EvalContext) (outer : Value)
    → is_map type ≡ true
    → find ann_name c.vars ≡ some outer
    → annotate def (variable_eval ann_name none) (Dynamic.value type (via_map map)) c
      ≡ (ok outer, record c { vars = erase ann_name c.vars })
unfolding annotate map_member set_var push_rtstore pop_rtstore unset_var variable_eval
    variable_value get_var emplace ◌>>=◌
annotate-nested def type map c outer m h = rw (m, h, emplace, h) refl

module _ (def : RtStoreDef) (expr : Exec EvalContext Value) (g : Pairs → Value)
    (c : EvalContext) where
  -- The expression has its value for each annotation up to the first that settles the answer.
  abbrev pub Reached : Bool → List Pairs → Type 0
  Reached is_any [] = Unit {0}
  Reached is_any (m ∷ ms) =
      (expr (entered def m c) ≡ (ok (g m), entered def m c))
      × (to_bool (g m) ≡ not is_any → Reached is_any ms)

module _ (def : RtStoreDef) (expr : Exec EvalContext Value) (g : Pairs → Value) (c : EvalContext)
    (free : find ann_name c.vars ≡ none) where
  annotate_eq :
      (type : WireType) (m : Pairs)
      → is_map type ≡ true
      → expr (entered def m c) ≡ (ok (g m), entered def m c)
      → annotate def expr (Dynamic.value type (via_map m)) c ≡ (ok (g m), c)
  unfolding annotate map_member set_var push_rtstore pop_rtstore unset_var emplace entered erase
      str_eq ◌>>=◌
  annotate_eq type m t h = rw (t, h, free, emplace, erase-find-none ann_name c.vars free) refl

  iterate_eq :
      (is_any : Bool) (vs : Values) (ms : List Pairs)
      → Instances vs ms
      → Reached def expr g c is_any ms
      → iterate def expr is_any vs c ≡ (ok (quantified is_any (λ m. to_bool (g m)) ms), c)
  unfolding iterate quantified ◌>>=◌
  iterate_eq is_any _ _ no_instances _ = refl
  iterate_eq true _ _ (instance_and type m t i) (h, hs) = elim (Bool-cases (to_bool (g m))) [
    | inl e ↦ rw (annotate_eq type m t h, e) refl
    | inr e ↦ rw (annotate_eq type m t h, e) (iterate_eq true _ _ i (hs e))
  ]
  iterate_eq false _ _ (instance_and type m t i) (h, hs) = elim (Bool-cases (to_bool (g m))) [
    | inl e ↦ rw (annotate_eq type m t h, e) (iterate_eq false _ _ i (hs e))
    | inr e ↦ rw (annotate_eq type m t h, e) refl
  ]

  store_iter_eq :
      (is_any : Bool) (type : WireType) (vs : Values) (ms : List Pairs)
      → decode def.lazy_data c ≡ (ok (some (Dynamic.value type (via_array vs))), c)
      → is_array type ≡ true
      → Instances vs ms
      → Reached def expr g c is_any ms
      → store_iter def expr is_any c ≡ (ok (quantified is_any (λ m. to_bool (g m)) ms), c)
  unfolding store_iter store_array array_member ◌>>=◌
  store_iter_eq is_any type vs ms d a i h =
      step (decode def.lazy_data) _ d ∙ rw a (iterate_eq is_any vs ms i h)

abbrev pub quantifier : Bool → Text
quantifier true = any_name
quantifier false = all_name

-- `any` of a store is whether the expression holds of one of its annotations and `all` whether it holds of
-- each, where there is no `ann` yet and the expression keeps the context. It is evaluated up to the first
-- annotation that settles the answer.
pub eval-quantifier :
    (search : Text → Text → Option ℕ) (is_any : Bool) (arg0 arg1 : Expr) (def : RtStoreDef)
    (g : Pairs → Value) (type : WireType) (vs : Values) (ms : List Pairs) (c : EvalContext)
    → find ann_name c.vars ≡ none
    → eval search arg0 c ≡ (ok (store def), c)
    → decode def.lazy_data c ≡ (ok (some (Dynamic.value type (via_array vs))), c)
    → is_array type ≡ true
    → Instances vs ms
    → Reached def (eval search arg1) g c is_any ms
    → eval search (call (quantifier is_any) (arg_and arg0 (arg_and arg1 no_args))) c
      ≡ (ok (as_int (quantified is_any (λ m. to_bool (g m)) ms)), c)
unfolding eval function_value call_quantifier quantify check_accepts type_of str_eq ◌>>=◌
eval-quantifier search true arg0 arg1 def g type vs ms c n e d a i h =
    rw (e, store_iter_eq def (eval search arg1) g c n true type vs ms d a i h) refl
eval-quantifier search false arg0 arg1 def g type vs ms c n e d a i h =
    rw (e, store_iter_eq def (eval search arg1) g c n false type vs ms d a i h) refl
