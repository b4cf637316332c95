-- ===== src/Query/Eval/Stores.antt =====
-- The loop over a store in src/lib/schwa/dr/query.cc: what it keeps of the EvalContext, and what it leaves
-- of the variable `ann`.
use libschwa.Prelude.{◌≡◌, refl, ap, ◌∙◌, Bool, Option, none, some, List, [], ◌∷◌}
use libschwa.Exec.{Exec, ◌>>=◌}
use libschwa.Exec.Post.{Post, returns, throws, Post-bind, Post-bind_same, Post-if, Post-imp}
use libschwa.Msgpack.Enums.{is_array, is_map}
use libschwa.Msgpack.Dynamic
use libschwa.Msgpack.Dynamic.{Values, no_values, value_and, Pairs, Via, via_array, via_map}
use libschwa.Query.Value.{RtStoreDef, Value, annotation, to_bool}
use libschwa.Query.Context.{
  EvalContext, find, erase, emplace, set_var, unset_var, push_rtstore, pop_stores, pop_rtstore,
}
use libschwa.Query.Variable.{
  ann_name, map_member, array_member, store_array, decode, annotate, iterate, store_iter,
}
use libschwa.Query.Eval.Keeps.{Keeps, Keeps-eq, Keeps-trans, find-emplace, find-erase}
use libschwa.Query.Eval.Variables.{decode-Post, map_member-Post}

-- The context that the expression of a loop is evaluated in.
unfoldable pub entered : RtStoreDef → Pairs → EvalContext → EvalContext
unfolding emplace
entered def map c = record c {
  stores = def ∷ c.stores;
  vars = emplace ann_name (annotation map) c.vars;
}

abbrev rest_of : List RtStoreDef → List RtStoreDef
rest_of [] = []
rest_of (x ∷ xs) = xs

module _ (def : RtStoreDef) (expr : Exec EvalContext Value) where
  pop-Post :
      (d : EvalContext) (stores defs : List RtStoreDef)
      → stores ≡ def ∷ defs
      → Post
          (λ _ e. (e.doc ≡ d.doc) × ((e.stores ≡ defs) × (e.vars ≡ d.vars)))
          (pop_stores stores d)
  pop-Post d [] defs h = throws
  pop-Post d (def' ∷ defs') defs h = returns (refl, (ap (λ xs. rest_of xs) h, refl))

  module _ (expr_Keeps : (c : EvalContext) → Post (λ v d. Keeps c d) (expr c)) where
    annotate-Post :
        (v : Dynamic.Value) (c : EvalContext) → Post (λ v d. Keeps c d) (annotate def expr v c)
    unfolding annotate set_var push_rtstore unset_var pop_rtstore entered ◌>>=◌
    annotate-Post (Dynamic.value type via) c =
        Post-if (is_map type) _ _ c
          (λ e. Post-bind_same (map_member via) _ (map_member-Post c via) λ map _.
            Post-bind expr _ (expr_Keeps (entered def map c)) λ v d h.
              Post-bind pop_rtstore _ (pop-Post d d.stores c.stores h.same_stores)
                λ _ e (p, (q, r)). returns (record {
                  same_doc = p ∙ h.same_doc;
                  same_stores = q;
                  same_vars = λ key n.
                      ap (λ vars. find key (erase ann_name vars)) r
                      ∙ (find-erase key d.vars n
                          ∙ (h.same_vars key n ∙ find-emplace key (annotation map) c.vars n));
                }))
          λ e. throws

    iterate-Post :
        (is_any : Bool) (vs : Values) (c : EvalContext)
        → Post (λ b d. Keeps c d) (iterate def expr is_any vs c)
    unfolding iterate
    iterate-Post is_any no_values c = returns (Keeps-eq refl)
    iterate-Post is_any (value_and v vs) c =
        Post-bind (annotate def expr v) _ (annotate-Post v c) λ w d h.
          Post-if is_any _ _ d
            (λ e.
              Post-if (to_bool w) _ _ d (λ e. returns h)
                λ e. Post-imp (λ b f k. Keeps-trans h k) (iterate-Post is_any vs d))
            λ e.
              Post-if (to_bool w) _ _ d
                (λ e. Post-imp (λ b f k. Keeps-trans h k) (iterate-Post is_any vs d))
                (λ e. returns h)

    array_member-Post :
        (via : Via) (c : EvalContext) → Post (λ vs d. Unit {0} × (d ≡ c)) (array_member via c)
    unfolding array_member
    array_member-Post (via_array vs) c = returns (tt, refl)
    array_member-Post _ c = throws

    store_array-Post :
        (v : Option Dynamic.Value) (c : EvalContext)
        → Post (λ vs d. Unit {0} × (d ≡ c)) (store_array v c)
    unfolding store_array array_member
    store_array-Post none c = throws
    store_array-Post (some (Dynamic.value type via)) c =
        Post-if (is_array type) _ _ c (λ e. array_member-Post via c) (λ e. throws)

    pub store_iter-Post :
        (is_any : Bool) (c : EvalContext) → Post (λ b d. Keeps c d) (store_iter def expr is_any c)
    unfolding store_iter
    store_iter-Post is_any c =
        Post-bind_same (decode def.lazy_data) _ (decode-Post c def.lazy_data) λ v _.
          Post-bind_same (store_array v) _ (store_array-Post v c) λ vs _. iterate-Post is_any vs c
