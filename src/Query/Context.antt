-- ===== src/Query/Context.antt =====
-- EvalContext of src/lib/schwa/dr/query.cc.
use libschwa.Prelude.{Option, none, some, List, [], ◌∷◌, if◌then◌else◌}
use libschwa.Exec.{undefined, ok, err, Exec, pure, raise}
use libschwa.Query.Syntax.{Text, str_eq}
use libschwa.Query.Value.{RtSchema, RtStoreDef, Value}

-- `doc` is what `_doc.rt()->doc` is, if `rt()` is set. Texts lie in lists here, so `_pool` is left out.
pub record EvalContext : Type 0 where
  pub doc : Option RtSchema
  pub stores : List RtStoreDef
  pub vars : List (Text × Value)

unfoldable pub find : Text → List (Text × Value) → Option Value
unfolding str_eq
find key [] = none
find key ((name, value) ∷ vars) = if str_eq name key then some value else find key vars

unfoldable pub erase : Text → List (Text × Value) → List (Text × Value)
unfolding str_eq
erase key [] = []
erase key ((name, value) ∷ vars) =
    let rest = erase key vars in if str_eq name key then rest else (name, value) ∷ rest

-- `emplace`: a key that is there keeps its value.
unfoldable pub emplace : Text → Value → List (Text × Value) → List (Text × Value)
unfolding find
emplace key value vars = elim (find key vars) [ none ↦ (key, value) ∷ vars | some old ↦ vars ]

unfoldable pub get_var : Text → Exec EvalContext (Option Value)
unfolding find
get_var key ctx = (ok (find key ctx.vars), ctx)

unfoldable pub set_var : Text → Value → Exec EvalContext (Unit {0})
unfolding emplace
set_var key value ctx = (ok tt, record ctx { vars = emplace key value ctx.vars })

unfoldable pub unset_var : Text → Exec EvalContext (Unit {0})
unfolding erase
unset_var key ctx = (ok tt, record ctx { vars = erase key ctx.vars })

unfoldable pub push_rtstore : RtStoreDef → Exec EvalContext (Unit {0})
push_rtstore def ctx = (ok tt, record ctx { stores = def ∷ ctx.stores })

-- Of an empty stack C++ says nothing.
abbrev pub pop_stores : List RtStoreDef → Exec EvalContext (Unit {0})
pop_stores [] ctx = (err undefined, ctx)
pop_stores (def ∷ defs) ctx = (ok tt, record ctx { stores = defs })

unfoldable pub pop_rtstore : Exec EvalContext (Unit {0})
pop_rtstore ctx = pop_stores ctx.stores ctx

abbrev pub top_of : List RtStoreDef → Exec EvalContext RtStoreDef
top_of [] = raise undefined
top_of (def ∷ defs) = pure def

unfoldable pub top_rtstore : Exec EvalContext RtStoreDef
top_rtstore ctx = top_of ctx.stores ctx
