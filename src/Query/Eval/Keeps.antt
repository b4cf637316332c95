-- ===== src/Query/Eval/Keeps.antt =====
-- What the evaluation in src/lib/schwa/dr/query.cc keeps of the EvalContext.
use libschwa.Prelude.{
  ◌≡◌, refl, ap, ap₂, subst, ◌∙◌, inl, inr, true, false, ◌&&◌, ◌==◌, ==_iff, Bool-cases,
  Option-cases, none, List, [], ◌∷◌,
}
use libschwa.Query.Syntax.{Text, str_eq}
use libschwa.Query.Value.{Value}
use libschwa.Query.Context.{EvalContext, find, erase, emplace}
use libschwa.Query.Variable.{ann_name}

pub str_eq→eq : (s t : Text) → str_eq s t ≡ true → s ≡ t
unfolding str_eq
str_eq→eq [] [] h = refl
str_eq→eq [] (y ∷ ys) h = absurd (cc h)
str_eq→eq (x ∷ xs) [] h = absurd (cc h)
str_eq→eq (x ∷ xs) (y ∷ ys) h = elim (Bool-cases (x == y)) [
  | inl e ↦
      ap₂ (λ z zs. z ∷ zs) ((==_iff x y).0 e)
        (str_eq→eq xs ys (subst (λ b. (b && str_eq xs ys) ≡ true) e h))
  | inr e ↦ absurd (cc (subst (λ b. (b && str_eq xs ys) ≡ true) e h))
]

-- `ann` is no other name, so its changes leave those alone.
pub find-emplace :
    (key : Text) (v : Value) (vars : List (Text × Value))
    → str_eq ann_name key ≡ false
    → find key (emplace ann_name v vars) ≡ find key vars
unfolding find emplace
find-emplace key v vars h = elim (Option-cases (find ann_name vars)) [
  | inl e ↦ rw (e, emplace, h) refl
  | inr (old, e) ↦ rw (e, emplace) refl
]

pub find-erase :
    (key : Text) (vars : List (Text × Value))
    → str_eq ann_name key ≡ false
    → find key (erase ann_name vars) ≡ find key vars
unfolding find erase
find-erase key [] h = refl
find-erase key ((name, value) ∷ vars) h = elim (Bool-cases (str_eq name ann_name)) [
  | inl e ↦ rw (e, find-erase key vars h, str_eq→eq name ann_name e, h) refl
  | inr e ↦ rw (e, find-erase key vars h) refl
]

pub find-erase_same : (key : Text) (vars : List (Text × Value)) → find key (erase key vars) ≡ none
unfolding find erase
find-erase_same key [] = refl
find-erase_same key ((name, value) ∷ vars) = elim (Bool-cases (str_eq name key)) [
  | inl e ↦ rw (e, find-erase_same key vars) refl
  | inr e ↦ rw (e, e, find-erase_same key vars) refl
]

-- The document, the stack of stores and all variables but `ann` are the same.
pub record Keeps (c d : EvalContext) : Type 0 where
  pub same_doc : d.doc ≡ c.doc
  pub same_stores : d.stores ≡ c.stores
  pub same_vars : (key : Text) → str_eq ann_name key ≡ false → find key d.vars ≡ find key c.vars

pub Keeps-eq : {c d : EvalContext} → d ≡ c → Keeps c d
Keeps-eq e = record {
  same_doc = ap (λ x. x.doc) e;
  same_stores = ap (λ x. x.stores) e;
  same_vars = λ key h. ap (λ x. find key x.vars) e;
}

pub Keeps-trans : {b c d : EvalContext} → Keeps b c → Keeps c d → Keeps b d
Keeps-trans h k = record {
  same_doc = k.same_doc ∙ h.same_doc;
  same_stores = k.same_stores ∙ h.same_stores;
  same_vars = λ key e. k.same_vars key e ∙ h.same_vars key e;
}
