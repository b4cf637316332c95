-- ===== src/Instances/Members.antt =====
-- The members of an object before and after its instance is read (the loop of Reader::read in
-- src/lib/schwa/dr/reader.cc).
use libschwa.Prelude.{
  ℕ, ◌≡◌, ◌≢◌, refl, sym, ap, subst, ◌∙◌, true, false, none, some, [], ◌∷◌, All, ◌==◌, ==_iff,
  if◌then◌else◌, inl, inr, Bool-cases,
}
use libschwa.Fields.Values.{Value}
use libschwa.Instances.{FieldDef, Object, Schema, is_read_write, set}
use libschwa.Instances.Entries.{IsBlank, is_written, filled, AreReady, set_same, set_other}

-- For each field that is read and written, `values` has what `obj` has.
unfoldable pub Agrees : Object → Schema → (ℕ → Value) → Type 0
Agrees obj [] values = Unit {0}
Agrees obj (none ∷ fields) values = Agrees obj fields values
Agrees obj (some d ∷ fields) values =
    (is_read_write d.mode ≡ true → values d.slot ≡ obj.values d.slot) × Agrees obj fields values

-- No two registered fields are the same member.
unfoldable pub AreDistinct : Schema → Type 0
AreDistinct [] = Unit {0}
AreDistinct (none ∷ fields) = AreDistinct fields
AreDistinct (some d ∷ fields) =
    All (elim [ none ↦ Unit {0} | some c ↦ c.slot ≢ d.slot ]) fields × AreDistinct fields

-- The members of a new object: what is written has a blank one, and what is not written has its value.
unfoldable pub AreNew : Object → Schema → (ℕ → Value) → Type 0
unfolding is_written
AreNew obj [] values = Unit {0}
AreNew obj (none ∷ fields) values = AreNew obj fields values
AreNew obj (some d ∷ fields) values =
    (is_written obj d ≡ true → IsBlank (values d.slot))
    × (is_written obj d ≡ false → is_read_write d.mode ≡ true → values d.slot ≡ obj.values d.slot)
    × AreNew obj fields values

step : Object → FieldDef → (ℕ → Value) → ℕ → Value
unfolding is_written set
step obj d values = if is_written obj d then set d.slot (obj.values d.slot) values else values

-- A step changes no other member, and once a member has the value of `obj` it keeps it.
step_other :
    (obj : Object) (d : FieldDef) (values : ℕ → Value) (n : ℕ)
    → n ≢ d.slot
    → step obj d values n ≡ values n
unfolding step
step_other obj d values n h = elim (Bool-cases (is_written obj d)) [
  | inl e ↦ rw e (set_other d.slot n _ values h)
  | inr e ↦ rw e refl
]

step_keeps :
    (obj : Object) (d : FieldDef) (values : ℕ → Value) (n : ℕ)
    → values n ≡ obj.values n
    → step obj d values n ≡ obj.values n
unfolding step set
step_keeps obj d values n h = elim (Bool-cases (is_written obj d)) [
  | inl e ↦ elim (Bool-cases (n == d.slot)) [
    | inl g ↦ rw (e, g) (ap obj.values (sym ((==_iff n d.slot).0 g)))
    | inr g ↦ rw (e, g) h
  ]
  | inr e ↦ rw e h
]

filled_keeps :
    (obj : Object) (fields : Schema) (values : ℕ → Value) (n : ℕ)
    → values n ≡ obj.values n
    → filled obj fields values n ≡ obj.values n
unfolding filled step
filled_keeps obj [] values n h = h
filled_keeps obj (none ∷ fields) values n h = filled_keeps obj fields values n h
filled_keeps obj (some d ∷ fields) values n h =
    filled_keeps obj fields (step obj d values) n (step_keeps obj d values n h)

AreNew-step :
    (obj : Object) (d : FieldDef) (fields : Schema) (values : ℕ → Value)
    → All (elim [ none ↦ Unit {0} | some c ↦ c.slot ≢ d.slot ]) fields
    → AreNew obj fields values
    → AreNew obj fields (step obj d values)
unfolding AreNew
AreNew-step obj d [] values a h = tt
AreNew-step obj d (none ∷ fields) values a h = AreNew-step obj d fields values a.1 h
AreNew-step obj d (some c ∷ fields) values a h =
    let same = step_other obj d values c.slot a.0 in
    (
      (λ e. subst IsBlank (sym same) (h.0 e)),
      (λ e m. same ∙ h.1 e m),
      AreNew-step obj d fields values a.1 h.2,
    )

pub AreNew-AreReady :
    (obj : Object) (fields : Schema) (values : ℕ → Value)
    → AreDistinct fields
    → AreNew obj fields values
    → AreReady obj fields values
unfolding AreNew AreDistinct AreReady step
AreNew-AreReady obj [] values a h = tt
AreNew-AreReady obj (none ∷ fields) values a h = AreNew-AreReady obj fields values a h
AreNew-AreReady obj (some d ∷ fields) values a h = (
  h.0,
  AreNew-AreReady obj fields (step obj d values) a.1 (AreNew-step obj d fields values a.0 h.2),
)

pub filled-Agrees :
    (obj : Object) (fields : Schema) (values : ℕ → Value)
    → AreDistinct fields
    → AreNew obj fields values
    → Agrees obj fields (filled obj fields values)
unfolding AreNew AreDistinct Agrees filled step
filled-Agrees obj [] values a h = tt
filled-Agrees obj (none ∷ fields) values a h = filled-Agrees obj fields values a h
filled-Agrees obj (some d ∷ fields) values a h = (
  (λ m. filled_keeps obj fields (step obj d values) d.slot (elim (Bool-cases (is_written obj d)) [
    | inl e ↦ rw e (set_same d.slot _ values)
    | inr e ↦ rw e (h.1 e m)
  ])),
  filled-Agrees obj fields (step obj d values) a.1 (AreNew-step obj d fields values a.0 h.2),
)
