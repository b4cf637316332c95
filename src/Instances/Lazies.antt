-- ===== src/Instances/Lazies.antt =====
-- What is lazy in an instance, and how much of it (write_lazy of src/lib/schwa/dr/writer.cc and the loop of
-- Reader::read in reader.cc).
use libschwa.Prelude.{
  ℕ, zero, suc, ◌+◌, ◌≤◌, ◌≡◌, refl, ap, true, none, some, List, [], ◌∷◌, ◌++◌, length,
  length-append, arith, if◌then◌else◌, inl, inr, Bool-cases,
}
use libschwa.Io.Stream.{In, Out}
use libschwa.Io.Effects.{Writes, Writes-id, Writes-write}
use libschwa.Fields.Stores.{IStore}
use libschwa.Fields.Values.{is_empty}
use libschwa.Msgpack.Lazy.Stored.{Stored-length}
use libschwa.Instances.{Object, Schema, Found, count}
use libschwa.Instances.Entries.{is_written, written, key_trip, IsLazy, nothing, and_field, bump}

pub written-le : (obj : Object) (rest : Schema) → written obj rest ≤ length rest
unfolding written count
written-le obj [] = omega arith
written-le obj (none ∷ rest) = omega (arith, written-le obj rest)
written-le obj (some d ∷ rest) = elim (Bool-cases (is_written obj d)) [
  | inl e ↦ rw e (omega (arith, written-le obj rest))
  | inr e ↦ rw e (omega (arith, written-le obj rest))
]

pub empty_lem : (bs : List ℕ) → is_empty bs ≡ true → bs ≡ []
unfolding is_empty
empty_lem [] e = refl
empty_lem (x ∷ xs) e = absurd (cc e)

module _ {T : Type 0} {W : T → Type 0} (o : Out T W) where
  pub Writes-lazy :
      (lazy : List ℕ) → Writes o (λ t. if is_empty lazy then t else o.write lazy t) lazy
  unfolding is_empty
  Writes-lazy [] = Writes-id o
  Writes-lazy (x ∷ xs) = Writes-write o (x ∷ xs)

module _ {S : Type 0} {V : S → Type 0} (i : In S V) {Z : Type 0} {Y : Z → Type 0}
    (z : Out Z Y) where
  module _ (fields : Schema) where
    pub IsLazy-zero : (bs : List ℕ) (n : ℕ) → IsLazy i z fields bs n → n ≡ 0 → bs ≡ []
    IsLazy-zero _ _ nothing e = refl
    IsLazy-zero _ _ (and_field key v h g s l more) e = absurd (omega (arith, e))

    pub IsLazy-empty : (bs : List ℕ) (n : ℕ) → IsLazy i z fields bs n → is_empty bs ≡ true → n ≡ 0
    IsLazy-empty _ _ nothing e = refl
    IsLazy-empty _ _ (and_field {bs = bs} key v h g s l more) e =
        let wire = (key_trip i z key h).wire in
        absurd (
          omega (
            arith,
            Stored-length i z s,
            length-append wire v,
            length-append (wire ++ v) bs,
            ap length (empty_lem ((wire ++ v) ++ bs) e),
          ))

  module _ (current : IStore) (fields : Schema) where
    pub bump_values :
        (n : ℕ) (found : Found) → (bump i z current fields n found).values ≡ found.values
    unfolding bump
    bump_values zero found = refl
    bump_values (suc n) found =
        bump_values n (record found { lazy_nfields = suc found.lazy_nfields })

    pub bump_count :
        (n : ℕ) (found : Found)
        → (bump i z current fields n found).lazy_nfields ≡ n + found.lazy_nfields
    unfolding bump
    bump_count zero found = omega arith
    bump_count (suc n) found =
        omega (arith, bump_count n (record found { lazy_nfields = suc found.lazy_nfields }))
