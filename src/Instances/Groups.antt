-- ===== src/Instances/Groups.antt =====
-- The instances of a store: what the last loop of Writer::write (src/lib/schwa/dr/writer.cc) writes to its buffer,
-- the loop over the instances in Reader::read (reader.cc) reads back.
use libschwa.Prelude.{ℕ, ◌≡◌, List, [], ◌∷◌, ◌++◌}
use libschwa.Exec.{ok, Exec}
use libschwa.Io.Stream.{In, Out}
use libschwa.Fields.Stores.{IStore}
use libschwa.Instances.{Object, Schema, Buffers, write_instance_group, read_instance_group}
use libschwa.Instances.Whole.{IsReadBack}

-- `R` of the first of both, of the second of both, and so on, with nothing left over.
unfoldable pub Zip : (Object → Object → Type 0) → List Object → List Object → Type 0
Zip R [] [] = Unit {0}
Zip R (x ∷ xs) (y ∷ ys) = R x y × Zip R xs ys
Zip R _ _ = ⊥

module _ {S : Type 0} {V : S → Type 0} (i : In S V) {Z : Type 0} {Y : Z → Type 0} (z : Out Z Y)
    {T : Type 0} {W : T → Type 0} (o : Out T W) (b : Buffers o) (current : IStore)
    (fields : Schema) where
  -- The steps `write` and `read` pass on objects: `write` appends `wire` to any valid buffer, and where that
  -- comes next, `read` takes just that and gives objects that have what those of `objs` have.
  pub record ArePassed (objs : List Object) (write : Exec T (Unit {0}))
      (read : Exec (S × Z) (List Object)) : Type 0 where
    pub wire : List ℕ
    pub writes :
        (t : T) → W t → (u : T) × (write t ≡ (ok tt, u)) × W u × (o.bytes u ≡ o.bytes t ++ wire)
    pub reads :
        (p : S × Z) (rest : List ℕ)
        → V p.0
        → Y p.1
        → i.view p.0 ≡ wire ++ rest
        → (got : List Object) × (q : S × Z) × (read p ≡ (ok got, q))
          × V q.0
          × Y q.1
          × (i.view q.0 ≡ rest)
          × Zip (IsReadBack i z o b current fields) objs got

  abbrev pub AreKept : List Object → List Object → Type 0
  AreKept objs new =
      ArePassed objs (write_instance_group o current b fields objs)
        (read_instance_group i z current fields new)
