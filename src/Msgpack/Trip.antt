-- ===== src/Msgpack/Trip.antt =====
-- A writer and a reader of src/lib/schwa/msgpack/wire_impl.h that belong together.
use libschwa.Prelude.{ℕ, ◌≡◌, refl, Bool, true, false, List, [], ◌++◌, if◌then◌else◌}
use libschwa.Exec.{Exec, pure, ◌>>=◌}
use libschwa.Io.Stream.{In, Out}
use libschwa.Io.Effects.{Reads, Reads-pure, Reads-bind, Writes, Writes-id, Writes-then}

-- `w` appends some bytes to any valid sink, and where they come next in a valid source, `r` takes
-- just them and returns `a`.
pub record Trip {T : Type 0} {W : T → Type 0} (o : Out T W) {S : Type 0} {V : S → Type 0}
    (i : In S V) {A : Type 0} (w : T → T) (r : Exec S A) (a : A) : Type 0 where
  pub wire : List ℕ
  pub writes : Writes o w wire
  pub reads : Reads i r wire a

module _ {T : Type 0} {W : T → Type 0} (o : Out T W) {S : Type 0} {V : S → Type 0} (i : In S V)
    {A : Type 0} {v w : T → T} {r : Exec S A} {a : A} where
  -- A writer that branches, by a trip for each branch.
  pub Trip-if :
      (b : Bool)
      → (b ≡ true → Trip o i v r a)
      → (b ≡ false → Trip o i w r a)
      → Trip o i (if b then v else w) r a
  Trip-if true yes_trip no_trip = yes_trip refl
  Trip-if false yes_trip no_trip = no_trip refl

module _ {T : Type 0} {W : T → Type 0} (o : Out T W) {S : Type 0} {V : S → Type 0}
    (i : In S V) where
  pub Trip-pure : {A : Type 0} (a : A) → Trip o i (λ t. t) (pure a) a
  Trip-pure a = record { wire = []; writes = Writes-id o; reads = Reads-pure i a }

  -- One writer after another, with their readers.
  pub Trip-bind :
      {A B : Type 0} {v w : T → T} {m : Exec S A} (f : A → Exec S B) {a : A} {b : B}
      → Trip o i v m a
      → Trip o i w (f a) b
      → Trip o i (λ t. w (v t)) (m >>= f) b
  Trip-bind f first second = record {
    wire = first.wire ++ second.wire;
    writes = Writes-then o first.writes second.writes;
    reads = Reads-bind i f first.reads second.reads;
  }
