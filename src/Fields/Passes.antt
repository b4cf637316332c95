-- ===== src/Fields/Passes.antt =====
-- Writers that may throw, with the readers that belong to them: what they write is read back.
use libschwa.Prelude.{◌≡◌, refl, []}
use libschwa.Exec.{ok, Exec, pure, ◌>>=◌, ◌>>◌}
use libschwa.Io.Stream.{In, Out}
use libschwa.Io.Effects.{Writes-id}
use libschwa.Msgpack.Trip.{Trip, Trip-pure, Trip-bind}

-- A writer that throws nothing, in a chain of steps.
unfoldable pub act : {T : Type 0} → (T → T) → Exec T (Unit {0})
act w t = (ok tt, w t)

-- `m` returns `u` on any sink, and `r` reads what it wrote as `a`.
pub record Passes {T : Type 0} {W : T → Type 0} (o : Out T W) {S : Type 0} {V : S → Type 0}
    (i : In S V) {U A : Type 0} (m : Exec T U) (r : Exec S A) (u : U) (a : A) : Type 0 where
  pub writer : T → T
  pub runs : (t : T) → m t ≡ (ok u, writer t)
  pub trip : Trip o i writer r a

module _ {T : Type 0} {W : T → Type 0} (o : Out T W) {S : Type 0} {V : S → Type 0}
    (i : In S V) where
  pub Passes-pure : {U A : Type 0} (u : U) (a : A) → Passes o i (pure u) (pure a) u a
  Passes-pure u a = record { writer = λ t. t; runs = λ t. refl; trip = Trip-pure o i a }

  pub Passes-act :
      {A : Type 0} {w : T → T} {r : Exec S A} {a : A} → Trip o i w r a → Passes o i (act w) r tt a
  unfolding act
  Passes-act {w = w} trip = record { writer = w; runs = λ t. refl; trip = trip }

  pub Passes-bind :
      {U X A B : Type 0} {m : Exec T U} {r : Exec S A} {u : U} {a : A} (f : U → Exec T X)
      (g : A → Exec S B) {x : X} {b : B}
      → Passes o i m r u a
      → Passes o i (f u) (g a) x b
      → Passes o i (m >>= f) (r >>= g) x b
  unfolding ◌>>=◌
  Passes-bind f g first second = record {
    writer = λ t. second.writer (first.writer t);
    runs = λ t. rw (first.runs t) (second.runs (first.writer t));
    trip = Trip-bind o i g first.trip second.trip;
  }

  -- Last steps that read nothing.
  pub Passes-end :
      {U A B : Type 0} {m : Exec T U} {r : Exec S A} {u : U} {a : A} (g : A → Exec S B) {b : B}
      → Passes o i m r u a
      → ((s : S) → g a s ≡ (ok b, s))
      → Passes o i m (r >>= g) u b
  Passes-end g {b} first last = record {
    writer = first.writer;
    runs = first.runs;
    trip = Trip-bind o i {v = first.writer} {w = λ t. t} g first.trip (record {
      wire = [];
      writes = Writes-id o;
      reads = record { at = λ s rest v e. (s, last s, v, e) };
    });
  }

  pub Passes-then :
      {U X A B : Type 0} {m : Exec T U} {n : Exec T X} {r : Exec S A} {u : U} {a : A}
      (g : A → Exec S B) {x : X} {b : B}
      → Passes o i m r u a
      → Passes o i n (g a) x b
      → Passes o i (m >> n) (r >>= g) x b
  Passes-then {n} g first second = Passes-bind (λ _. n) g first second
