-- ===== src/Instances/Room.antt =====
-- The memory that Reader::read of src/lib/schwa/dr/reader.cc sets aside for what stays lazy.
use libschwa.Prelude.{◌⊎◌, ◌∷◌, ℕ, ◌+◌, ◌-◌, ◌≤◌, ◌≡◌, List, [], ◌∷◌, length, take}
use libschwa.Exec.{ok, Exec}
use libschwa.Io.Stream.{In, Out}
use libschwa.Msgpack.Costs.{left_of}
use libschwa.Fields.Stores.{IStore}

module _ {S : Type 0} {V : S → Type 0} (i : In S V) where
  give : {A : Type 0} → S → A → Exec S (A × List ℕ)
  give s a s' = (ok (a, take (left_of i s - left_of i s') (i.view s)), s')

module _ {S : Type 0} {V : S → Type 0} (i : In S V) {T : Type 0} {W : T → Type 0} (o : Out T W)
    (current : IStore) where
  Within : ℕ → S × T → Type 0
  Within n q =
      (length (o.bytes q.1) + length (i.view q.0) ≤ n)
      ⊎ ((i.view q.0 ≡ []) × length (o.bytes q.1) ≤ n + 8)
