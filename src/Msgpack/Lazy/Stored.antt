-- ===== src/Msgpack/Lazy/Stored.antt =====
-- read_lazy of src/lib/schwa/msgpack/wire_impl.h on the bytes of a value: it copies the whole value.
use libschwa.Prelude.{
  ℕ, zero, suc, ◌*◌, ◌^◌, ◌<◌, ◌≤◌, ◌≡◌, true, List, ◌++◌, append-nil, length, length-append, arith,
}
use libschwa.Io.Stream.{In, Out}
use libschwa.Msgpack.Endian.{be_bytes}
use libschwa.Msgpack.Enums.{WireType}
use libschwa.Msgpack.Dynamic.{Value, Values, Pairs}
use libschwa.Msgpack.Dynamic.Format.{
  MapHead, map_head_fixed, map_head_32, Stored, stored_scalar, stored_raw, stored_array, stored_map,
  Items, no_items, item_and, Entries, no_entries, entry_and,
}
use libschwa.Msgpack.Lazy.{Todo, repeat, lazy_rest, read_lazy}
use libschwa.Msgpack.Lazy.Loads.{Loads, Loads-pure, Loads-bind}
use libschwa.Msgpack.Lazy.Switches.{
  Switches, Scalar-Switches, ArrayHead-Switches, MapHead-Switches, RawHead-Switches, Loads-value,
  Loads-repeat_raw,
}

module _ {S : Type 0} {V : S → Type 0} (i : In S V) {T : Type 0} {W : T → Type 0}
    (o : Out T W) where
  head_length :
      {hs : List ℕ} {todo : Todo} (bs : List ℕ)
      → Switches i o hs todo
      → length bs < length (hs ++ bs)
  head_length bs s = rw s.split (omega (arith, length-append s.later bs))

  map_head_length :
      {n : ℕ} {hs : List ℕ} {t : WireType} (bs : List ℕ)
      → MapHead n hs t
      → length bs < length (hs ++ bs)
  map_head_length bs (map_head_fixed n h) = omega arith
  map_head_length bs (map_head_32 n h) = omega (arith, length-append (be_bytes 4 n) bs)

  pub Stored-length : {d : ℕ} {bs : List ℕ} {v : Value} → Stored d bs v → 0 < length bs
  Stored-length (stored_scalar {bs} s) = rw (Scalar-Switches i o s).split (omega arith)
  Stored-length (stored_raw bs h) = omega (arith, head_length bs (RawHead-Switches i o h))
  Stored-length (stored_array {bs} h r) = omega (arith, head_length bs (ArrayHead-Switches i o h))
  Stored-length (stored_map {bs} h r) = omega (arith, map_head_length bs h)

  Entries-length : {d n : ℕ} {bs : List ℕ} {kvs : Pairs} → Entries d n bs kvs → n * 2 ≤ length bs
  Entries-length no_entries = omega arith
  Entries-length (entry_and {bs} {cs} {es} k v r) = omega (
    arith,
    Stored-length k,
    Stored-length v,
    Entries-length r,
    length-append bs (cs ++ es),
    length-append cs es,
  )

  mutual
    unfolding lazy_rest repeat

    -- read_lazy copies a value of the format that is shorter than 2 ^ 32 bytes, taking it whole and no more,
    -- with more fuel than it has bytes.
    pub Loads-Stored :
        {d : ℕ} {bs : List ℕ} {v : Value}
        → Stored d bs v
        → (fuel : ℕ) → length bs < fuel
        → length bs < 2 ^ 32
        → Loads i o (read_lazy i o fuel) bs bs true
    Loads-Stored s zero h l = absurd (omega (arith, h))
    Loads-Stored (stored_scalar {bs} s) (suc fuel) h l =
        rw (← append-nil bs) (Loads-value i o fuel (Scalar-Switches i o s) (Loads-pure i o true))
    Loads-Stored (stored_raw bs k) (suc fuel) h l =
        Loads-value i o fuel (RawHead-Switches i o k) (Loads-repeat_raw i o bs)
    Loads-Stored (stored_array {bs} k r) (suc fuel) h l =
        let less = head_length bs (ArrayHead-Switches i o k) in
        Loads-value i o fuel (ArrayHead-Switches i o k)
          (Loads-Items r fuel (omega (arith, h, less)) (omega (arith, l, less)))
    Loads-Stored (stored_map {bs} k r) (suc fuel) h l =
        let less = map_head_length bs k in
        Loads-value i o fuel (MapHead-Switches i o k (omega (arith, Entries-length r, less, l)))
          (Loads-Entries r fuel (omega (arith, h, less)) (omega (arith, l, less)))

    Loads-Items :
        {d n : ℕ} {bs : List ℕ} {vs : Values}
        → Items d n bs vs
        → (fuel : ℕ) → length bs < fuel
        → length bs < 2 ^ 32
        → Loads i o (repeat i o (read_lazy i o fuel) n) bs bs true
    Loads-Items no_items fuel h l = Loads-pure i o true
    Loads-Items (item_and {bs} {cs} s r) fuel h l =
        let e = length-append bs cs in
        Loads-bind i o _ (Loads-Stored s fuel (omega (arith, e, h)) (omega (arith, e, l)))
          (Loads-Items r fuel (omega (arith, e, h)) (omega (arith, e, l)))

    Loads-Entries :
        {d n : ℕ} {bs : List ℕ} {kvs : Pairs}
        → Entries d n bs kvs
        → (fuel : ℕ) → length bs < fuel
        → length bs < 2 ^ 32
        → Loads i o (repeat i o (read_lazy i o fuel) (n * 2)) bs bs true
    Loads-Entries no_entries fuel h l = Loads-pure i o true
    Loads-Entries (entry_and {n = n} {bs} {cs} {es} k v r) fuel h l =
        let e = length-append bs (cs ++ es) in
        let f = length-append cs es in
        let g : suc n * 2 ≡ suc (suc (n * 2)) = omega arith in
        rw g (
          Loads-bind i o _ (Loads-Stored k fuel (omega (arith, e, h)) (omega (arith, e, l))) (
            Loads-bind i o _ (Loads-Stored v fuel (omega (arith, e, f, h)) (omega (arith, e, f, l)))
              (Loads-Entries r fuel (omega (arith, e, f, h)) (omega (arith, e, f, l)))))
