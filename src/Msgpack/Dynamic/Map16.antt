-- ===== src/Msgpack/Dynamic/Map16.antt =====
-- What read_dynamic (src/lib/schwa/msgpack/wire_impl.h) does to a map with a 16-bit header, which
-- write_map_size writes: its case for MAP_16 does not take the header byte before the size.
use libschwa.Prelude.{ℕ, ◌+◌, ◌/◌, ◌%◌, ◌^◌, ◌<◌, ◌≡◌, ap, ap₂, arith, [], ◌∷◌, true, false, leb}
use libschwa.Io.Stream.{In, Out}
use libschwa.Io.Effects.{Reads, Writes}
use libschwa.Msgpack.Endian.{be_bytes}
use libschwa.Msgpack.Enums.{map_16}
use libschwa.Msgpack.Header
use libschwa.Msgpack.Write.{write_map_size, write_map_16}
use libschwa.Msgpack.Words.{Reads-be, Writes-word}
use libschwa.Msgpack.Dynamic.{entries, dynamic_switch}
use libschwa.Msgpack.Dynamic.Steps.{Reads-map}

header_word : (b : ℕ) → b < 256 → be_bytes 2 (0xde00 + b) ≡ 0xde ∷ b ∷ []
unfolding be_bytes
header_word b h =
    let high : (0xde00 + b) / 256 % 256 ≡ 0xde = omega (arith, h) in
    let low : (0xde00 + b) % 256 ≡ b = omega (arith, h) in ap₂ (λ x y. x ∷ y ∷ []) high low

size_word : (n : ℕ) → n < 2 ^ 16 → be_bytes 2 n ≡ n / 256 ∷ n % 256 ∷ []
unfolding be_bytes
size_word n h =
    let high : n / 256 % 256 ≡ n / 256 = omega (arith, h) in ap (λ x. x ∷ n % 256 ∷ []) high

module _ {T : Type 0} {W : T → Type 0} (o : Out T W) {S : Type 0} {V : S → Type 0}
    (i : In S V) where
  -- write_map_size writes a size from 16 to 65535 as 0xde and the two bytes of the size; at these
  -- bytes the switch of read_dynamic takes only the first two, and takes 0xde00 and the high byte of
  -- the size for the number of entries.
  pub dynamic_switch-map_16 :
      (n : ℕ)
      → 15 < n
      → n < 2 ^ 16
      → Writes o (write_map_size o n) (0xde ∷ n / 256 ∷ n % 256 ∷ [])
        × Reads i (dynamic_switch i map_16 0xde) (0xde ∷ n / 256 ∷ []) (entries (0xde00 + n / 256))
  unfolding write_map_size write_map_16 dynamic_switch
  dynamic_switch-map_16 n low high =
      let b : n / 256 < 256 = omega (arith, high) in
      let e : leb n 15 ≡ false = ground arith in
      let f : leb n 0xffff ≡ true = ground arith in
      (
        rw (e, f, ← size_word n high) (Writes-word o Header.map_16 2 n),
        rw (← header_word (n / 256) b)
            (Reads-map i entries (Reads-be i 2 (0xde00 + n / 256) (omega (arith, b)))),
      )
