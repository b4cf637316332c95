-- ===== src/Tests/Unicode.antt =====
-- Runs of src/lib/schwa/unicode.cc and its theorems at concrete inputs.
use libschwa.Prelude.{◌≡◌, refl, arith, [], ◌∷◌}
use libschwa.Exec.{ok}
use libschwa.Unicode.Utf8.{write_utf8}
use libschwa.Unicode.RoundTrip.{RoundTrip, read_utf8-write_utf8}
use libschwa.Unicode.Strings.{IsDecoded, decode-to_utf8, from_utf8-to_utf8}
use libschwa.Unicode.Decoder.{from_utf8}
use libschwa.Unicode.Utf8.{to_utf8}

euro : write_utf8 0x20AC ≡ ok (0xE2 ∷ 0x82 ∷ 0xAC ∷ [])
unfolding write_utf8
euro = refl

read_utf8-write_utf8_example : RoundTrip 0x20AC
read_utf8-write_utf8_example = read_utf8-write_utf8 0x20AC (omega arith)

decode-to_utf8_example : IsDecoded 5 (0x48 ∷ 0xE9 ∷ 0x1F600 ∷ [])
decode-to_utf8_example =
    decode-to_utf8 (0x48 ∷ 0xE9 ∷ 0x1F600 ∷ []) 5 (omega arith, (omega arith, (omega arith, tt)))
      (omega arith)

euros : to_utf8 (0x20AC ∷ []) ≡ ok (0xE2 ∷ 0x82 ∷ 0xAC ∷ [])
unfolding to_utf8 write_utf8
euros = refl

from_utf8-to_utf8_example : from_utf8 (0xE2 ∷ 0x82 ∷ 0xAC ∷ []) ≡ ok (0x20AC ∷ [])
from_utf8-to_utf8_example =
    from_utf8-to_utf8 (0x20AC ∷ []) (0xE2 ∷ 0x82 ∷ 0xAC ∷ []) (omega arith, tt) euros
