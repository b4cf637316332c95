-- ===== src/Unicode/Strings.antt =====
-- UnicodeString::to_utf8 and from_utf8, and the loops over a UTF8Decoder (src/lib/schwa/unicode.h).
use libschwa.Prelude.{
  ℕ, ◌+◌, ◌<◌, ◌≤◌, ◌≡◌, refl, sym, ap, ap₂, ◌∙◌, List, [], ◌∷◌, ◌++◌, append-nil, length,
  length-append, reverse, arith, All,
}
use mathlib.Core.List.{reverse-append, reverse-cons}
use libschwa.Exec.{ok}
use libschwa.Unicode.Utf8.{read_utf8, read_utf8_backwards, write_utf8, to_utf8}
use libschwa.Unicode.RoundTrip.{read_utf8-write_utf8}
use libschwa.Unicode.Decoder.{start_at, begin_forward, begin_backward, decode, from_utf8}
use libschwa.Unicode.Decodes.{
  Piece, joined, codes, decode-start, joined-append, codes-append, length-codes, to_piece,
}

length-reverse : (cs : List ℕ) → length (reverse cs) ≡ length cs
length-reverse [] = refl
length-reverse (c ∷ cs) =
    ap length (reverse-cons c cs)
    ∙ length-append (reverse cs) (c ∷ [])
    ∙ omega (arith, length-reverse cs)

to_utf8-cons :
    (c : ℕ) (cs utf8 out : List ℕ)
    → write_utf8 c ≡ ok utf8
    → to_utf8 cs ≡ ok out
    → to_utf8 (c ∷ cs) ≡ ok (utf8 ++ out)
unfolding to_utf8
to_utf8-cons c cs utf8 out e f = rw (to_utf8, e, f) refl

ok-injective : {a b : List ℕ} → ok a ≡ ok b → a ≡ b
ok-injective e = cc e

-- The bytes of some code points in pieces, from either end.
record Spelled (cs : List ℕ) : Type 0 where
  utf8 : List ℕ
  written : to_utf8 cs ≡ ok utf8
  ahead : List (Piece read_utf8)
  back : List (Piece read_utf8_backwards)
  ahead_bytes : joined read_utf8 ahead ≡ utf8
  ahead_codes : codes read_utf8 ahead ≡ cs
  back_bytes : joined read_utf8_backwards back ≡ reverse utf8
  back_codes : codes read_utf8_backwards back ≡ reverse cs

cs-Spelled : (cs : List ℕ) → All (λ c. c < 0x200000) cs → Spelled cs
unfolding to_utf8 read_utf8 read_utf8_backwards
cs-Spelled [] h = record {
  utf8 = [];
  written = refl;
  ahead = [];
  back = [];
  ahead_bytes = refl;
  ahead_codes = refl;
  back_bytes = refl;
  back_codes = refl;
}
cs-Spelled (c ∷ cs) h =
    let t = read_utf8-write_utf8 c h.0 in
    let s = cs-Spelled cs h.1 in
    let (p, pc, pb) = to_piece read_utf8 t.utf8 c refl t.read_back in
    let (q, qc, qb) = to_piece read_utf8_backwards (reverse t.utf8) c refl t.read_backwards in
    record {
      utf8 = t.utf8 ++ s.utf8;
      written = to_utf8-cons c cs t.utf8 s.utf8 t.written s.written;
      ahead = p ∷ s.ahead;
      back = s.back ++ q ∷ [];
      ahead_bytes = ap₂ (λ x y. x ++ y) pb s.ahead_bytes;
      ahead_codes = ap₂ (λ x y. x ∷ y) pc s.ahead_codes;
      back_bytes =
          joined-append read_utf8_backwards s.back (q ∷ [])
          ∙ ap₂ (λ x y. x ++ y) s.back_bytes (append-nil (q.byte ∷ q.bytes) ∙ qb)
          ∙ sym (reverse-append t.utf8 s.utf8);
      back_codes =
          codes-append read_utf8_backwards s.back (q ∷ [])
          ∙ ap₂ (λ x y. x ++ y ∷ []) s.back_codes qc
          ∙ sym (reverse-cons c cs);
    }

pub record IsDecoded (fuel : ℕ) (cs : List ℕ) : Type 0 where
  pub utf8 : List ℕ
  pub written : to_utf8 cs ≡ ok utf8
  pub forward : (decode read_utf8 fuel (begin_forward utf8)).0 ≡ ok cs
  pub backward : (decode read_utf8_backwards fuel (begin_backward utf8)).0 ≡ ok (reverse cs)

-- to_utf8 succeeds on code points below 2 ^ 21, and over the bytes that it gives, a loop from begin()
-- to end() of a UTF8Decoder visits just these code points in order, and one from rbegin() to rend() in
-- the opposite order; two rounds more than there are code points are enough.
pub decode-to_utf8 :
    (cs : List ℕ) (fuel : ℕ) → All (λ c. c < 0x200000) cs → length cs + 1 < fuel → IsDecoded fuel cs
unfolding begin_forward begin_backward
decode-to_utf8 cs fuel h f =
    let s = cs-Spelled cs h in
    let m : length s.ahead ≡ length cs =
      sym (length-codes read_utf8 s.ahead) ∙ ap length s.ahead_codes in
    let n : length s.back ≡ length cs =
      sym (length-codes read_utf8_backwards s.back) ∙ ap length s.back_codes ∙ length-reverse cs in
    record {
      utf8 = s.utf8;
      written = s.written;
      forward =
          ap (λ t. (decode read_utf8 fuel (start_at [] t)).0) (sym s.ahead_bytes)
          ∙ decode-start read_utf8 s.ahead fuel (omega (arith, f, m))
          ∙ ap ok s.ahead_codes;
      backward =
          ap (λ t. (decode read_utf8_backwards fuel (start_at [] t)).0) (sym s.back_bytes)
          ∙ decode-start read_utf8_backwards s.back fuel (omega (arith, f, n))
          ∙ ap ok s.back_codes;
    }

length-joined : (ps : List (Piece read_utf8)) → length ps ≤ length (joined read_utf8 ps)
length-joined [] = omega arith
length-joined (p ∷ ps) =
    omega (arith, length-joined ps, length-append p.bytes (joined read_utf8 ps))

-- What to_utf8 makes of code points below 2 ^ 21, from_utf8 takes back.
pub from_utf8-to_utf8 :
    (cs utf8 : List ℕ) → All (λ c. c < 0x200000) cs → to_utf8 cs ≡ ok utf8 → from_utf8 utf8 ≡ ok cs
unfolding from_utf8 begin_forward
from_utf8-to_utf8 cs utf8 h e =
    let s = cs-Spelled cs h in
    let same : s.utf8 ≡ utf8 = ok-injective (sym s.written ∙ e) in
    let enough : length s.ahead + 1 < length (joined read_utf8 s.ahead) + 2 =
      omega (arith, length-joined s.ahead) in
    ap (λ t. from_utf8 t) (sym same ∙ sym s.ahead_bytes)
    ∙ decode-start read_utf8 s.ahead (length (joined read_utf8 s.ahead) + 2) enough
    ∙ ap ok s.ahead_codes
