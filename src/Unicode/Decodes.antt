-- ===== src/Unicode/Decodes.antt =====
-- The loop over a UTF8Decoder of src/lib/schwa/unicode.h, on bytes that are known in pieces.
use libschwa.Prelude.{
  ℕ, zero, suc, ◌+◌, ◌-◌, ◌<◌, ◌≡◌, refl, sym, ap, ◌∙◌, Bool, true, false, List, [], ◌∷◌, ◌++◌,
  append_assoc, length, length-append, reverse, take, take-append, arith,
}
use libschwa.Exec.{Error, Result, ok, err, ◌>>=◌}
use libschwa.Unicode.Utf8.{max_code_point}
use libschwa.Unicode.Decoder.{
  Utf8Iterator, start_at, is_end, passed, moved, read_on, read_forward, ensure_read, increment,
  current_code_point, decode,
}

-- A code point with bytes that the reader takes for it, whatever follows.
pub record Piece (forward : List ℕ → Result (ℕ × List ℕ)) : Type 0 where
  pub code : ℕ
  pub byte : ℕ
  pub bytes : List ℕ
  pub reads : (rest : List ℕ) → forward (byte ∷ (bytes ++ rest)) ≡ ok (code, rest)

module _ (forward : List ℕ → Result (ℕ × List ℕ)) where
  abbrev pub joined : List (Piece forward) → List ℕ
  joined [] = []
  joined (p ∷ ps) = p.byte ∷ (p.bytes ++ joined ps)

  abbrev pub codes : List (Piece forward) → List ℕ
  codes [] = []
  codes (p ∷ ps) = p.code ∷ codes ps

  -- An iterator on a piece, or before the first one.
  abbrev on : List ℕ → Piece forward → List ℕ → Bool → Utf8Iterator
  on before p after read = record {
    before = before;
    current = p.byte ∷ p.bytes;
    after = after;
    code_point = p.code;
    read = read;
  }

  took : (xs ys : List ℕ) → take (length (xs ++ ys) - length ys) (xs ++ ys) ≡ xs
  took xs ys =
      let e : length xs ≡ length (xs ++ ys) - length ys = omega (arith, length-append xs ys) in
      take-append (length (xs ++ ys) - length ys) xs ys e

  read_forward-piece :
      (before current : List ℕ) (c : ℕ) (r : Bool) (p : Piece forward) (ps : List (Piece forward))
      → read_forward forward (record {
        before = before;
        current = current;
        after = joined (p ∷ ps);
        code_point = c;
        read = r;
      })
        ≡ (ok tt, on (reverse current ++ before) p (joined ps) r)
  unfolding read_forward read_on passed moved
  read_forward-piece before current c r p ps =
      rw (p.reads (joined ps), took (p.byte ∷ p.bytes) (joined ps)) refl

  -- One round of the loop.
  decode-round :
      (before : List ℕ) (p : Piece forward) (after : List ℕ) (it : Utf8Iterator) (fuel : ℕ)
      (cs : List ℕ)
      → read_forward forward (on before p after true) ≡ (ok tt, it)
      → (decode forward fuel it).0 ≡ ok cs
      → (decode forward (suc fuel) (on before p after true)).0 ≡ ok (p.code ∷ cs)
  unfolding decode is_end current_code_point increment ensure_read ◌>>=◌
  decode-round before p after it fuel cs e f = rw (e, f) refl

  -- Behind the last code point.
  abbrev stop : List ℕ → Utf8Iterator
  stop before = record {
    before = before;
    current = [];
    after = [];
    code_point = max_code_point;
    read = true;
  }

  read_forward-stop :
      (before : List ℕ) (p : Piece forward)
      → read_forward forward (on before p [] true)
        ≡ (ok tt, stop (reverse (p.byte ∷ p.bytes) ++ before))
  unfolding read_forward read_on passed
  read_forward-stop before p = refl

  decode-stop :
      (before : List ℕ) (fuel : ℕ) → 0 < fuel → (decode forward fuel (stop before)).0 ≡ ok []
  unfolding decode is_end
  decode-stop before zero h = absurd (omega (arith, h))
  decode-stop before (suc fuel) h = refl

  decode-empty : (fuel : ℕ) → (decode forward (suc fuel) (start_at [] [])).0 ≡ ok []
  unfolding decode is_end start_at
  decode-empty fuel = refl

  decode-on :
      (ps : List (Piece forward)) (before : List ℕ) (p : Piece forward) (fuel : ℕ)
      → length ps + 1 < fuel
      → (decode forward fuel (on before p (joined ps) true)).0 ≡ ok (codes (p ∷ ps))
  decode-on ps before p zero h = absurd (omega (arith, h))
  decode-on [] before p (suc fuel) h =
      decode-round before p [] _ fuel [] (read_forward-stop before p)
        (decode-stop _ fuel (omega (arith, h)))
  decode-on (q ∷ ps) before p (suc fuel) h =
      decode-round before p (joined (q ∷ ps)) _ fuel (codes (q ∷ ps))
        (read_forward-piece before (p.byte ∷ p.bytes) p.code true q ps)
        (decode-on ps _ q fuel (omega (arith, h)))

  -- The first code point is read in the first round.
  decode-first :
      (p : Piece forward) (ps : List (Piece forward)) (fuel : ℕ)
      → (decode forward (suc fuel) (start_at [] (joined (p ∷ ps)))).0
        ≡ (decode forward (suc fuel) (on [] p (joined ps) true)).0
  unfolding decode is_end start_at current_code_point increment ensure_read ◌>>=◌
  decode-first p ps fuel = rw (read_forward-piece [] [] max_code_point false p ps) refl

  pub decode-start :
      (ps : List (Piece forward)) (fuel : ℕ)
      → length ps + 1 < fuel
      → (decode forward fuel (start_at [] (joined ps))).0 ≡ ok (codes ps)
  decode-start ps zero h = absurd (omega (arith, h))
  decode-start [] (suc fuel) h = decode-empty fuel
  decode-start (p ∷ ps) (suc fuel) h =
      decode-first p ps fuel ∙ decode-on ps [] p (suc fuel) (omega (arith, h))

  pub joined-append : (ps qs : List (Piece forward)) → joined (ps ++ qs) ≡ joined ps ++ joined qs
  joined-append [] qs = refl
  joined-append (p ∷ ps) qs =
      ap (λ t. p.byte ∷ (p.bytes ++ t)) (joined-append ps qs)
      ∙ ap (λ t. p.byte ∷ t) (sym (append_assoc p.bytes _ _))

  pub codes-append : (ps qs : List (Piece forward)) → codes (ps ++ qs) ≡ codes ps ++ codes qs
  codes-append [] qs = refl
  codes-append (p ∷ ps) qs = ap (λ t. p.code ∷ t) (codes-append ps qs)

  pub length-codes : (ps : List (Piece forward)) → length (codes ps) ≡ length ps
  length-codes [] = refl
  length-codes (p ∷ ps) = ap (λ n. suc n) (length-codes ps)

  -- A reader that fails on no bytes takes at least one for a code point.
  pub to_piece :
      {e : Error} (bs : List ℕ) (c : ℕ)
      → forward [] ≡ err e
      → ((rest : List ℕ) → forward (bs ++ rest) ≡ ok (c, rest))
      → (p : Piece forward) × (p.code ≡ c) × (p.byte ∷ p.bytes ≡ bs)
  to_piece [] c e r = cc (sym e ∙ r [])
  to_piece (b ∷ bs) c e r = (record { code = c; byte = b; bytes = bs; reads = r }, refl, refl)
