-- ===== src/Query/Parser/Ensures.antt =====
-- What a parsing function of src/lib/schwa/dr/query.cc may give, with a rule for each way to build one.
use libschwa.Prelude.{
  ℕ, ◌<◌, ◌≡◌, refl, sym, ap, subst, ◌∙◌, inl, inr, Bool, true, false, List, [], ◌∷◌, ◌++◌,
  append_assoc, length, length-append, get_or, ==_iff, if◌then◌else◌, Bool-cases, arith,
}
use libschwa.Exec.{Result, ok, err, assertion, compile_error, Exec, ◌>>=◌, continue}
use libschwa.Query.Syntax.{
  TokenType, literal_integer, literal_regex, literal_string, op_boolean, op_comparison, op_numeric3,
  op_numeric4, function, var, var_attribute, open_paren, close_paren, comma, Token, Expr, binary,
}
use libschwa.Query.Parser.{code, is_type, take_op, joined, next_token, expect}

-- A result that `P` holds of, or one of the two errors.
pub data Ensures {A : Type 0} (P : A → List Token → Type 0) : Result A × List Token → Type 0 where
  holds : {a : A} {ts : List Token} → P a ts → Ensures P (ok a, ts)
  rejected : {ts : List Token} → Ensures P (err compile_error, ts)
  unread : {ts : List Token} → Ensures P (err assertion, ts)

module _ {A B : Type 0} {P : A → List Token → Type 0} {Q : B → List Token → Type 0} where
  Ensures-continue :
      {r : Result A × List Token} (f : A → Exec (List Token) B)
      → Ensures P r
      → ((a : A) (ts : List Token) → P a ts → Ensures Q (f a ts))
      → Ensures Q (continue r.0 f r.1)
  Ensures-continue f (holds p) next = next _ _ p
  Ensures-continue f rejected next = rejected
  Ensures-continue f unread next = unread

  pub Ensures-bind :
      (m : Exec (List Token) A) {ts : List Token} (f : A → Exec (List Token) B)
      → Ensures P (m ts)
      → ((a : A) (us : List Token) → P a us → Ensures Q (f a us))
      → Ensures Q ((m >>= f) ts)
  unfolding ◌>>=◌
  Ensures-bind m f h next = Ensures-continue f h next

Held : {A : Type 0} → (A → List Token → Type 0) → Result A × List Token → Type 0
Held P (ok a, ts) = P a ts
Held P (err e, ts) = Unit {0}

Ensures-Held :
    {A : Type 0} {P : A → List Token → Type 0} {r : Result A × List Token} → Ensures P r → Held P r
unfolding Held
Ensures-Held (holds p) = p
Ensures-Held rejected = tt
Ensures-Held unread = tt

-- What it says of a result that is known.
pub Ensures-ok :
    {A : Type 0} {P : A → List Token → Type 0} {r : Result A × List Token} {a : A} {ts : List Token}
    → Ensures P r
    → r ≡ (ok a, ts)
    → P a ts
unfolding Held
Ensures-ok {P = P} h e = subst (Held P) e (Ensures-Held h)

pub Ensures-if :
    {A : Type 0} {P : A → List Token → Type 0} {r s : Result A × List Token} (b : Bool)
    → (b ≡ true → Ensures P r)
    → (b ≡ false → Ensures P s)
    → Ensures P (if b then r else s)
Ensures-if true h k = h refl
Ensures-if false h k = k refl

of_code : ℕ → TokenType
of_code n =
    get_or
      (literal_integer ∷ literal_regex ∷ literal_string ∷ op_boolean ∷ op_comparison ∷ op_numeric3
        ∷ op_numeric4 ∷ function ∷ var ∷ var_attribute ∷ open_paren ∷ close_paren ∷ [])
      n comma

of_code-code : (t : TokenType) → of_code (code t) ≡ t
unfolding of_code code
of_code-code literal_integer = refl
of_code-code _ = refl

pub is_type→eq : (op : TokenType) (t : Token) → is_type op t ≡ true → t.type ≡ op
unfolding is_type
is_type→eq op t h =
    let e : code t.type ≡ code op = (==_iff _ _).0 h in
    sym (of_code-code t.type) ∙ ap of_code e ∙ of_code-code op

pub is_type_eq : (op : TokenType) (t : Token) → t.type ≡ op → is_type op t ≡ true
unfolding is_type
is_type_eq op t h = (==_iff _ _).1 (ap code h)

-- The parser took some tokens off `ts`, at least one, and they derive what it gave.
pub record Took {A : Type 0} (Derives : List Token → A → Type 0) (ts : List Token) (a : A)
    (rest : List Token) : Type 0 where
  pub used : List Token
  pub split : ts ≡ used ++ rest
  pub some_used : 0 < length used
  pub derives : Derives used a

pub Took-shorter :
    {A : Type 0} {Derives : List Token → A → Type 0} {ts rest : List Token} {a : A}
    → Took Derives ts a rest
    → length rest < length ts
Took-shorter {ts = ts} {rest = rest} t =
    omega (arith, ap length t.split, length-append t.used rest, t.some_used)

pub expect-Ensures :
    (op : TokenType) (ts : List Token)
    → Ensures (λ _ rest. (t : Token) × (ts ≡ t ∷ rest) × (t.type ≡ op)) (expect op ts)
unfolding expect next_token ◌>>=◌
expect-Ensures op [] = rejected
expect-Ensures op (t ∷ ts) = elim (Bool-cases (is_type op t)) [
  | inl e ↦ rw e (holds (t, refl, is_type→eq op t e))
  | inr e ↦ rw e rejected
]

-- A level of the grammar: an operand, and an operator with what comes after it, if there is one.
module _ {Low Right Whole : List Token → Expr → Type 0} (op : TokenType) where
  tail-Took :
      (ts : List Token) {us ws : List Token} {t : Token} {l r e : Expr} (k : Took Low ts l (t ∷ us))
      (kr : Took Right us r ws)
      → Whole (k.used ++ t ∷ kr.used) e
      → Took Whole ts e ws
  tail-Took ts {us} {ws} {t} k kr d = record {
    used = k.used ++ t ∷ kr.used;
    split =
        k.split ∙ ap (λ xs. k.used ++ t ∷ xs) kr.split ∙ sym (append_assoc k.used (t ∷ kr.used) ws);
    some_used = omega (arith, length-append k.used (t ∷ kr.used), k.some_used);
    derives = d;
  }

  tail-Ensures :
      (n : Exec (List Token) Expr) (ts us : List Token) (l : Expr)
      → Took Low ts l us
      → ((vs : List Token) → length vs < length ts → Ensures (Took Right vs) (n vs))
      → ((vs : List Token) (e : Expr) → Low vs e → Whole vs e)
      → ((vs ws : List Token) (t : Token) (l r : Expr)
          → Low vs l
          → t.type ≡ op
          → Right ws r
          → Whole (vs ++ t ∷ ws) (binary t.text l r))
      → Ensures (Took Whole ts) ((take_op op >>= joined l n) us)
  unfolding take_op joined ◌>>=◌
  tail-Ensures n ts [] l k right single both = holds (record {
    used = k.used;
    split = k.split;
    some_used = k.some_used;
    derives = single _ _ k.derives;
  })
  tail-Ensures n ts (t ∷ us) l k right single both = elim (Bool-cases (is_type op t)) [
    | inl e ↦
        let smaller : length us < length ts =
          omega (arith, ap length k.split, length-append k.used (t ∷ us)) in
        rw e (
          Ensures-bind n _ (right us smaller) λ r ws kr.
            holds (tail-Took ts k kr (both _ _ t l r k.derives (is_type→eq op t e) kr.derives)))
    | inr e ↦ rw e (
        holds (record {
          used = k.used;
          split = k.split;
          some_used = k.some_used;
          derives = single _ _ k.derives;
        }))
  ]

  pub level-Ensures :
      (m n : Exec (List Token) Expr) (ts : List Token)
      → Ensures (Took Low ts) (m ts)
      → ((vs : List Token) → length vs < length ts → Ensures (Took Right vs) (n vs))
      → ((vs : List Token) (e : Expr) → Low vs e → Whole vs e)
      → ((vs ws : List Token) (t : Token) (l r : Expr)
          → Low vs l
          → t.type ≡ op
          → Right ws r
          → Whole (vs ++ t ∷ ws) (binary t.text l r))
      → Ensures (Took Whole ts) ((do left ← m; o ← take_op op; joined left n o) ts)
  level-Ensures m n ts low right single both =
      Ensures-bind m _ low λ l us k. tail-Ensures n ts us l k right single both
