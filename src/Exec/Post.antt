-- ===== src/Exec/Post.antt =====
-- What holds when a computation over src/lib/schwa/exception.h's exceptions returns, with a rule for
-- each way to build one.
use libschwa.Prelude.{◌≡◌, refl, sym, subst, Bool, true, false, if◌then◌else◌}
use libschwa.Exec.{Error, Result, ok, err, Exec, ◌>>=◌, continue}

-- A result and a state that `P` holds of, or an exception.
pub data Post {S A : Type 0} (P : A → S → Type 0) : Result A × S → Type 0 where
  returns : {a : A} {s : S} → P a s → Post P (ok a, s)
  throws : {e : Error} {s : S} → Post P (err e, s)

module _ {S A B : Type 0} {P : A → S → Type 0} {Q : B → S → Type 0} where
  Post-continue :
      {r : Result A × S} (f : A → Exec S B)
      → Post P r
      → ((a : A) (s : S) → P a s → Post Q (f a s))
      → Post Q (continue r.0 f r.1)
  Post-continue f (returns p) next = next _ _ p
  Post-continue f throws next = throws

  pub Post-bind :
      (m : Exec S A) {s : S} (f : A → Exec S B)
      → Post P (m s)
      → ((a : A) (t : S) → P a t → Post Q (f a t))
      → Post Q ((m >>= f) s)
  unfolding ◌>>=◌
  Post-bind m f h next = Post-continue f h next

pub Post-any : {S A : Type 0} {r : Result A × S} → Post (λ a s. Unit {0}) r
Post-any {r = (ok a, s)} = returns tt
Post-any {r = (err e, s)} = throws

-- A step whose result is known, and what comes after it.
pub step :
    {S A B : Type 0} (m : Exec S A) (f : A → Exec S B) {s t : S} {a : A}
    → m s ≡ (ok a, t)
    → (m >>= f) s ≡ f a t
unfolding ◌>>=◌
step m f e = rw e refl

-- A first step that leaves the state as it was.
pub Post-bind_same :
    {S A B : Type 0} {P : A → Type 0} {Q : B → S → Type 0} (m : Exec S A) {s : S} (f : A → Exec S B)
    → Post (λ a t. P a × (t ≡ s)) (m s)
    → ((a : A) → P a → Post Q (f a s))
    → Post Q ((m >>= f) s)
Post-bind_same {Q = Q} m {s} f h next =
    Post-bind m f h λ a t (p, e). subst (λ u. Post Q (f a u)) (sym e) (next a p)

Returned : {S A : Type 0} → (A → S → Type 0) → Result A × S → Type 0
Returned P (ok a, s) = P a s
Returned P (err e, s) = Unit {0}

module _ {S A : Type 0} {P : A → S → Type 0} where
  pub Post-if :
      (b : Bool) (m n : Exec S A) (s : S)
      → (b ≡ true → Post P (m s))
      → (b ≡ false → Post P (n s))
      → Post P ((if b then m else n) s)
  Post-if true m n s h k = h refl
  Post-if false m n s h k = k refl

  pub Post-imp :
      {Q : A → S → Type 0} {r : Result A × S}
      → ((a : A) (s : S) → P a s → Q a s)
      → Post P r
      → Post Q r
  Post-imp h (returns p) = returns (h _ _ p)
  Post-imp h throws = throws

  Post-Returned : {r : Result A × S} → Post P r → Returned P r
  unfolding Returned
  Post-Returned (returns p) = p
  Post-Returned throws = tt

  pub Post-ok : {r : Result A × S} {a : A} {s : S} → Post P r → r ≡ (ok a, s) → P a s
  unfolding Returned
  Post-ok h e = subst (Returned P) e (Post-Returned h)
