-- ===== src/Io/Budget.antt =====
-- How many bytes a step of src/lib/schwa/dr/reader.cc may still write: rules that put the steps together.
use libschwa.Prelude.{ℕ, ◌+◌, ◌-◌, ◌≤◌, ◌⊎◌, inl, inr, Bool, true, false, if◌then◌else◌, arith}
use libschwa.Exec.{Error, Result, ok, err, Exec, pure, raise, continue, ◌>>=◌}

-- A number of bytes that may be written: for sure, or also when a read has come to the end of the input.
pub data Budget : Type 0 where
  whole any : ℕ → Budget

-- `size` stays eight bytes and the budget below `m`. At the end of the input the eight may be used up.
unfoldable pub Holds : ℕ → Type 0 → ℕ → Budget → Type 0
Holds size at_end m (whole k) = size + 8 + k ≤ m
Holds size at_end m (any k) = (size + 8 + k ≤ m) ⊎ (at_end × (size + k ≤ m))

-- The first asks for no more than the second gives.
unfoldable pub Less : Budget → Budget → Type 0
Less (any j) (any k) = j ≤ k
Less (any j) (whole k) = j ≤ k
Less (whole j) (any k) = ⊥
Less (whole j) (whole k) = j ≤ k

-- What is due after a step: a budget for each value that it returns, and nothing after a throw.
abbrev pub owed : {A : Type 0} → (A → Budget) → Result A → Budget
owed due (ok a) = due a
owed due (err e) = any 0

abbrev pub free : {A : Type 0} → A → Budget
free a = any 0

unfoldable pub plus : ℕ → Budget → Budget
plus j (whole k) = whole (j + k)
plus j (any k) = any (j + k)

Less-none : (b : Budget) → Less (any 0) b
unfolding Less
Less-none (whole k) = omega arith
Less-none (any k) = omega arith

Holds-Less :
    (size : ℕ) (at_end : Type 0) (m : ℕ) (b c : Budget)
    → Less b c
    → Holds size at_end m c
    → Holds size at_end m b
unfolding Holds Less
Holds-Less size at_end m (any j) (any k) l (inl h) = inl (omega (arith, l, h))
Holds-Less size at_end m (any j) (any k) l (inr h) = inr (h.0, omega (arith, l, h.1))
Holds-Less size at_end m (any j) (whole k) l h = inl (omega (arith, l, h))
Holds-Less size at_end m (whole j) (any k) l h = absurd l
Holds-Less size at_end m (whole j) (whole k) l h = omega (arith, l, h)

-- What else is left stays left.
Holds-frame :
    (j size : ℕ) (at_end : Type 0) (m : ℕ) (b : Budget)
    → Holds size at_end m (plus j b)
    → Holds size at_end (m - j) b
unfolding Holds plus
Holds-frame j size at_end m (whole k) h = omega (arith, h)
Holds-frame j size at_end m (any k) (inl h) = inl (omega (arith, h))
Holds-frame j size at_end m (any k) (inr h) = inr (h.0, omega (arith, h.1))

Holds-le :
    (j size : ℕ) (at_end : Type 0) (m : ℕ) (b : Budget) → Holds size at_end m (plus j b) → j ≤ m
unfolding Holds plus
Holds-le j size at_end m (whole k) h = omega (arith, h)
Holds-le j size at_end m (any k) (inl h) = omega (arith, h)
Holds-le j size at_end m (any k) (inr h) = omega (arith, h.1)

Holds-unframe :
    (j size : ℕ) (at_end : Type 0) (m : ℕ) (b : Budget)
    → j ≤ m
    → Holds size at_end (m - j) b
    → Holds size at_end m (plus j b)
unfolding Holds plus
Holds-unframe j size at_end m (whole k) l h = omega (arith, l, h)
Holds-unframe j size at_end m (any k) l (inl h) = inl (omega (arith, l, h))
Holds-unframe j size at_end m (any k) l (inr h) = inr (h.0, omega (arith, l, h.1))

module _ {X : Type 0} (Valid : X → Type 0) (size : X → ℕ) (AtEnd : X → Type 0) where
  pub record Held (m : ℕ) (b : Budget) (x : X) : Type 0 where
    pub valid : Valid x
    pub held : Holds (size x) (AtEnd x) m b

  -- Where `b` is left before, what is due is left after, whether `step` returns or throws.
  pub record Fits (b : Budget) {A : Type 0} (due : A → Budget) (step : Exec X A) : Type 0 where
    pub at : (m : ℕ) (x : X) → Held m b x → Held m (owed due (step x).0) (step x).1

  Held-Less : {m : ℕ} {x : X} (b c : Budget) → Less b c → Held m c x → Held m b x
  Held-Less {m} {x} b c l h = record {
    valid = h.valid;
    held = Holds-Less (size x) (AtEnd x) m b c l h.held;
  }

  pub Fits-pure :
      {b : Budget} {A : Type 0} (due : A → Budget) (a : A) → Less (due a) b → Fits b due (pure a)
  Fits-pure {b} due a l = record { at = λ m x h. Held-Less (due a) b l h }

  pub Fits-raise : {b : Budget} {A : Type 0} (due : A → Budget) (e : Error) → Fits b due (raise e)
  Fits-raise {b} due e = record { at = λ m x h. Held-Less (any 0) b (Less-none b) h }

  continue-Held :
      {m : ℕ} {A B : Type 0} {due : A → Budget} {due' : B → Budget} (f : A → Exec X B)
      → ((a : A) → Fits (due a) due' (f a))
      → (r : Result A) (x : X) → Held m (owed due r) x
      → Held m (owed due' (continue r f x).0) (continue r f x).1
  continue-Held f cf (ok a) x h = (cf a).at _ x h
  continue-Held f cf (err e) x h = h

  pub Fits-bind :
      {b : Budget} {A B : Type 0} {due : A → Budget} {due' : B → Budget} {step : Exec X A}
      (f : A → Exec X B)
      → Fits b due step
      → ((a : A) → Fits (due a) due' (f a))
      → Fits b due' (step >>= f)
  unfolding ◌>>=◌
  Fits-bind f first next = record { at = λ m x h. continue-Held f next _ _ (first.at m x h) }

  pub Fits-if :
      {b : Budget} {A : Type 0} {due : A → Budget} (test : Bool) {step step' : Exec X A}
      → Fits b due step
      → Fits b due step'
      → Fits b due (if test then step else step')
  Fits-if true h h' = h
  Fits-if false h h' = h'

  pub Fits-more :
      {b c : Budget} {A : Type 0} {due : A → Budget} {step : Exec X A}
      → Less b c
      → Fits b due step
      → Fits c due step
  Fits-more {b} {c} l f = record { at = λ m x h. f.at m x (Held-Less b c l h) }

  owed-plus :
      {m : ℕ} {x : X} (j : ℕ) {A : Type 0} (due : A → Budget) (r : Result A)
      → Held m (plus j (owed due r)) x
      → Held m (owed (λ a. plus j (due a)) r) x
  owed-plus j due (ok a) h = h
  owed-plus j due (err e) h = Held-Less (any 0) (plus j (any 0)) (Less-none (plus j (any 0))) h

  pub Fits-frame :
      (j : ℕ) {b : Budget} {A : Type 0} {due : A → Budget} {step : Exec X A}
      → Fits b due step
      → Fits (plus j b) (λ a. plus j (due a)) step
  Fits-frame j {b} {due = due} {step = step} f = record {
    at = λ m x h.
        let g =
          f.at (m - j) x
            (record { valid = h.valid; held = Holds-frame j (size x) (AtEnd x) m b h.held }) in
        let l = Holds-le j (size x) (AtEnd x) m b h.held in
        owed-plus j due (step x).0 (record {
          valid = g.valid;
          held =
              Holds-unframe j (size (step x).1) (AtEnd (step x).1) m (owed due (step x).0) l g.held;
        });
  }
