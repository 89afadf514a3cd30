-- ===== src/Prelude/Raising.antt =====
-- A call that may raise: its value, or the exception.
use mathlib.Core.Path.{◌≡◌, refl, ap}
use mathlib.Core.Logic.{◌⊎◌, inl, inr}
use mathlib.Core.Option.{Option, none, some}

pub data Result (E : Type 0) (A : Type 0) : Type 0 where
  err : E → Result E A
  ok : A → Result E A

module _ {E A B : Type 0} where
  infixl 5 ◌>>=◌
  -- an exception ends the block
  abbrev pub ◌>>=◌ : Result E A → (A → Result E B) → Result E B
  err e >>= next = err e
  ok a >>= next = next a

module _ {E A : Type 0} where
  -- a value, where None means that `e` is raised
  abbrev pub of_option : E → Option A → Result E A
  of_option e (some a) = ok a
  of_option e none = err e

  -- the exception that a call raised, for its handler
  abbrev pub handled : {F : Type 0} → (E → F) → Result E A → Result F A
  handled f (ok a) = ok a
  handled f (err e) = err (f e)

module _ {E A : Type 0} where
  pub Result-cases : (r : Result E A) → ((e : E) × (r ≡ err e)) ⊎ ((a : A) × (r ≡ ok a))
  Result-cases (err e) = inl (e, refl)
  Result-cases (ok a) = inr (a, refl)

module _ {E A B : Type 0} where
  -- a call gave a value, and what comes next gave the value of the block
  abbrev pub Passed : Result E A → (A → Result E B) → B → Type 0
  Passed call next v = (x : A) × (call ≡ ok x) × (next x ≡ ok v)

  pub >>=-Passed :
      {v : B} (call : Result E A) (next : A → Result E B)
      → (call >>= next) ≡ ok v
      → Passed call next v
  >>=-Passed (err fault) next raised = cc
  >>=-Passed (ok x) next gave = (x, refl, gave)

module _ {E A : Type 0} where
  abbrev value_of : A → Result E A → A
  value_of b (ok a) = a
  value_of b (err e) = b

  of_ok : (b : A) {a : A} → ◌≡◌ {A = Result E A} (ok b) (ok a) → some b ≡ some a
  of_ok b h = ap (λ r. some (value_of b r)) h

  pub of_option-eq-ok : (e : E) (o : Option A) {a : A} → of_option e o ≡ ok a → o ≡ some a
  of_option-eq-ok e none h = cc
  of_option-eq-ok e (some b) h = of_ok b h
