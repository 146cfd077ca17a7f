-- ===== src/Common/Exceptions.antt =====
-- What a C++ call yields: a value, or an exception that leaves it.
use mathlib.Core.Path.{◌≡◌, refl}
use mathlib.Core.Logic.{◌⊎◌, inl, inr}

pub data Outcome {ℓ κ} (E : Type ℓ) (A : Type κ) : Type (ℓ ⊔ κ) where
  ok : A → Outcome E A
  throws : E → Outcome E A

-- A method that throws keeps the changes that it has made to its object, so the state is beside
-- the outcome and not inside it.
module _ {ℓ κ μ} {E : Type ℓ} {S : Type κ} {A B : Type μ} where
  abbrev pub resume : Outcome E A × S → (A → S → Outcome E B × S) → Outcome E B × S
  resume (ok a, s) f = f a s
  resume (throws e, s) f = (throws e, s)

  pub resume_ok :
      (o : Outcome E A × S) (f : A → S → Outcome E B × S) (a : A)
      → o.0 ≡ ok a
      → resume o f ≡ f a o.1
  resume_ok (ok x, s) f a h = cc
  resume_ok (throws e, s) f a h = cc

pub Outcome-cases {ℓ κ} :
    {E : Type ℓ} {A : Type κ} (o : Outcome E A)
    → ((e : E) × (o ≡ throws e)) ⊎ ((a : A) × (o ≡ ok a))
Outcome-cases (ok a) = inr (a, refl)
Outcome-cases (throws e) = inl (e, refl)
