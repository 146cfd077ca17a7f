-- ===== src/Common/Positions.antt =====
-- The elements of a list by their positions, and sums over a list.
use Prim.Native.Nat.{ℕ, zero, suc, ◌+◌, ◌*◌, ◌≤◌}
use mathlib.Core.Path.{◌≡◌, refl, ap}
use mathlib.Core.Option.{Option, none, some}
use mathlib.Core.List.{List, [], ◌∷◌, map}
use native.Mathlib.Omega.{arith}
use cpp_gram.Common.Lists.{length}

module _ {ℓ} {A : Type ℓ} where
  abbrev pub get_elem? : List A → ℕ → Option A
  get_elem? [] i = none
  get_elem? (x ∷ xs) zero = some x
  get_elem? (x ∷ xs) (suc i) = get_elem? xs i

  -- A write out of bounds changes nothing.
  abbrev pub set : List A → ℕ → A → List A
  set [] i v = []
  set (x ∷ xs) zero v = v ∷ xs
  set (x ∷ xs) (suc i) v = x ∷ set xs i v

  pub length-set : (xs : List A) (i : ℕ) (v : A) → length (set xs i v) ≡ length xs
  length-set [] i v = refl
  length-set (x ∷ xs) zero v = refl
  length-set (x ∷ xs) (suc i) v = ap suc (length-set xs i v)

  -- The sum of `weight` over the elements.
  abbrev pub total : (A → ℕ) → List A → ℕ
  total weight [] = 0
  total weight (x ∷ xs) = weight x + total weight xs

  pub total-set :
      (weight : A → ℕ) (xs : List A) (i : ℕ) (x v : A)
      → get_elem? xs i ≡ some x
      → total weight (set xs i v) + weight x ≡ total weight xs + weight v
  total-set weight [] i x v h = absurd (cc)
  total-set weight (y ∷ xs) zero x v h = ground arith
  total-set weight (y ∷ xs) (suc i) x v h = omega (arith, total-set weight xs i x v h)

  pub total-le :
      (weight : A → ℕ) (bound : ℕ) (xs : List A)
      → ((x : A) → weight x ≤ bound)
      → total weight xs ≤ bound * length xs
  total-le weight bound [] h = omega arith
  total-le weight bound (x ∷ xs) h = grind (arith, h x, total-le weight bound xs h)

  pub weight-le-total :
      (weight : A → ℕ) (xs : List A) (i : ℕ) (x : A)
      → get_elem? xs i ≡ some x
      → weight x ≤ total weight xs
  weight-le-total weight [] i x h = absurd (cc)
  weight-le-total weight (y ∷ xs) zero x h = ground arith
  weight-le-total weight (y ∷ xs) (suc i) x h = omega (arith, weight-le-total weight xs i x h)

  pub total-map :
      (weight : A → ℕ) (f : A → A) (k : ℕ) (xs : List A)
      → ((x : A) → weight (f x) ≤ weight x + k)
      → total weight (map f xs) ≤ total weight xs + k * length xs
  total-map weight f k [] h = omega arith
  total-map weight f k (x ∷ xs) h = grind (arith, h x, total-map weight f k xs h)

  pub get_elem?-set_self :
      (xs : List A) (i : ℕ) (x v : A) → get_elem? xs i ≡ some x → get_elem? (set xs i v) i ≡ some v
  get_elem?-set_self [] i x v h = absurd (cc)
  get_elem?-set_self (y ∷ xs) zero x v h = refl
  get_elem?-set_self (y ∷ xs) (suc i) x v h = get_elem?-set_self xs i x v h

  pub set-set : (xs : List A) (i : ℕ) (v w : A) → set (set xs i v) i w ≡ set xs i w
  set-set [] i v w = refl
  set-set (x ∷ xs) zero v w = refl
  set-set (x ∷ xs) (suc i) v w = ap (◌∷◌ x) (set-set xs i v w)
