-- ===== src/Common/Maps.antt =====
-- Maps with decidable keys, as association lists: what `std::map` and `std::unordered_map` answer to
-- find, `m[key] = value` and erase. The order of the entries is that of their first assignment.
use mathlib.Core.Path.{◌≡◌, refl, ap, subst, ◌∙◌, sym}
use mathlib.Core.Logic.{inl, inr}
use mathlib.Core.Bool.{Bool, true, false}
use mathlib.Core.Option.{Option, none, some}
use mathlib.Core.List.{List, [], ◌∷◌}
use Prim.Native.Nat.{ℕ}
use cpp_gram.Common.Tests.{if◌then◌else◌, Bool-cases, ◌==◌, ==_iff, ==_refl}
use cpp_gram.Common.Lists.{equal, equal_refl, equal→≡}

-- Keys that the program can compare.
pub record Key {ℓ} (K : Type ℓ) : Type ℓ where
  pub same : K → K → Bool
  pub same_sound : (a b : K) → same a b ≡ true → a ≡ b
  pub same_refl : (a : K) → same a a ≡ true

instance abbrev pub number_key : Key ℕ
number_key = record { same = ◌==◌; same_sound = λ a b. (==_iff a b).0; same_refl = ==_refl }

-- A string is the list of its bytes.
instance abbrev pub string_key : Key (List ℕ)
string_key = record { same = equal; same_sound = equal→≡; same_refl = equal_refl }

module _ {ℓ} {K : Type ℓ} ⦃k : Key K⦄ where
  pub same_comm : (a b : K) → k.same a b ≡ k.same b a
  same_comm a b = elim (Bool-cases (k.same a b)) [
    | inl e ↦ rw (k.same_sound a b e) refl
    | inr e ↦ elim (Bool-cases (k.same b a)) [
      | inl f ↦ absurd (cc (rw (k.same_sound b a f, k.same_refl a) at e))
      | inr f ↦ e ∙ sym f
    ]
  ]

abbrev pub is_some {κ} : {V : Type κ} → Option V → Bool
is_some none = false
is_some (some v) = true

module _ {ℓ κ} {K : Type ℓ} {V : Type κ} ⦃k : Key K⦄ where
  abbrev pub find : K → List (K × V) → Option V
  find key [] = none
  find key ((a, v) ∷ m) = if k.same key a then some v else find key m

  -- `m[key] = value`
  abbrev pub assign : K → V → List (K × V) → List (K × V)
  assign key v [] = (key, v) ∷ []
  assign key v ((a, w) ∷ m) =
      let rest = assign key v m in if k.same key a then (a, v) ∷ m else (a, w) ∷ rest

  abbrev pub erase : K → List (K × V) → List (K × V)
  erase key [] = []
  erase key ((a, v) ∷ m) = let rest = erase key m in if k.same key a then rest else (a, v) ∷ rest

  abbrev pub contains : K → List (K × V) → Bool
  contains key m = is_some (find key m)

  pub find-assign : (key : K) (v : V) (m : List (K × V)) → find key (assign key v m) ≡ some v
  find-assign key v [] = rw (k.same_refl key) refl
  find-assign key v ((a, w) ∷ m) = elim (Bool-cases (k.same key a)) [
    | inl e ↦ rw (e, e) refl
    | inr e ↦ rw (e, e) (find-assign key v m)
  ]

  pub find-assign_other :
      (key other : K) (v : V) (m : List (K × V))
      → k.same other key ≡ false
      → find other (assign key v m) ≡ find other m
  find-assign_other key other v [] h = rw h refl
  find-assign_other key other v ((a, w) ∷ m) h = elim (Bool-cases (k.same key a)) [
    | inl e ↦ rw (e, ← k.same_sound key a e, h) refl
    | inr e ↦ rw (e, find-assign_other key other v m h) refl
  ]

  pub find-erase : (key : K) (m : List (K × V)) → find key (erase key m) ≡ none
  find-erase key [] = refl
  find-erase key ((a, v) ∷ m) = elim (Bool-cases (k.same key a)) [
    | inl e ↦ rw e (find-erase key m)
    | inr e ↦ rw (e, e) (find-erase key m)
  ]

  pub find-erase_other :
      (key other : K) (m : List (K × V))
      → k.same other key ≡ false
      → find other (erase key m) ≡ find other m
  find-erase_other key other [] h = refl
  find-erase_other key other ((a, v) ∷ m) h = elim (Bool-cases (k.same key a)) [
    | inl e ↦ rw (e, ← k.same_sound key a e, h) (find-erase_other key other m h)
    | inr e ↦ rw (e, find-erase_other key other m h) refl
  ]

  pub contains-assign :
      (key other : K) (v : V) (m : List (K × V))
      → contains other (assign key v m) ≡ (if k.same other key then true else contains other m)
  contains-assign key other v m = elim (Bool-cases (k.same other key)) [
    | inl e ↦
        subst (λ z. contains z (assign key v m) ≡ true) (sym (k.same_sound other key e))
          (ap is_some (find-assign key v m))
        ∙ rw e refl
    | inr e ↦ ap is_some (find-assign_other key other v m e) ∙ rw e refl
  ]

  pub contains-erase :
      (key other : K) (m : List (K × V))
      → contains other (erase key m) ≡ (if k.same other key then false else contains other m)
  contains-erase key other m = elim (Bool-cases (k.same other key)) [
    | inl e ↦
        subst (λ z. contains z (erase key m) ≡ false) (sym (k.same_sound other key e))
          (ap is_some (find-erase key m))
        ∙ rw e refl
    | inr e ↦ ap is_some (find-erase_other key other m e) ∙ rw e refl
  ]
