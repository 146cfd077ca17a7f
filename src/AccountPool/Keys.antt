-- ===== src/AccountPool/Keys.antt =====
-- The key list of an account pool.
use cpp_gram.Common.{
  ℕ, zero, suc, ◌<◌, ◌≡◌, refl, ◌∙◌, Bool, true, false, ◌||◌, List, [], ◌∷◌, ◌++◌, inl, inr,
  Bool-cases, if◌then◌else◌, length, get_or, arith,
}
use cpp_gram.Common.Maps.{string_key, same_comm}
use cpp_gram.AccountPool.{without}

abbrev pub elem : List ℕ → List (List ℕ) → Bool
elem id [] = false
elem id (x ∷ xs) = string_key.same id x || elem id xs

abbrev pub NoDup : List (List ℕ) → Type 0
NoDup [] = Unit
NoDup (x ∷ xs) = (elem x xs ≡ false) × NoDup xs

pub elem-append :
    (id : List ℕ) (xs ys : List (List ℕ)) → elem id (xs ++ ys) ≡ (elem id xs || elem id ys)
elem-append id [] ys = refl
elem-append id (x ∷ xs) ys = elim (Bool-cases (string_key.same id x)) [
  | inl e ↦ rw e refl
  | inr e ↦ rw e (elem-append id xs ys)
]

pub elem-without :
    (id other : List ℕ) (xs : List (List ℕ))
    → elem other (without id xs) ≡ (if string_key.same other id then false else elem other xs)
elem-without id other [] = elim (Bool-cases (string_key.same other id)) [
  | inl e ↦ rw e refl
  | inr e ↦ rw e refl
]
elem-without id other (x ∷ xs) = elim (Bool-cases (string_key.same id x)) [
  | inl e ↦
      let same : id ≡ x = string_key.same_sound id x e in
      elim (Bool-cases (string_key.same other id)) [
        | inl f ↦ rw (e, elem-without id other xs, f) refl
        | inr f ↦ rw (e, elem-without id other xs, ← same, f) refl
      ]
  | inr e ↦ elim (Bool-cases (string_key.same other id)) [
    | inl f ↦
        let same : other ≡ id = string_key.same_sound other id f in
        rw (e, elem-without id other xs, f, same, e) refl
    | inr f ↦ rw (e, elem-without id other xs, f) refl
  ]
]

pub NoDup-without : (id : List ℕ) (xs : List (List ℕ)) → NoDup xs → NoDup (without id xs)
NoDup-without id [] h = tt
NoDup-without id (x ∷ xs) h = elim (Bool-cases (string_key.same id x)) [
  | inl e ↦ rw e (NoDup-without id xs h.1)
  | inr e ↦ rw e (elem-without id x xs ∙ rw (same_comm x id, e) h.0, NoDup-without id xs h.1)
]

pub NoDup-snoc :
    (id : List ℕ) (xs : List (List ℕ)) → elem id xs ≡ false → NoDup xs → NoDup (xs ++ (id ∷ []))
NoDup-snoc id [] new h = (refl, tt)
NoDup-snoc id (x ∷ xs) new h = elim (Bool-cases (string_key.same id x)) [
  | inl e ↦ absurd (cc (rw e at new))
  | inr e ↦ (
    elem-append x xs (id ∷ []) ∙ rw (h.0, same_comm x id, e) refl,
    NoDup-snoc id xs (rw e at new) h.1,
  )
]

pub elem-get_or : (xs : List (List ℕ)) (i : ℕ) → i < length xs → elem (get_or xs i []) xs ≡ true
elem-get_or [] i h = absurd (omega arith)
elem-get_or (x ∷ xs) zero h = rw (string_key.same_refl x) refl
elem-get_or (x ∷ xs) (suc i) h = elim (Bool-cases (string_key.same (get_or xs i []) x)) [
  | inl e ↦ rw e refl
  | inr e ↦ rw e (elem-get_or xs i (omega arith))
]
