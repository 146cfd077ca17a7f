-- ===== src/AccountPool/Contents.antt =====
-- What a pool holds after any calls: the map of the last additions, and the keys in step with it.
use cpp_gram.Common.{
  ℕ, ◌+◌, ◌<◌, ◌%◌, ◌^◌, ◌≡◌, refl, sym, ap, ◌∙◌, Bool, true, false, ◌||◌, List, [], ◌∷◌, Option,
  none, inl, inr, Bool-cases, Option-cases, if◌then◌else◌, ◌==◌, length, get_or, arith, subst,
}
use native.Mathlib.Nat.{mod-lt}
use cpp_gram.Common.Maps.{
  is_some, string_key, find, assign, erase, contains, find-assign, find-assign_other, find-erase,
  find-erase_other, contains-assign, contains-erase,
}
use cpp_gram.AccountPool.{
  AccountPool, empty_pool, or_null, without, add_account, remove_account, get_account,
  get_next_account,
}
use cpp_gram.AccountPool.Keys.{
  elem, NoDup, elem-append, elem-without, NoDup-without, NoDup-snoc, elem-get_or,
}

-- The calls that change a pool.
pub data Call (C : Type 0) : Type 0 where
  add : List ℕ → Option C → Call C
  remove : List ℕ → Call C
  next : Call C

module _ {C : Type 0} where
  -- No key twice, and the keys are those of the map.
  abbrev pub IsValid : AccountPool C → Type 0
  IsValid p =
      NoDup p.account_keys × ((id : List ℕ) → elem id p.account_keys ≡ contains id p.accounts)

  abbrev pub call : Call C → AccountPool C → AccountPool C
  call (Call.add id client) p = add_account id client p
  call (Call.remove id) p = (remove_account id p).1
  call Call.next p = (get_next_account p).1

  abbrev pub calls : List (Call C) → AccountPool C → AccountPool C
  calls [] p = p
  calls (c ∷ cs) p = calls cs (call c p)

  -- The abstract pool: which client an id stands for.
  abbrev pub promised : Call C → (List ℕ → Option C) → List ℕ → Option C
  promised (Call.add id client) f k = if string_key.same k id then client else f k
  promised (Call.remove id) f k = if string_key.same k id then none else f k
  promised Call.next f k = f k

  abbrev pub all_promised : List (Call C) → (List ℕ → Option C) → List ℕ → Option C
  all_promised [] f = f
  all_promised (c ∷ cs) f = all_promised cs (promised c f)

  -- The account whose turn it is, is there.
  turn_is_held :
      (p : AccountPool C)
      → IsValid p
      → (i : ℕ) → i < length p.account_keys
      → contains (get_or p.account_keys i []) p.accounts ≡ true
  turn_is_held p h i le = sym (h.1 (get_or p.account_keys i [])) ∙ elem-get_or p.account_keys i le

  kept :
      (id : List ℕ) (client : Option C) (p : AccountPool C)
      → contains id p.accounts ≡ true
      → (other : List ℕ) → contains other p.accounts ≡ contains other (assign id client p.accounts)
  kept id client p e other = elim (Bool-cases (string_key.same other id)) [
    | inl f ↦
        subst (λ z. contains z p.accounts ≡ true) (sym (string_key.same_sound other id f)) e
        ∙ sym (contains-assign id other client p.accounts ∙ rw f refl)
    | inr f ↦ sym (contains-assign id other client p.accounts ∙ rw f refl)
  ]

  grown :
      (id : List ℕ) (client : Option C) (p : AccountPool C)
      → IsValid p
      → (other : List ℕ)
      → (elem other p.account_keys || elem other (id ∷ []))
        ≡ contains other (assign id client p.accounts)
  grown id client p h other =
      rw (contains-assign id other client p.accounts, h.1 other)
        (either_way (contains other p.accounts) (string_key.same other id))
    where
      either_way : (a b : Bool) → (a || (b || false)) ≡ (if b then true else a)
      either_way true true = refl
      either_way true false = refl
      either_way false true = refl
      either_way false false = refl

  shrunk :
      (id : List ℕ) (p : AccountPool C)
      → IsValid p
      → (other : List ℕ)
      → (if string_key.same other id then false else elem other p.account_keys)
        ≡ contains other (erase id p.accounts)
  shrunk id p h other = rw (contains-erase id other p.accounts, h.1 other) refl

  add-IsValid :
      (id : List ℕ) (client : Option C) (p : AccountPool C)
      → IsValid p
      → IsValid (add_account id client p)
  unfolding add_account
  add-IsValid id client p h = elim (Bool-cases (contains id p.accounts)) [
    | inl e ↦ rw e (h.0, λ other. h.1 other ∙ kept id client p e other)
    | inr e ↦ rw e (
      NoDup-snoc id p.account_keys (h.1 id ∙ e) h.0,
      λ other. elem-append other p.account_keys (id ∷ []) ∙ grown id client p h other,
    )
  ]

  remove-IsValid : (id : List ℕ) (p : AccountPool C) → IsValid p → IsValid (remove_account id p).1
  unfolding remove_account
  remove-IsValid id p h = elim (Bool-cases (contains id p.accounts)) [
    | inl e ↦ rw e (
      NoDup-without id p.account_keys h.0,
      λ other. elem-without id other p.account_keys ∙ shrunk id p h other,
    )
    | inr e ↦ rw e h
  ]

  in_bounds :
      (p : AccountPool C)
      → (length p.account_keys == 0) ≡ false
      → p.round_robin_index % length p.account_keys < length p.account_keys
  in_bounds p e = mod-lt p.round_robin_index (ground arith)

  -- One call gives the account whose turn it is, and changes the index only.
  pub get_next_account_lem :
      (p : AccountPool C)
      → IsValid p
      → (length p.account_keys == 0) ≡ false
      → get_next_account p ≡ (
        get_account (get_or p.account_keys (p.round_robin_index % length p.account_keys) []) p,
        record p { round_robin_index = (p.round_robin_index + 1) % 2 ^ 64 },
      )
  unfolding get_next_account get_account
  get_next_account_lem p h e =
      rw (e, turn_is_held p h (p.round_robin_index % length p.account_keys) (in_bounds p e)) refl

  stays : (p : AccountPool C) → (length p.account_keys == 0) ≡ true → (get_next_account p).1 ≡ p
  unfolding get_next_account
  stays p e = rw e refl

  next-IsValid : (p : AccountPool C) → IsValid p → IsValid (get_next_account p).1
  next-IsValid p h = elim (Bool-cases (length p.account_keys == 0)) [
    | inl e ↦ unfold get_next_account in rw e h
    | inr e ↦ rw (get_next_account_lem p h e) h
  ]

  call-IsValid : (c : Call C) (p : AccountPool C) → IsValid p → IsValid (call c p)
  call-IsValid (Call.add id client) p h = add-IsValid id client p h
  call-IsValid (Call.remove id) p h = remove-IsValid id p h
  call-IsValid Call.next p h = next-IsValid p h

  calls-IsValid : (cs : List (Call C)) (p : AccountPool C) → IsValid p → IsValid (calls cs p)
  calls-IsValid [] p h = h
  calls-IsValid (c ∷ cs) p h = calls-IsValid cs (call c p) (call-IsValid c p h)

  null_of_gone :
      (key : List ℕ) (p : AccountPool C)
      → contains key p.accounts ≡ false
      → or_null (find key p.accounts) ≡ none
  null_of_gone key p e = elim (Option-cases (find key p.accounts)) [
    | inl n ↦ ap or_null n
    | inr (v, n) ↦ absurd (cc (e, ap is_some n))
  ]

  removed :
      (key : List ℕ) (p : AccountPool C)
      → (remove_account key p).1 ≡ (
          if contains key p.accounts
          then record p {
            accounts = erase key p.accounts;
            account_keys = without key p.account_keys;
          }
          else p)
  unfolding remove_account
  removed key p = elim (Bool-cases (contains key p.accounts)) [
    | inl e ↦ rw e refl
    | inr e ↦ rw e refl
  ]

  call-promised :
      (c : Call C) (p : AccountPool C) (f : List ℕ → Option C)
      → IsValid p
      → ((id : List ℕ) → get_account id p ≡ f id)
      → (id : List ℕ) → get_account id (call c p) ≡ promised c f id
  unfolding get_account add_account remove_account
  call-promised (Call.add key client) p f v h id = elim (Bool-cases (string_key.same id key)) [
    | inl e ↦ rw e (
        subst (λ z. get_account z (add_account key client p) ≡ client)
          (sym (string_key.same_sound id key e)) (ap or_null (find-assign key client p.accounts)))
    | inr e ↦ rw e (ap or_null (find-assign_other key id client p.accounts e) ∙ h id)
  ]
  call-promised (Call.remove key) p f v h id =
      ap (get_account id) (removed key p) ∙ elim (Bool-cases (contains key p.accounts)) [
        | inl there ↦ elim (Bool-cases (string_key.same id key)) [
          | inl e ↦
              rw (there, e)
                (subst (λ z. or_null (find z (erase key p.accounts)) ≡ none)
                  (sym (string_key.same_sound id key e)) (ap or_null (find-erase key p.accounts)))
          | inr e ↦ rw (there, e) (ap or_null (find-erase_other key id p.accounts e) ∙ h id)
        ]
        | inr gone ↦ elim (Bool-cases (string_key.same id key)) [
          | inl e ↦
              rw (gone, e)
                (subst (λ z. or_null (find z p.accounts) ≡ none)
                  (sym (string_key.same_sound id key e)) (null_of_gone key p gone))
          | inr e ↦ rw (gone, e) (h id)
        ]
      ]
  call-promised Call.next p f v h id = elim (Bool-cases (length p.account_keys == 0)) [
    | inl e ↦ ap (get_account id) (stays p e) ∙ h id
    | inr e ↦
        ap (λ (r : Option C × AccountPool C). get_account id r.1) (get_next_account_lem p v e)
        ∙ h id
  ]

  all_promised-from :
      (cs : List (Call C)) (p : AccountPool C) (f : List ℕ → Option C)
      → IsValid p
      → ((id : List ℕ) → get_account id p ≡ f id)
      → (id : List ℕ) → get_account id (calls cs p) ≡ all_promised cs f id
  all_promised-from [] p f v h id = h id
  all_promised-from (c ∷ cs) p f v h id =
      all_promised-from cs (call c p) (promised c f) (call-IsValid c p v) (call-promised c p f v h)
        id

  -- Whatever calls are made of a pool that starts empty: its keys have no duplicate and are those of
  -- its map, and each id stands for the client of its last addition, or for none if it was removed
  -- since or never added.
  pub calls-promised :
      (cs : List (Call C))
      → IsValid (calls cs empty_pool)
        × ((id : List ℕ) → get_account id (calls cs empty_pool) ≡ all_promised cs (λ _. none) id)
  calls-promised cs = (
    calls-IsValid cs empty_pool (tt, λ id. refl),
    all_promised-from cs empty_pool (λ _. none) (tt, λ id. refl) (λ id. unfold get_account in refl),
  )
