-- ===== src/AccountPool/Order.antt =====
-- The turns of the accounts.
use cpp_gram.Common.{
  ℕ, zero, suc, ◌+◌, ◌-◌, ◌%◌, ◌^◌, ◌≤◌, ◌<◌, ◌≡◌, refl, sym, ap, ◌∙◌, false, List, [], ◌∷◌, ◌++◌,
  map, Option, length, get_or, take, drop, ◌==◌, arith, length-drop, take-all,
}
use native.Mathlib.Nat.{suc-mod, mod-eq_of_lt, mod_self, mod-add-mod, mod-lt}
use mathlib.Core.List.{map-append}
use cpp_gram.AccountPool.{AccountPool, get_account, get_next_account}
use cpp_gram.AccountPool.Contents.{IsValid, get_next_account_lem}

take_from :
    (n r : ℕ) (keys : List (List ℕ))
    → r < length keys
    → take (suc n) (drop r keys) ≡ get_or keys r [] ∷ take n (drop (suc r) keys)
take_from n r [] h = absurd (omega arith)
take_from n zero (k ∷ keys) h = refl
take_from n (suc r) (k ∷ keys) h = take_from n r keys (omega arith)

module _ {C : Type 0} where
  -- `n` calls of get_next_account, one after the other.
  unfoldable pub next_accounts : ℕ → AccountPool C → List (Option C)
  next_accounts zero p = []
  next_accounts (suc n) p = let (client, p1) = get_next_account p in client ∷ next_accounts n p1

  abbrev clients : List (List ℕ) → AccountPool C → List (Option C)
  clients keys p = map (λ id. get_account id p) keys

  not_empty :
      (p : AccountPool C) → zero < length p.account_keys → (length p.account_keys == 0) ≡ false
  not_empty p h = ground arith

module _ {C : Type 0} (p : AccountPool C) (v : IsValid p) where
  -- The pool when its index has come to `i`.
  abbrev at_index : ℕ → AccountPool C
  at_index i = record p { round_robin_index = i }

  next_accounts_step :
      (n i : ℕ)
      → zero < length p.account_keys
      → i + 1 < 2 ^ 64
      → next_accounts (suc n) (at_index i)
        ≡ get_account (get_or p.account_keys (i % length p.account_keys) []) p
          ∷ next_accounts n (at_index (i + 1))
  unfolding next_accounts get_account
  next_accounts_step n i filled small =
      rw (get_next_account_lem (at_index i) v (not_empty (at_index i) filled), wrap) refl
    where
      wrap : (i + 1) % 2 ^ 64 ≡ i + 1
      wrap = omega arith

  -- Calls that do not pass the end of the keys.
  next_accounts_ahead :
      (n i r : ℕ)
      → i % length p.account_keys ≡ r
      → r + n ≤ length p.account_keys
      → i + n < 2 ^ 64
      → next_accounts n (at_index i) ≡ clients (take n (drop r p.account_keys)) p
  next_accounts_ahead zero i r e h small = unfold next_accounts in refl
  next_accounts_ahead (suc zero) i r e h small =
      next_accounts_step zero i (omega arith) small
      ∙ unfold next_accounts in rw (take_from zero r p.account_keys (omega arith), e) refl
  next_accounts_ahead (suc (suc n)) i r e h small =
      next_accounts_step (suc n) i (omega arith) (omega arith)
      ∙ rw
          (
            take_from (suc n) r p.account_keys (omega arith),
            e,
            next_accounts_ahead (suc n) (i + 1) (suc r) turn (omega arith) (omega arith),
          )
          refl
    where
      turn : (i + 1) % length p.account_keys ≡ suc r
      turn =
          ap (λ (t : ℕ). t % length p.account_keys) (omega arith)
          ∙ suc-mod i (length p.account_keys)
          ∙ ap (λ (t : ℕ). suc t % length p.account_keys) e
          ∙ mod-eq_of_lt (omega arith)

  next_accounts-append :
      (a b i : ℕ)
      → zero < length p.account_keys
      → i + (a + b) < 2 ^ 64
      → next_accounts (a + b) (at_index i)
        ≡ next_accounts a (at_index i) ++ next_accounts b (at_index (i + a))
  next_accounts-append zero b i filled small =
      ap (λ (k : ℕ). next_accounts k (at_index i)) (omega arith)
      ∙ ap (λ (k : ℕ). next_accounts b (at_index k)) (omega arith)
      ∙ nothing
    where
      nothing :
          next_accounts b (at_index (i + zero))
          ≡ next_accounts zero (at_index i) ++ next_accounts b (at_index (i + zero))
      nothing = unfold next_accounts in refl
  next_accounts-append (suc a) b i filled small =
      ap (λ (k : ℕ). next_accounts k (at_index i)) (omega arith)
      ∙ next_accounts_step (a + b) i filled (omega arith)
      ∙ ap (◌∷◌ (get_account (get_or p.account_keys (i % length p.account_keys) []) p)) (
          next_accounts-append a b (i + 1) filled (omega arith)
          ∙ ap (λ (k : ℕ). next_accounts a (at_index (i + 1)) ++ next_accounts b (at_index k))
              (omega arith))
      ∙ ap (λ xs. xs ++ next_accounts b (at_index (i + suc a)))
          (sym (next_accounts_step a i filled (omega arith)))

  -- As many calls in a row as the pool has accounts give each account once, from the one whose turn
  -- it is to the last and then from the first on, as long as the index does not wrap at 2 ^ 64.
  pub next_accounts_rotate :
      let r = p.round_robin_index % length p.account_keys in
      zero < length p.account_keys
      → p.round_robin_index + length p.account_keys < 2 ^ 64
      → next_accounts (length p.account_keys) p
        ≡ map (λ id. get_account id p) (drop r p.account_keys ++ take r p.account_keys)
  next_accounts_rotate filled small =
      ap (λ (k : ℕ). next_accounts k p) (omega (arith, below))
      ∙ next_accounts-append rest r i filled (omega (arith, below))
      ∙ ap (◌++◌ (next_accounts rest (at_index i)))
          (next_accounts_ahead r (i + rest) 0 back (omega (arith, below)) (omega (arith, below)))
      ∙ ap (λ xs. xs ++ clients (take r p.account_keys) p)
          (next_accounts_ahead rest i r refl (omega (arith, below)) (omega (arith, below))
            ∙ ap (λ keys. clients keys p)
                (take-all rest (drop r p.account_keys) (omega (arith, ahead))))
      ∙ sym (map-append (λ id. get_account id p) (drop r p.account_keys) (take r p.account_keys))
    where
      i : ℕ
      i = p.round_robin_index

      r : ℕ
      r = i % length p.account_keys

      rest : ℕ
      rest = length p.account_keys - r

      below : r < length p.account_keys
      below = mod-lt i filled

      ahead : length (drop r p.account_keys) ≡ rest
      ahead = length-drop r p.account_keys

      back : (i + rest) % length p.account_keys ≡ 0
      back =
          sym (mod-add-mod i (length p.account_keys) rest)
          ∙ ap (λ (t : ℕ). t % length p.account_keys) (omega (arith, below))
          ∙ mod_self (length p.account_keys)
