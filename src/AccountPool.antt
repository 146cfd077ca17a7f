-- ===== src/AccountPool.antt =====
-- include/cppgram/account_pool.hpp and src/core/account_pool.cpp. Each method holds the pool's mutex
-- from its first line to its last, so a method is one step. A client is behind a pointer that may be
-- null, `none`.
mod Keys
pub mod Order
pub mod Contents
mod Tests
use cpp_gram.Common.{
  ℕ, zero, suc, ◌+◌, ◌%◌, ◌^◌, Bool, true, false, List, [], ◌∷◌, ◌++◌, Option, none, some, length,
  get_or, if◌then◌else◌, ◌==◌,
}
use cpp_gram.Common.Maps.{Key, string_key, find, assign, erase, contains}

module _ {C : Type 0} where
  -- The null pointer that a lookup answers for a key that is not there.
  abbrev pub or_null : Option (Option C) → Option C
  or_null none = none
  or_null (some client) = client

-- The strings but one, by std::remove.
abbrev pub without : List ℕ → List (List ℕ) → List (List ℕ)
without id [] = []
without id (x ∷ xs) = let rest = without id xs in if string_key.same id x then rest else x ∷ rest

pub record AccountPool (C : Type 0) : Type 0 where
  pub accounts : List (List ℕ × Option C)
  pub account_keys : List (List ℕ)
  pub round_robin_index : ℕ

module _ {C : Type 0} where
  abbrev pub empty_pool : AccountPool C
  empty_pool = record { accounts = []; account_keys = []; round_robin_index = 0 }

  unfoldable pub add_account : List ℕ → Option C → AccountPool C → AccountPool C
  add_account account_id client p = record p {
    accounts = assign account_id client p.accounts;
    account_keys =
        if contains account_id p.accounts
        then p.account_keys
        else p.account_keys ++ (account_id ∷ []);
  }

  unfoldable pub remove_account : List ℕ → AccountPool C → Bool × AccountPool C
  remove_account account_id p =
      if contains account_id p.accounts
      then (
        true,
        record p {
          accounts = erase account_id p.accounts;
          account_keys = without account_id p.account_keys;
        },
      )
      else (false, p)

  unfoldable pub has_account : List ℕ → AccountPool C → Bool
  has_account account_id p = contains account_id p.accounts

  unfoldable pub get_account : List ℕ → AccountPool C → Option C
  get_account account_id p = or_null (find account_id p.accounts)

  -- `accounts_[key]` makes a null entry for a key that is not there.
  unfoldable pub get_next_account : AccountPool C → Option C × AccountPool C
  get_next_account p =
      let idx = p.round_robin_index % length p.account_keys in
      let chosen = get_or p.account_keys idx [] in
      if length p.account_keys == 0 then (none, p) else (
        or_null (find chosen p.accounts),
        record p {
          accounts =
              if contains chosen p.accounts then p.accounts else assign chosen none p.accounts;
          round_robin_index = (p.round_robin_index + 1) % 2 ^ 64;
        },
      )

  unfoldable pub size : AccountPool C → ℕ
  size p = length p.accounts

  -- `sendMessage` with the text and the parse mode of the broadcast: the message's id, or `none` for
  -- an exception. It may change the rest of the world.
  module _ {W : Type 0} (send_message : C → ℕ → W → Option ℕ × W) where
    unfoldable pub broadcast : List ℕ → AccountPool C → W → List ℕ × AccountPool C × W
    broadcast [] p w = ([], p, w)
    broadcast (chat_id ∷ chat_ids) p w =
        let (client, p1) = get_next_account p in
        let (sent, w1) : Option ℕ × W = elim client [
          | none ↦ (none, w)
          | some c ↦ send_message c chat_id w
        ] in
        let (ids, p2, w2) = broadcast chat_ids p1 w1 in
        (elim sent [ none ↦ ids | some id ↦ id ∷ ids ], p2, w2)
