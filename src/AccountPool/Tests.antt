-- ===== src/AccountPool/Tests.antt =====
-- A concrete pool, whose clients are numbers.
use cpp_gram.Common.{ℕ, ◌≡◌, List, [], ◌∷◌, none, some, arith}
use cpp_gram.AccountPool.{AccountPool, empty_pool, add_account, get_account}
use cpp_gram.AccountPool.Contents.{
  Call, add, remove, next, IsValid, calls, all_promised, calls-promised,
}
use cpp_gram.AccountPool.Order.{next_accounts, next_accounts_rotate}

abbrev some_calls : List (Call ℕ)
some_calls =
    add (1 ∷ []) (some 10)
    ∷ add (2 ∷ []) (some 20)
    ∷ next
    ∷ remove (1 ∷ [])
    ∷ add (2 ∷ []) (some 21)
    ∷ []

calls-promised_example :
    IsValid (calls some_calls empty_pool)
    × ((id : List ℕ)
        → get_account id (calls some_calls empty_pool) ≡ all_promised some_calls (λ _. none) id)
calls-promised_example = calls-promised some_calls

abbrev three_calls : List (Call ℕ)
three_calls = add (1 ∷ []) (some 10) ∷ add (2 ∷ []) (some 20) ∷ add (3 ∷ []) (some 30) ∷ []

-- The three accounts, with the second one's turn.
abbrev three : AccountPool ℕ
three = record {
  accounts = (1 ∷ [], some 10) ∷ (2 ∷ [], some 20) ∷ (3 ∷ [], some 30) ∷ [];
  account_keys = (1 ∷ []) ∷ (2 ∷ []) ∷ (3 ∷ []) ∷ [];
  round_robin_index = 4;
}

three-IsValid : IsValid three
unfolding add_account
three-IsValid = (calls-promised three_calls).0

next_accounts_rotate_example : next_accounts 3 three ≡ (some 20 ∷ some 30 ∷ some 10 ∷ [])
unfolding get_account
next_accounts_rotate_example = next_accounts_rotate three three-IsValid (omega arith) (omega arith)
