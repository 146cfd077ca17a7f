-- ===== src/Errors/Tests.antt =====
-- Concrete messages.
use cpp_gram.Common.{ℕ, ◌≡◌, refl, List, [], ◌∷◌, ◌++◌, some}
use cpp_gram.Errors.{
  from_rpc, raise, rpc_code_of, plain_error, flood_of, stoi, flood_wait_text, flood_wait_error,
}
use cpp_gram.Errors.Raise.{raise-from_rpc}

-- "FLOOD_WAIT_30"
abbrev wait_30 : List ℕ
wait_30 = flood_wait_text ++ (51 ∷ 48 ∷ [])

raise-from_rpc_example : rpc_code_of (raise (from_rpc 420 wait_30)) ≡ some 420
raise-from_rpc_example = raise-from_rpc 420 wait_30

-- The seconds are read from the message.
flood_wait_30 : raise (from_rpc 420 wait_30) ≡ flood_wait_error 30 wait_30
unfolding raise from_rpc plain_error flood_of stoi
flood_wait_30 = refl
