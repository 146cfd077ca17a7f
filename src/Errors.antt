-- ===== src/Errors.antt =====
-- The errors of an RPC of include/cppgram/errors.hpp: from a code and a message to an `Error`, and from
-- that to the exception that is thrown. A string is the list of its bytes, an int32_t its 32-bit
-- pattern.
pub mod Raise
mod Tests
use cpp_gram.Common.{
  ℕ, zero, suc, ◌+◌, ◌-◌, ◌*◌, ◌%◌, ◌^◌, Bool, true, false, ◌||◌, ◌&&◌, not, List, [], ◌∷◌, Option,
  none, some, ltb, leb, ◌==◌, if◌then◌else◌,
}
use cpp_gram.Common.Maps.{is_some}

pub data ErrorCode : Type 0 where
  unknown authentication network flood_wait rpc storage invalid_argument timeout see_other
        bad_request :
      ErrorCode
  unauthorized forbidden not_found not_acceptable flood internal_server : ErrorCode

pub record Error : Type 0 where
  pub code : ErrorCode
  pub message : List ℕ
  pub rpc_code : ℕ
  pub retry_after : ℕ
  pub migrate_to_dc : ℕ

-- "PHONE_MIGRATE_"
abbrev pub phone_migrate_text : List ℕ
phone_migrate_text = 80 ∷ 72 ∷ 79 ∷ 78 ∷ 69 ∷ 95 ∷ 77 ∷ 73 ∷ 71 ∷ 82 ∷ 65 ∷ 84 ∷ 69 ∷ 95 ∷ []

-- "FILE_MIGRATE_"
abbrev pub file_migrate_text : List ℕ
file_migrate_text = 70 ∷ 73 ∷ 76 ∷ 69 ∷ 95 ∷ 77 ∷ 73 ∷ 71 ∷ 82 ∷ 65 ∷ 84 ∷ 69 ∷ 95 ∷ []

-- "USER_MIGRATE_"
abbrev pub user_migrate_text : List ℕ
user_migrate_text = 85 ∷ 83 ∷ 69 ∷ 82 ∷ 95 ∷ 77 ∷ 73 ∷ 71 ∷ 82 ∷ 65 ∷ 84 ∷ 69 ∷ 95 ∷ []

-- "FLOOD_WAIT_"
abbrev pub flood_wait_text : List ℕ
flood_wait_text = 70 ∷ 76 ∷ 79 ∷ 79 ∷ 68 ∷ 95 ∷ 87 ∷ 65 ∷ 73 ∷ 84 ∷ 95 ∷ []

-- "SLOWMODE_WAIT_"
abbrev pub slowmode_wait_text : List ℕ
slowmode_wait_text = 83 ∷ 76 ∷ 79 ∷ 87 ∷ 77 ∷ 79 ∷ 68 ∷ 69 ∷ 95 ∷ 87 ∷ 65 ∷ 73 ∷ 84 ∷ 95 ∷ []

-- What is behind `needle` at the front of a string.
abbrev pub behind_prefix : List ℕ → List ℕ → Option (List ℕ)
behind_prefix [] hay = some hay
behind_prefix (n ∷ needle) [] = none
behind_prefix (n ∷ needle) (h ∷ hay) =
    let rest = behind_prefix needle hay in if n == h then rest else none

-- `message.find(needle)`, and the `substr` behind the first place where it stands.
abbrev pub behind : List ℕ → List ℕ → Option (List ℕ)
behind needle [] = behind_prefix needle []
behind needle (h ∷ hay) =
    let later = behind needle hay in
    elim (behind_prefix needle (h ∷ hay)) [ some rest ↦ some rest | none ↦ later ]

-- std::stoi: white space, a sign, digits; `none` for its exceptions.
abbrev is_space : ℕ → Bool
is_space c = c == 32 || (leb 9 c && leb c 13)

abbrev is_digit : ℕ → Bool
is_digit c = leb 48 c && leb c 57

abbrev digits_value : ℕ → List ℕ → ℕ
digits_value value [] = value
digits_value value (c ∷ cs) =
    let rest = digits_value (value * 10 + (c - 48)) cs in if is_digit c then rest else value

abbrev unsigned : List ℕ → Option ℕ
unsigned [] = none
unsigned (c ∷ cs) = if is_digit c then some (digits_value 0 (c ∷ cs)) else none

abbrev positive : List ℕ → Option ℕ
positive cs = elim (unsigned cs) [ none ↦ none | some n ↦ if ltb n (2 ^ 31) then some n else none ]

abbrev negative : List ℕ → Option ℕ
negative cs = elim (unsigned cs) [
  | none ↦ none
  | some n ↦ if leb n (2 ^ 31) then some ((2 ^ 32 - n) % 2 ^ 32) else none
]

unfoldable pub stoi : List ℕ → Option ℕ
stoi [] = none
stoi (c ∷ cs) =
    let rest = stoi cs in
    if is_space c
    then rest
    else if c == 45
    then negative cs
    else if c == 43
    then positive cs
    else positive (c ∷ cs)

-- `try { … = std::stoi(…); } catch (...) {}` on a member that is 0 before.
abbrev pub stoi_or_zero : List ℕ → ℕ
stoi_or_zero text = elim (stoi text) [ none ↦ 0 | some n ↦ n ]

unfoldable pub migrate_to : List ℕ → ℕ
migrate_to message = elim (behind phone_migrate_text message) [
  | some rest ↦ stoi_or_zero rest
  | none ↦ elim (behind file_migrate_text message) [
    | some rest ↦ stoi_or_zero rest
    | none ↦ elim (behind user_migrate_text message) [ some rest ↦ stoi_or_zero rest | none ↦ 0 ]
  ]
]

-- The code and the time of a 420.
unfoldable pub flood_of : List ℕ → ErrorCode × ℕ
flood_of message = elim (behind flood_wait_text message) [
  | some rest ↦ (ErrorCode.flood_wait, stoi_or_zero rest)
  | none ↦ elim (behind slowmode_wait_text message) [
    | some rest ↦ (ErrorCode.flood, stoi_or_zero rest)
    | none ↦ (ErrorCode.flood, 0)
  ]
]

unfoldable pub plain_error : ErrorCode → ℕ → List ℕ → Error
plain_error code rpc_code message = record {
  code = code;
  message = message;
  rpc_code = rpc_code;
  retry_after = 0;
  migrate_to_dc = 0;
}

unfoldable pub from_rpc : ℕ → List ℕ → Error
from_rpc rpc_code message =
    let err = λ (code : ErrorCode). plain_error code rpc_code message in
    if rpc_code == 303
    then record (err ErrorCode.see_other) { migrate_to_dc = migrate_to message }
    else if rpc_code == 400
    then err ErrorCode.bad_request
    else if rpc_code == 401
    then err ErrorCode.unauthorized
    else if rpc_code == 403
    then err ErrorCode.forbidden
    else if rpc_code == 404
    then err ErrorCode.not_found
    else if rpc_code == 406
    then err ErrorCode.not_acceptable
    else if rpc_code == 420
    then record (err (flood_of message).0) { retry_after = (flood_of message).1 }
    else if rpc_code == 500
    then err ErrorCode.internal_server
    else err ErrorCode.rpc

-- The exception classes, with their own members; each carries its message.
pub data Exception : Type 0 where
  cpp_gram_exception : ErrorCode → List ℕ → Exception
  authentication_error network_error storage_error : List ℕ → Exception
  rpc_error see_other_error bad_request_error unauthorized_error forbidden_error :
      ℕ → List ℕ → Exception
  not_found_error not_acceptable_error flood_error internal_server_error : ℕ → List ℕ → Exception
  phone_migrate_error file_migrate_error user_migrate_error : ℕ → List ℕ → Exception
  flood_wait_error slowmode_wait_error : ℕ → List ℕ → Exception

unfoldable pub raise_see_other : Error → Exception
raise_see_other e =
    if is_some (behind phone_migrate_text e.message)
    then phone_migrate_error e.migrate_to_dc e.message
    else if is_some (behind file_migrate_text e.message)
    then file_migrate_error e.migrate_to_dc e.message
    else if is_some (behind user_migrate_text e.message)
    then user_migrate_error e.migrate_to_dc e.message
    else see_other_error e.rpc_code e.message

unfoldable pub raise_flood : Error → Exception
raise_flood e =
    if is_some (behind slowmode_wait_text e.message)
    then slowmode_wait_error e.retry_after e.message
    else flood_error e.rpc_code e.message

unfoldable pub raise : Error → Exception
raise e = elim e.code [
  | ErrorCode.authentication ↦ authentication_error e.message
  | ErrorCode.network ↦ network_error e.message
  | ErrorCode.flood_wait ↦ flood_wait_error e.retry_after e.message
  | ErrorCode.storage ↦ storage_error e.message
  | ErrorCode.see_other ↦ raise_see_other e
  | ErrorCode.bad_request ↦ bad_request_error e.rpc_code e.message
  | ErrorCode.unauthorized ↦ unauthorized_error e.rpc_code e.message
  | ErrorCode.forbidden ↦ forbidden_error e.rpc_code e.message
  | ErrorCode.not_found ↦ not_found_error e.rpc_code e.message
  | ErrorCode.not_acceptable ↦ not_acceptable_error e.rpc_code e.message
  | ErrorCode.flood ↦ raise_flood e
  | ErrorCode.internal_server ↦ internal_server_error e.rpc_code e.message
  | ErrorCode.rpc ↦ rpc_error e.rpc_code e.message
  | _ ↦ cpp_gram_exception e.code e.message
]

-- `rpc_code()` of an RPCError; the constructors of the classes below it set 303 or 420 themselves.
abbrev pub rpc_code_of : Exception → Option ℕ
rpc_code_of (rpc_error n m) = some n
rpc_code_of (see_other_error n m) = some n
rpc_code_of (bad_request_error n m) = some n
rpc_code_of (unauthorized_error n m) = some n
rpc_code_of (forbidden_error n m) = some n
rpc_code_of (not_found_error n m) = some n
rpc_code_of (not_acceptable_error n m) = some n
rpc_code_of (flood_error n m) = some n
rpc_code_of (internal_server_error n m) = some n
rpc_code_of (phone_migrate_error dc m) = some 303
rpc_code_of (file_migrate_error dc m) = some 303
rpc_code_of (user_migrate_error dc m) = some 303
rpc_code_of (flood_wait_error s m) = some 420
rpc_code_of (slowmode_wait_error s m) = some 420
rpc_code_of _ = none
