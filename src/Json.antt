-- ===== src/Json.antt =====
-- The strings of a JSON text: escape_json_string of src/core/rich_message.cpp and of
-- src/backend/client.cpp, which are the same.
pub mod Value
pub mod Parser
mod Strings
pub mod Grammar
pub mod RoundTrip
pub mod Pieces
pub mod Shows
use cpp_gram.Common.{ℕ, ◌+◌, ◌-◌, ◌/◌, ◌%◌, List, [], ◌∷◌, ◌++◌, ltb, ◌==◌, if◌then◌else◌}

-- A digit of `%x`.
abbrev pub hex_digit : ℕ → ℕ
hex_digit d = if ltb d 10 then b'0' + d else b'a' + (d - 10)

-- What the loop appends for one byte; `\\u%04x` of a number below 32.
unfoldable pub escape_byte : ℕ → List ℕ
escape_byte c =
    if c == b'"'
    then b'\\' ∷ b'"' ∷ []
    else if c == b'\\'
    then b'\\' ∷ b'\\' ∷ []
    else if c == 8
    then b'\\' ∷ b'b' ∷ []
    else if c == 12
    then b'\\' ∷ b'f' ∷ []
    else if c == b'\n'
    then b'\\' ∷ b'n' ∷ []
    else if c == b'\r'
    then b'\\' ∷ b'r' ∷ []
    else if c == b'\t'
    then b'\\' ∷ b't' ∷ []
    else if ltb c 0x20
    then b'\\' ∷ b'u' ∷ b'0' ∷ b'0' ∷ hex_digit (c / 16) ∷ hex_digit (c % 16) ∷ []
    else c ∷ []

unfoldable pub escape_json_string : List ℕ → List ℕ
unfolding escape_byte
escape_json_string [] = []
escape_json_string (c ∷ s) = escape_byte c ++ escape_json_string s
