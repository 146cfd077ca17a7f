-- ===== src/Json/Pieces.antt =====
-- What the functions that write JSON by hand share: serialize_rich_message_json of
-- src/core/rich_message.cpp and reply_markup_to_json of src/backend/client.cpp.
use cpp_gram.Common.{ℕ, suc, Bool, true, false, List, [], ◌∷◌, ◌++◌, ltb, if◌then◌else◌}
use cpp_gram.Json.{escape_json_string}

abbrev pub when : Bool → List ℕ → List ℕ
when b s = if b then s else []

abbrev pub empty : {A : Type 0} → List A → Bool
empty [] = true
empty (x ∷ xs) = false

-- `"` and the string and `"`, escaped and as it is
abbrev pub in_quotes : List ℕ → List ℕ
in_quotes s = b'"' ∷ (escape_json_string s ++ b'"' ∷ [])

abbrev pub unescaped : List ℕ → List ℕ
unescaped s = b'"' ∷ (s ++ b'"' ∷ [])

-- The loop that writes `,` in front of every element but the one at 0.
unfoldable pub separated : {A : Type 0} → (A → List ℕ) → ℕ → List A → List ℕ
separated f r [] = []
separated f r (x ∷ xs) = when (ltb 0 r) (b',' ∷ []) ++ (f x ++ separated f (suc r) xs)
