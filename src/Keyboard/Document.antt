-- ===== src/Keyboard/Document.antt =====
-- The text that reply_markup_to_json of src/backend/client.cpp writes of an inline keyboard.
use cpp_gram.Common.{
  ℕ, ◌≡◌, refl, ap, ◌∙◌, sym, subst, List, [], ◌∷◌, ◌++◌, append_assoc, append-nil, some,
}
use cpp_gram.Common.Text.{codes}
use cpp_gram.Json.{escape_json_string}
use cpp_gram.Json.Value.{Json, Fields, text, array, object, no_fields, field}
use cpp_gram.Json.Parser.{parse}
use cpp_gram.Json.RoundTrip.{parse-render}
use cpp_gram.Json.Pieces.{in_quotes, separated}
use cpp_gram.Json.Shows.{
  Shows, Writes, text-Shows, end-Writes, object-Shows, field-Writes, items_of, array-Shows,
  All-each,
}
use cpp_gram.Keyboard.{
  InlineKeyboardButton, InlineKeyboard, inline_keyboard, target_json, inline_button_json,
  inline_row_json, reply_markup_to_json,
}

-- A button acts by its callback data; without any, by its URL.
abbrev target_fields : List ℕ → List ℕ → Fields
target_fields [] [] = no_fields
target_fields [] (u ∷ url) = field (codes "url") (text (u ∷ url)) no_fields
target_fields (d ∷ payload) url = field (codes "callback_data") (text (d ∷ payload)) no_fields

abbrev button_value : InlineKeyboardButton → Json
button_value btn =
    object (field (codes "text") (text btn.text) (target_fields btn.callback_data btn.url))

abbrev row_value : List InlineKeyboardButton → Json
row_value row = array (items_of button_value row)

abbrev pub keyboard_value : InlineKeyboard → Json
keyboard_value rows =
    object (field (codes "inline_keyboard") (array (items_of row_value rows)) no_fields)

target-Writes :
    (payload url : List ℕ)
    → Writes (target_fields payload url) (target_json payload url ++ codes "}")
unfolding target_json escape_json_string
target-Writes [] [] = end-Writes
target-Writes [] (u ∷ url) =
    subst (Writes (target_fields [] (u ∷ url)))
      (sym (append_assoc (codes ",\"url\":") (in_quotes (u ∷ url)) (codes "}")))
      (field-Writes (codes "url") refl (text-Shows (u ∷ url)) end-Writes)
target-Writes (d ∷ payload) url =
    subst (Writes (target_fields (d ∷ payload) url))
      (sym (append_assoc (codes ",\"callback_data\":") (in_quotes (d ∷ payload)) (codes "}")))
      (field-Writes (codes "callback_data") refl (text-Shows (d ∷ payload)) end-Writes)

button-Shows : (btn : InlineKeyboardButton) → Shows (button_value btn) (inline_button_json btn)
unfolding inline_button_json escape_json_string
button-Shows btn =
    object-Shows (codes "text") refl (text-Shows btn.text) (target-Writes btn.callback_data btn.url)

row-Shows : (row : List InlineKeyboardButton) → Shows (row_value row) (inline_row_json row)
unfolding inline_row_json
row-Shows row = array-Shows button_value inline_button_json row (All-each button-Shows row)

keyboard-Shows :
    (rows : InlineKeyboard)
    → Shows (keyboard_value rows) (reply_markup_to_json (inline_keyboard rows))
unfolding reply_markup_to_json escape_json_string
keyboard-Shows rows =
    subst (λ z. Shows (keyboard_value rows) (codes "{\"inline_keyboard\":[" ++ z))
      (append_assoc (separated inline_row_json 0 rows) (codes "]") (codes "}"))
      (object-Shows (codes "inline_keyboard") refl
        (array-Shows row_value inline_row_json rows (All-each row-Shows rows)) end-Writes)

-- Every inline keyboard is written as the JSON text of an object with the rows of its buttons, in their
-- order: a button has its text, as it was before the escapes, and its callback data, or without any
-- its URL; nothing else of it is written.
pub parse-reply_markup_to_json :
    (rows : InlineKeyboard)
    → parse (reply_markup_to_json (inline_keyboard rows)) ≡ some (keyboard_value rows)
parse-reply_markup_to_json rows =
    let s = keyboard-Shows rows in
    ap parse (sym (s.rendered [] ∙ append-nil (reply_markup_to_json (inline_keyboard rows))))
    ∙ parse-render (keyboard_value rows) s.shown
