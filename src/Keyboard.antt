-- ===== src/Keyboard.antt =====
-- include/cppgram/keyboard.hpp, and reply_markup_to_json of src/backend/client.cpp.
pub mod Rows
pub mod Document
mod Tests
use cpp_gram.Common.{
  ℕ, zero, suc, ◌+◌, Bool, true, false, List, [], ◌∷◌, ◌++◌, length, replicate, ◌-◌, if◌then◌else◌,
}
use cpp_gram.Common.Text.{codes}
use cpp_gram.Common.Positions.{get_elem?, set}
use cpp_gram.Json.Pieces.{in_quotes, separated}

pub record InlineKeyboardButton : Type 0 where
  pub text : List ℕ
  pub url : List ℕ
  pub callback_data : List ℕ
  pub switch_inline_query : List ℕ
  pub switch_inline_query_current_chat : List ℕ

abbrev labelled : List ℕ → InlineKeyboardButton
labelled label = record {
  text = label;
  url = [];
  callback_data = [];
  switch_inline_query = [];
  switch_inline_query_current_chat = [];
}

unfoldable pub callback : List ℕ → List ℕ → InlineKeyboardButton
callback label payload = record (labelled label) { callback_data = payload }

unfoldable pub link : List ℕ → List ℕ → InlineKeyboardButton
link label target_url = record (labelled label) { url = target_url }

unfoldable pub web_app : List ℕ → List ℕ → InlineKeyboardButton
web_app label target_url = record (labelled label) { url = target_url }

unfoldable pub switch_inline : List ℕ → List ℕ → Bool → InlineKeyboardButton
switch_inline label query true = record (labelled label) {
  switch_inline_query_current_chat = query;
}
switch_inline label query false = record (labelled label) { switch_inline_query = query }

-- A keyboard is the list of its rows.
abbrev pub InlineKeyboard : Type 0
InlineKeyboard = List (List InlineKeyboardButton)

unfoldable pub add_row : List InlineKeyboardButton → InlineKeyboard → InlineKeyboard
add_row row rows = rows ++ row ∷ []

-- `while (rows.size() <= row) rows.emplace_back()`, and `rows[row].push_back(btn)`: the row is counted
-- down along the rows. A negative row, for which the code writes out of bounds, is not in the type.
unfoldable pub add_button : ℕ → InlineKeyboardButton → InlineKeyboard → InlineKeyboard
add_button zero btn [] = (btn ∷ []) ∷ []
add_button zero btn (r ∷ rows) = (r ++ btn ∷ []) ∷ rows
add_button (suc row) btn [] = [] ∷ add_button row btn []
add_button (suc row) btn (r ∷ rows) = r ∷ add_button row btn rows

pub record ReplyKeyboardButton : Type 0 where
  pub text : List ℕ
  pub request_contact : Bool
  pub request_location : Bool
  pub web_app_url : List ℕ

pub data ReplyMarkup : Type 0 where
  inline_keyboard : InlineKeyboard → ReplyMarkup
  -- the rows, the three flags, and the text of the input field
  reply_keyboard : List (List ReplyKeyboardButton) → Bool → Bool → Bool → List ℕ → ReplyMarkup
  remove_keyboard : Bool → ReplyMarkup
  force_reply : Bool → List ℕ → ReplyMarkup

-- The callback data, or the URL when there is none, or nothing.
unfoldable pub target_json : List ℕ → List ℕ → List ℕ
target_json [] [] = []
target_json [] (u ∷ url) = codes ",\"url\":" ++ in_quotes (u ∷ url)
target_json (d ∷ payload) url = codes ",\"callback_data\":" ++ in_quotes (d ∷ payload)

unfoldable pub inline_button_json : InlineKeyboardButton → List ℕ
unfolding target_json
inline_button_json btn =
    codes "{\"text\":"
    ++ (in_quotes btn.text ++ (target_json btn.callback_data btn.url ++ codes "}"))

unfoldable pub inline_row_json : List InlineKeyboardButton → List ℕ
unfolding separated inline_button_json
inline_row_json row = codes "[" ++ (separated inline_button_json 0 row ++ codes "]")

unfoldable pub reply_markup_to_json : ReplyMarkup → List ℕ
unfolding separated inline_row_json
reply_markup_to_json (inline_keyboard rows) =
    codes "{\"inline_keyboard\":[" ++ (separated inline_row_json 0 rows ++ codes "]}")
reply_markup_to_json m = []
