-- ===== src/Keyboard/Tests.antt =====
-- A keyboard of two rows, with an empty row between them.
use cpp_gram.Common.{◌≡◌, refl, true, [], ◌∷◌, some}
use cpp_gram.Common.Text.{codes}
use cpp_gram.Json.{escape_json_string}
use cpp_gram.Json.Parser.{parse}
use cpp_gram.Keyboard.{
  InlineKeyboard, callback, link, switch_inline, add_row, add_button, inline_keyboard,
  reply_markup_to_json,
}
use cpp_gram.Keyboard.Document.{keyboard_value, parse-reply_markup_to_json}

abbrev menu : InlineKeyboard
unfolding callback link switch_inline add_row add_button
menu = add_button 2 (link (codes "Site") (codes "https://x/")) (
    add_button 0 (switch_inline (codes "Find") (codes "q") true)
      (add_row (callback (codes "Say \"yes\"") (codes "y") ∷ []) []))

menu_text :
    reply_markup_to_json (inline_keyboard menu)
    ≡ codes
        "{\"inline_keyboard\":[[{\"text\":\"Say \\\"yes\\\"\",\"callback_data\":\"y\"},{\"text\":\"Find\"}],[],[{\"text\":\"Site\",\"url\":\"https://x/\"}]]}"
unfolding reply_markup_to_json menu escape_json_string
menu_text = refl

menu_parsed : parse (reply_markup_to_json (inline_keyboard menu)) ≡ some (keyboard_value menu)
menu_parsed = parse-reply_markup_to_json menu
