-- ===== src/RichMessage/Tests.antt =====
-- A message with a block of every kind that is written, and some that are not.
use cpp_gram.Common.{◌≡◌, refl, true, false, [], ◌∷◌, some, none}
use cpp_gram.Common.Text.{codes}
use cpp_gram.Json.Parser.{parse}
use cpp_gram.Json.{escape_json_string}
use cpp_gram.RichMessage.{
  InputRichMessage, RichBlockTable, empty_message, make_callback, make_url, make_header, make_text,
  make_button, add_heading, add_paragraph, add_preformatted, add_divider, add_table,
  add_expandable_quote, add_buttons, add_thinking,
}
use cpp_gram.RichMessage.Serialize.{serialize_rich_message_json}
use cpp_gram.RichMessage.Value.{message_value, HasPlainAligns}
use cpp_gram.RichMessage.Document.{parse-serialize_rich_message_json}

-- Two short messages and their texts.
heading_text :
    serialize_rich_message_json (add_divider (add_heading (codes "say \"hi\"") empty_message))
    ≡ codes
        "{\"blocks\":[{\"type\":\"heading\",\"text\":\"say \\\"hi\\\"\",\"size\":2},{\"type\":\"divider\"}]}"
unfolding serialize_rich_message_json add_divider add_heading escape_json_string
heading_text = refl

-- The quotation leaves no trace.
quote_text :
    serialize_rich_message_json (add_divider (add_expandable_quote (codes "q") none empty_message))
    ≡ codes "{\"blocks\":[{\"type\":\"divider\"}]}"
unfolding serialize_rich_message_json add_divider add_expandable_quote
quote_text = refl

abbrev scores : RichBlockTable
unfolding make_header make_text make_button make_callback
scores = record {
  cells =
      (make_header (codes "who") (codes "center") ∷ make_header (codes "go") (codes "center") ∷ [])
      ∷ (make_text (codes "a\tb") (codes "left")
          ∷ make_button (make_callback (codes "vote") (codes "v:1") (codes "primary"))
              (codes "center")
          ∷ [])
      ∷ [];
  is_bordered = true;
  is_striped = false;
  is_compact = true;
  caption = none;
}

abbrev report : InputRichMessage
unfolding add_heading add_paragraph add_preformatted add_table add_expandable_quote add_buttons
    add_thinking make_url make_callback
report = add_thinking (codes "hm") (
    add_buttons
      (make_url (codes "open") (codes "https://x/") (codes "link")
        ∷ make_callback (codes "ok") (codes "\\o/") (codes "primary")
        ∷ [])
      (codes "left")
      (add_expandable_quote (codes "q") none (
        add_table scores (
          add_preformatted (codes "x = \"1\"\n") (codes "py")
            (add_paragraph (codes "all") (add_heading (codes "Scores") empty_message))))))

report-HasPlainAligns : HasPlainAligns report
unfolding escape_json_string report scores
report-HasPlainAligns = (
  tt,
  (
    tt,
    (
      tt,
      (
        (((refl, refl), ((refl, refl), tt)), (((refl, refl), ((refl, refl), tt)), tt)),
        (tt, (refl, (tt, tt))),
      ),
    ),
  ),
)

parse-serialize_rich_message_json_example :
    parse (serialize_rich_message_json report) ≡ some (message_value report)
parse-serialize_rich_message_json_example =
    parse-serialize_rich_message_json report report-HasPlainAligns
