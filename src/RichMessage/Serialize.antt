-- ===== src/RichMessage/Serialize.antt =====
-- serialize_rich_message_json of src/core/rich_message.cpp: the JSON text of a message.
use cpp_gram.Common.{
  not, ℕ, Bool, true, false, List, [], ◌∷◌, ◌++◌, Option, none, some, if◌then◌else◌,
}
use cpp_gram.Common.Text.{codes}
use cpp_gram.Json.Pieces.{when, empty, in_quotes, unescaped, separated}
use cpp_gram.RichMessage.{
  RichMessageButton, RichBlockTableCell, RichBlockTable, RichBlock, RichBlockType, RichBlockPayload,
  InputRichMessage, section_heading, paragraph, preformatted, divider, table, buttons,
  section_heading_of, paragraph_of, preformatted_of, table_of, buttons_of,
}

-- The callback data, or the URL when there is none, or nothing.
unfoldable pub action_json : Option (List ℕ) → Option (List ℕ) → List ℕ
action_json (some d) url = codes ",\"callback_data\":" ++ in_quotes d
action_json none (some u) = codes ",\"url\":" ++ in_quotes u
action_json none none = []

unfoldable pub button_json : RichMessageButton → List ℕ
unfolding action_json
button_json btn =
    codes "{\"text\":"
    ++ (in_quotes btn.text ++ (action_json btn.callback_data btn.url ++ codes "}"))

-- The `text` member of a cell, from its text, button, custom emoji, `is_bold` and `is_code`.
unfoldable pub cell_text_json :
    List ℕ → Option RichMessageButton → Option (List ℕ) → Bool → Bool → List ℕ
unfolding button_json
cell_text_json s (some btn) emoji bold code =
    codes "{\"type\":\"button\",\"button\":" ++ (button_json btn ++ codes "}")
cell_text_json s none (some id) bold code =
    codes "{\"type\":\"custom_emoji\",\"custom_emoji_id\":"
    ++ (in_quotes id ++ (codes ",\"alternative_text\":" ++ (in_quotes s ++ codes "}")))
cell_text_json s none none true code =
    codes "{\"type\":\"bold\",\"text\":" ++ (in_quotes s ++ codes "}")
cell_text_json s none none false true =
    codes "{\"type\":\"code\",\"text\":" ++ (in_quotes s ++ codes "}")
cell_text_json s none none false false = in_quotes s

unfoldable pub cell_json : RichBlockTableCell → List ℕ
unfolding cell_text_json
cell_json cell =
    codes "{\"text\":"
    ++ (cell_text_json cell.text cell.button cell.custom_emoji_id cell.is_bold cell.is_code
        ++ (when cell.is_header (codes ",\"is_header\":true")
            ++ (when (not (empty cell.align)) (codes ",\"align\":" ++ unescaped cell.align)
                ++ (when (not (empty cell.valign)) (codes ",\"valign\":" ++ unescaped cell.valign)
                    ++ codes "}"))))

unfoldable pub row_json : List RichBlockTableCell → List ℕ
unfolding separated cell_json
row_json row = codes "[" ++ (separated cell_json 0 row ++ codes "]")

unfoldable pub table_json : RichBlockTable → List ℕ
unfolding separated row_json
table_json t =
    codes "{\"type\":\"table\""
    ++ (when t.is_bordered (codes ",\"is_bordered\":true")
        ++ (when t.is_compact (codes ",\"is_compact\":true")
            ++ (when t.is_striped (codes ",\"is_striped\":true")
                ++ (codes ",\"cells\":[" ++ (separated row_json 0 t.cells ++ codes "]}")))))

-- Nothing where the payload does not belong to the type, and for the types under `default`.
unfoldable pub block_json : RichBlockType → RichBlockPayload → List ℕ
unfolding table_json button_json separated
block_json section_heading (section_heading_of text) =
    codes "{\"type\":\"heading\",\"text\":" ++ (in_quotes text ++ codes ",\"size\":2}")
block_json paragraph (paragraph_of text) =
    codes "{\"type\":\"paragraph\",\"text\":" ++ (in_quotes text ++ codes "}")
block_json preformatted (preformatted_of text language) =
    codes "{\"type\":\"pre\",\"text\":"
    ++ (in_quotes text
        ++ (when (not (empty language)) (codes ",\"language\":" ++ in_quotes language)
            ++ codes "}"))
block_json divider p = codes "{\"type\":\"divider\"}"
block_json table (table_of t) = table_json t
block_json buttons (buttons_of btns align) =
    codes "{\"type\":\"buttons\",\"align\":"
    ++ (unescaped align ++ (codes ",\"buttons\":[" ++ (separated button_json 0 btns ++ codes "]}")))
block_json t p = []

-- The loop over the blocks: a block without a text is skipped.
unfoldable pub blocks_json : Bool → List RichBlock → List ℕ
unfolding block_json
blocks_json first_block [] = []
blocks_json first_block (b ∷ bs) =
    let json = block_json b.block_type b.payload in
    let skipped = blocks_json first_block bs in
    let written = blocks_json false bs in
    if empty json then skipped else when (not first_block) (b',' ∷ []) ++ (json ++ written)

unfoldable pub serialize_rich_message_json : InputRichMessage → List ℕ
unfolding blocks_json
serialize_rich_message_json msg =
    codes "{\"blocks\":[" ++ (blocks_json true msg.blocks ++ codes "]}")
