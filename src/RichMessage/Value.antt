-- ===== src/RichMessage/Value.antt =====
-- The JSON value that a rich message stands for, given block by block.
use cpp_gram.Common.{ℕ, Bool, true, false, not, List, [], ◌∷◌, Option, none, some, All}
use cpp_gram.Common.Text.{codes}
use cpp_gram.Json.Value.{
  Json, Items, Fields, text, number, yes_no, array, object, no_items, item, no_fields, field,
}
use cpp_gram.Json.Pieces.{empty}
use cpp_gram.Json.Shows.{IsPlain, field_if, items_of}
use cpp_gram.RichMessage.{
  RichMessageButton, RichBlockTableCell, RichBlockTable, RichBlock, RichBlockType, RichBlockPayload,
  InputRichMessage, section_heading, paragraph, preformatted, divider, table, buttons,
  section_heading_of, paragraph_of, preformatted_of, table_of, buttons_of,
}

abbrev pub named : List ℕ → Json → Fields
named k x = field k x no_fields

abbrev pub action_fields : Option (List ℕ) → Option (List ℕ) → Fields
action_fields (some d) url = named (codes "callback_data") (text d)
action_fields none (some u) = named (codes "url") (text u)
action_fields none none = no_fields

abbrev pub button_value : RichMessageButton → Json
button_value btn =
    object (field (codes "text") (text btn.text) (action_fields btn.callback_data btn.url))

abbrev pub typed : List ℕ → Fields → Json
typed k fs = object (field (codes "type") (text k) fs)

abbrev pub cell_text_value :
    List ℕ → Option RichMessageButton → Option (List ℕ) → Bool → Bool → Json
cell_text_value s (some btn) emoji bold code =
    typed (codes "button") (named (codes "button") (button_value btn))
cell_text_value s none (some id) bold code =
    typed (codes "custom_emoji")
      (field (codes "custom_emoji_id") (text id) (named (codes "alternative_text") (text s)))
cell_text_value s none none true code = typed (codes "bold") (named (codes "text") (text s))
cell_text_value s none none false true = typed (codes "code") (named (codes "text") (text s))
cell_text_value s none none false false = text s

abbrev pub cell_value : RichBlockTableCell → Json
cell_value cell = object (
    field (codes "text")
      (cell_text_value cell.text cell.button cell.custom_emoji_id cell.is_bold cell.is_code)
      (field_if cell.is_header (codes "is_header") (yes_no true) (
        field_if (not (empty cell.align)) (codes "align") (text cell.align)
          (field_if (not (empty cell.valign)) (codes "valign") (text cell.valign) no_fields))))

abbrev pub row_value : List RichBlockTableCell → Json
row_value row = array (items_of cell_value row)

abbrev pub table_value : RichBlockTable → Json
table_value t = typed (codes "table") (
    field_if t.is_bordered (codes "is_bordered") (yes_no true) (
      field_if t.is_compact (codes "is_compact") (yes_no true) (
        field_if t.is_striped (codes "is_striped") (yes_no true)
          (named (codes "cells") (array (items_of row_value t.cells))))))

-- A block of one of six types has a value, when its payload is that of the type.
abbrev pub block_value : RichBlockType → RichBlockPayload → Option Json
block_value section_heading (section_heading_of s) = some (
    typed (codes "heading")
      (field (codes "text") (text s) (named (codes "size") (number (codes "2")))))
block_value paragraph (paragraph_of s) =
    some (typed (codes "paragraph") (named (codes "text") (text s)))
block_value preformatted (preformatted_of s language) = some (
    typed (codes "pre") (
      field (codes "text") (text s)
        (field_if (not (empty language)) (codes "language") (text language) no_fields)))
block_value divider p = some (typed (codes "divider") no_fields)
block_value table (table_of t) = some (table_value t)
block_value buttons (buttons_of btns align) = some (
    typed (codes "buttons") (
      field (codes "align") (text align)
        (named (codes "buttons") (array (items_of button_value btns)))))
block_value t p = none

abbrev pub item_if : Option Json → Items → Items
item_if none xs = xs
item_if (some x) xs = item x xs

abbrev pub blocks_items : List RichBlock → Items
blocks_items [] = no_items
blocks_items (b ∷ bs) = item_if (block_value b.block_type b.payload) (blocks_items bs)

abbrev pub message_value : InputRichMessage → Json
message_value msg = object (named (codes "blocks") (array (blocks_items msg.blocks)))

-- The alignments that are written without escapes need none.
abbrev pub HasPlainCell : RichBlockTableCell → Type 0
HasPlainCell cell = IsPlain cell.align × IsPlain cell.valign

abbrev pub HasPlainPayload : RichBlockPayload → Type 0
HasPlainPayload (table_of t) = All (λ row. All HasPlainCell row) t.cells
HasPlainPayload (buttons_of btns align) = IsPlain align
HasPlainPayload p = Unit

abbrev pub HasPlainAligns : InputRichMessage → Type 0
HasPlainAligns msg = All (λ b. HasPlainPayload b.payload) msg.blocks
