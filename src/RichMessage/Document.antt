-- ===== src/RichMessage/Document.antt =====
-- serialize_rich_message_json of src/core/rich_message.cpp writes the text of the message's value.
use cpp_gram.Common.{
  ℕ, ◌≡◌, refl, ap, ◌∙◌, sym, subst, Bool, true, false, not, List, [], ◌∷◌, ◌++◌, append_assoc,
  Option, none, some, if◌then◌else◌, All,
}
use cpp_gram.Common.Text.{codes}
use cpp_gram.Json.{escape_json_string}
use cpp_gram.Json.Value.{Json, Items, Fields, array, render, render_items}
use cpp_gram.Json.Parser.{parse}
use cpp_gram.Json.Grammar.{AreItems}
use cpp_gram.Json.RoundTrip.{parse-render}
use cpp_gram.Json.Pieces.{when, empty, in_quotes, separated}
use cpp_gram.Json.Shows.{
  All-each, Shows, Writes, IsPlain, text-Shows, unescaped-Shows, digit-Shows, end-Writes,
  object-Shows, field-Writes, field_if-Writes, true-Shows, items_of, array-Shows,
}
use cpp_gram.RichMessage.{
  RichMessageButton, RichBlockTableCell, RichBlockTable, RichBlock, RichBlockType, RichBlockPayload,
  InputRichMessage, section_heading, paragraph, preformatted, divider, table, buttons,
  section_heading_of, paragraph_of, preformatted_of, table_of, buttons_of,
}
use cpp_gram.RichMessage.Serialize.{
  action_json, button_json, cell_text_json, cell_json, row_json, table_json, block_json,
  blocks_json, serialize_rich_message_json,
}
use cpp_gram.RichMessage.Value.{
  named, action_fields, button_value, typed, cell_text_value, cell_value, row_value, table_value,
  block_value, item_if, blocks_items, message_value, HasPlainCell, HasPlainPayload, HasPlainAligns,
}

All-implies :
    {A : Type 0} {P Q : A → Type 0} → ((x : A) → P x → Q x) → (xs : List A) → All P xs → All Q xs
All-implies f [] h = tt
All-implies f (x ∷ xs) h = (f x h.0, All-implies f xs h.1)

action_lem :
    (callback url : Option (List ℕ))
    → Writes (action_fields callback url) (action_json callback url ++ codes "}")
unfolding action_json escape_json_string
action_lem (some d) url =
    subst (Writes (action_fields (some d) url))
      (sym (append_assoc (codes ",\"callback_data\":") (in_quotes d) (codes "}")))
      (field-Writes (codes "callback_data") refl (text-Shows d) end-Writes)
action_lem none (some u) =
    subst (Writes (action_fields none (some u)))
      (sym (append_assoc (codes ",\"url\":") (in_quotes u) (codes "}")))
      (field-Writes (codes "url") refl (text-Shows u) end-Writes)
action_lem none none = end-Writes

button_lem : (btn : RichMessageButton) → Shows (button_value btn) (button_json btn)
unfolding button_json escape_json_string
button_lem btn =
    object-Shows (codes "text") refl (text-Shows btn.text) (action_lem btn.callback_data btn.url)

-- An object whose first member is its type.
typed_lem :
    {fs : Fields} {s : List ℕ} (k : List ℕ)
    → Writes fs s
    → Shows (typed k fs) (codes "{\"type\":" ++ (in_quotes k ++ s))
unfolding escape_json_string
typed_lem k w = object-Shows (codes "type") refl (text-Shows k) w

named_lem :
    {x : Json} {s : List ℕ} (k : List ℕ)
    → IsPlain k
    → Shows x s
    → Writes (named k x) (codes ",\"" ++ (k ++ (codes "\":" ++ (s ++ codes "}"))))
named_lem k h v = field-Writes k h v end-Writes

cell_text_lem :
    (s : List ℕ) (btn : Option RichMessageButton) (emoji : Option (List ℕ)) (bold code : Bool)
    → Shows (cell_text_value s btn emoji bold code) (cell_text_json s btn emoji bold code)
unfolding cell_text_json escape_json_string
cell_text_lem s (some btn) emoji bold code =
    typed_lem (codes "button") (named_lem (codes "button") refl (button_lem btn))
cell_text_lem s none (some id) bold code = typed_lem (codes "custom_emoji") (
    field-Writes (codes "custom_emoji_id") refl (text-Shows id)
      (named_lem (codes "alternative_text") refl (text-Shows s)))
cell_text_lem s none none true code =
    typed_lem (codes "bold") (named_lem (codes "text") refl (text-Shows s))
cell_text_lem s none none false true =
    typed_lem (codes "code") (named_lem (codes "text") refl (text-Shows s))
cell_text_lem s none none false false = text-Shows s

cell_lem :
    (cell : RichBlockTableCell) → HasPlainCell cell → Shows (cell_value cell) (cell_json cell)
unfolding cell_json escape_json_string
cell_lem cell (align, valign) =
    object-Shows (codes "text") refl
      (cell_text_lem cell.text cell.button cell.custom_emoji_id cell.is_bold cell.is_code)
      (field_if-Writes cell.is_header (codes "is_header") refl true-Shows (
        field_if-Writes (not (empty cell.align)) (codes "align") refl
          (unescaped-Shows cell.align align)
          (field_if-Writes (not (empty cell.valign)) (codes "valign") refl
            (unescaped-Shows cell.valign valign) end-Writes)))

row_lem :
    (row : List RichBlockTableCell) → All HasPlainCell row → Shows (row_value row) (row_json row)
unfolding row_json
row_lem row h = array-Shows cell_value cell_json row (All-implies cell_lem row h)

array_lem :
    {A : Type 0} (k : List ℕ) (d : A → Json) (f : A → List ℕ) (xs : List A)
    → IsPlain k
    → All (λ x. Shows (d x) (f x)) xs
    → Writes
        (named k (array (items_of d xs)))
        (codes ",\"" ++ (k ++ (codes "\":[" ++ (separated f 0 xs ++ codes "]}"))))
array_lem k d f xs h all =
    subst
      (λ z. Writes (named k (array (items_of d xs))) (codes ",\"" ++ (k ++ (codes "\":[" ++ z))))
      (append_assoc (separated f 0 xs) (codes "]") (codes "}"))
      (named_lem k h (array-Shows d f xs all))

table_lem :
    (t : RichBlockTable)
    → All (λ row. All HasPlainCell row) t.cells
    → Shows (table_value t) (table_json t)
unfolding table_json escape_json_string
table_lem t h = typed_lem (codes "table") (
    field_if-Writes t.is_bordered (codes "is_bordered") refl true-Shows (
      field_if-Writes t.is_compact (codes "is_compact") refl true-Shows (
        field_if-Writes t.is_striped (codes "is_striped") refl true-Shows (
          array_lem (codes "cells") row_value row_json t.cells refl
            (All-implies row_lem t.cells h)))))

-- The text of a block that has a value, nothing for another.
abbrev Kept : Option Json → List ℕ → Type 0
Kept none s = s ≡ []
Kept (some x) s = (empty s ≡ false) × Shows x s

block_lem :
    (t : RichBlockType) (p : RichBlockPayload)
    → HasPlainPayload p
    → Kept (block_value t p) (block_json t p)
unfolding block_json table_json escape_json_string
block_lem section_heading (section_heading_of s) h = (
  refl,
  typed_lem (codes "heading") (
      field-Writes (codes "text") refl (text-Shows s)
        (named_lem (codes "size") refl (digit-Shows b'2' refl))),
)
block_lem paragraph (paragraph_of s) h =
    (refl, typed_lem (codes "paragraph") (named_lem (codes "text") refl (text-Shows s)))
block_lem preformatted (preformatted_of s language) h = (
  refl,
  typed_lem (codes "pre") (
      field-Writes (codes "text") refl (text-Shows s) (
        field_if-Writes (not (empty language)) (codes "language") refl (text-Shows language)
          end-Writes)),
)
block_lem divider p h = (refl, typed_lem (codes "divider") end-Writes)
block_lem table (table_of t) h = (refl, table_lem t h)
block_lem buttons (buttons_of btns align) h = (
  refl,
  typed_lem (codes "buttons") (
      field-Writes (codes "align") refl (unescaped-Shows align h) (
        array_lem (codes "buttons") button_value button_json btns refl (All-each button_lem btns))),
)
block_lem t p h = refl

block_step :
    (v : Option Json) (s : List ℕ) (first : Bool) (xs : Items) (skipped written tail rest : List ℕ)
    → Kept v s
    → render_items first xs rest ≡ skipped ++ tail
    → render_items false xs rest ≡ written ++ tail
    → render_items first (item_if v xs) rest
      ≡ (if empty s then skipped else when (not first) (b',' ∷ []) ++ (s ++ written)) ++ tail
unfolding render
block_step none s first xs skipped written tail rest k h0 h1 = rw k h0
block_step (some x) s true xs skipped written tail rest (e, v) h0 h1 =
    rw (e, h1, v.rendered, append_assoc s written tail) refl
block_step (some x) s false xs skipped written tail rest (e, v) h0 h1 =
    rw (e, h1, v.rendered, append_assoc s written tail) refl

item_if-AreItems :
    (v : Option Json) (s : List ℕ) (xs : Items) → Kept v s → AreItems xs → AreItems (item_if v xs)
item_if-AreItems none s xs k h = h
item_if-AreItems (some x) s xs k h = (k.1.shown, h)

blocks_AreItems :
    (bs : List RichBlock) → All (λ b. HasPlainPayload b.payload) bs → AreItems (blocks_items bs)
blocks_AreItems [] h = tt
blocks_AreItems (b ∷ bs) (p, h) =
    item_if-AreItems (block_value b.block_type b.payload) (block_json b.block_type b.payload)
      (blocks_items bs) (block_lem b.block_type b.payload p) (blocks_AreItems bs h)

blocks_lem :
    (bs : List RichBlock) (first : Bool) (rest : List ℕ)
    → All (λ b. HasPlainPayload b.payload) bs
    → render_items first (blocks_items bs) rest ≡ blocks_json first bs ++ (b']' ∷ rest)
unfolding render blocks_json
blocks_lem [] first rest h = refl
blocks_lem (b ∷ bs) first rest (p, h) =
    block_step (block_value b.block_type b.payload) (block_json b.block_type b.payload) first
      (blocks_items bs) (blocks_json first bs) (blocks_json false bs) (b']' ∷ rest) rest
      (block_lem b.block_type b.payload p) (blocks_lem bs first rest h) (blocks_lem bs false rest h)

-- A message whose alignments need no escapes is written as the JSON text of a value that is given
-- without regard to the text: reading it back gives an object with the blocks that have a value, in
-- their order, each with its type, its strings as they were before they were escaped, and its flags.
-- A block whose payload is not that of its type, or whose type is none of the six that are written,
-- leaves nothing behind.
pub parse-serialize_rich_message_json :
    (msg : InputRichMessage)
    → HasPlainAligns msg
    → parse (serialize_rich_message_json msg) ≡ some (message_value msg)
unfolding serialize_rich_message_json render escape_json_string
parse-serialize_rich_message_json msg h =
    ap parse (ap (λ z. codes "{\"blocks\":[" ++ z) (sym (blocks_lem msg.blocks true (b'}' ∷ []) h)))
    ∙ parse-render (message_value msg) (blocks_AreItems msg.blocks h, tt)
