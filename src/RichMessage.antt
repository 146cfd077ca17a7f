-- ===== src/RichMessage.antt =====
-- include/cppgram/rich_message.hpp and the builder of src/core/rich_message.cpp.
pub mod Serialize
pub mod Value
pub mod Document
mod Tests
use cpp_gram.Common.{ℕ, Bool, true, false, List, [], ◌∷◌, ◌++◌, Option, none, some}
use cpp_gram.Common.Text.{codes}

pub record RichMessageButton : Type 0 where
  pub text : List ℕ
  pub style : List ℕ
  pub url : Option (List ℕ)
  pub callback_data : Option (List ℕ)
  pub copy_text : Option (List ℕ)
  pub disabled : Bool

abbrev plain_button : List ℕ → List ℕ → RichMessageButton
plain_button text style = record {
  text = text;
  style = style;
  url = none;
  callback_data = none;
  copy_text = none;
  disabled = false;
}

unfoldable pub make_url : List ℕ → List ℕ → List ℕ → RichMessageButton
make_url text url style = record (plain_button text style) { url = some url }

unfoldable pub make_callback : List ℕ → List ℕ → List ℕ → RichMessageButton
make_callback text payload style = record (plain_button text style) { callback_data = some payload }

unfoldable pub make_copy : List ℕ → List ℕ → List ℕ → RichMessageButton
make_copy text copy_val style = record (plain_button text style) { copy_text = some copy_val }

pub data RichBlockType : Type 0 where
  paragraph section_heading preformatted footer divider mathematical_expression anchor list
        block_quotation expandable_block_quotation pull_quotation collage slideshow table details
        map buttons document animation audio photo video voice_note thinking :
      RichBlockType

pub record RichBlockTableCell : Type 0 where
  pub text : List ℕ
  pub is_header : Bool
  pub colspan : ℕ
  pub rowspan : ℕ
  pub align : List ℕ
  pub valign : List ℕ
  pub is_bold : Bool
  pub is_code : Bool
  pub button : Option RichMessageButton
  pub custom_emoji_id : Option (List ℕ)

abbrev plain_cell : List ℕ → List ℕ → RichBlockTableCell
plain_cell text align = record {
  text = text;
  is_header = false;
  colspan = 1;
  rowspan = 1;
  align = align;
  valign = codes "middle";
  is_bold = false;
  is_code = false;
  button = none;
  custom_emoji_id = none;
}

unfoldable pub make_header : List ℕ → List ℕ → RichBlockTableCell
make_header text align = record (plain_cell text align) { is_header = true }

unfoldable pub make_text : List ℕ → List ℕ → RichBlockTableCell
make_text text align = plain_cell text align

unfoldable pub make_bold : List ℕ → List ℕ → RichBlockTableCell
make_bold text align = record (plain_cell text align) { is_bold = true }

unfoldable pub make_code : List ℕ → List ℕ → RichBlockTableCell
make_code text align = record (plain_cell text align) { is_code = true }

unfoldable pub make_button : RichMessageButton → List ℕ → RichBlockTableCell
make_button btn align = record (plain_cell btn.text align) { button = some btn }

unfoldable pub make_custom_emoji : List ℕ → List ℕ → List ℕ → RichBlockTableCell
make_custom_emoji emoji emoji_id align = record (plain_cell emoji align) {
  custom_emoji_id = some emoji_id;
}

pub record RichBlockTable : Type 0 where
  pub cells : List (List RichBlockTableCell)
  pub is_bordered : Bool
  pub is_striped : Bool
  pub is_compact : Bool
  pub caption : Option (List ℕ)

-- The alternatives of the variant, each with the fields of its struct.
pub data RichBlockPayload : Type 0 where
  paragraph_of section_heading_of thinking_of : List ℕ → RichBlockPayload
  preformatted_of : List ℕ → List ℕ → RichBlockPayload
  divider_of : RichBlockPayload
  table_of : RichBlockTable → RichBlockPayload
  expandable_block_quotation_of document_of : List ℕ → Option (List ℕ) → RichBlockPayload
  buttons_of : List RichMessageButton → List ℕ → RichBlockPayload

pub record RichBlock : Type 0 where
  pub block_type : RichBlockType
  pub payload : RichBlockPayload

pub record InputRichMessageMedia : Type 0 where
  pub id : List ℕ
  pub media : List ℕ

pub record InputRichMessage : Type 0 where
  pub html : Option (List ℕ)
  pub markdown : Option (List ℕ)
  pub blocks : List RichBlock
  pub media : List InputRichMessageMedia
  pub is_rtl : Bool
  pub skip_entity_detection : Bool

abbrev pub empty_message : InputRichMessage
empty_message = record {
  html = none;
  markdown = none;
  blocks = [];
  media = [];
  is_rtl = false;
  skip_entity_detection = false;
}

-- `message_.blocks.emplace_back(type, payload)`
unfoldable pub add_block : RichBlockType → RichBlockPayload → InputRichMessage → InputRichMessage
add_block t p m = record m { blocks = m.blocks ++ record { block_type = t; payload = p } ∷ [] }

-- RichMessageBuilder: a builder is the message that it has so far.
unfoldable pub add_heading : List ℕ → InputRichMessage → InputRichMessage
unfolding add_block
add_heading text m = add_block section_heading (section_heading_of text) m

unfoldable pub add_paragraph : List ℕ → InputRichMessage → InputRichMessage
unfolding add_block
add_paragraph text m = add_block paragraph (paragraph_of text) m

unfoldable pub add_preformatted : List ℕ → List ℕ → InputRichMessage → InputRichMessage
unfolding add_block
add_preformatted code language m = add_block preformatted (preformatted_of code language) m

unfoldable pub add_divider : InputRichMessage → InputRichMessage
unfolding add_block
add_divider m = add_block divider divider_of m

unfoldable pub add_table : RichBlockTable → InputRichMessage → InputRichMessage
unfolding add_block
add_table t m = add_block table (table_of t) m

unfoldable pub add_expandable_quote : List ℕ → Option (List ℕ) → InputRichMessage → InputRichMessage
unfolding add_block
add_expandable_quote text credit m =
    add_block expandable_block_quotation (expandable_block_quotation_of text credit) m

unfoldable pub add_buttons : List RichMessageButton → List ℕ → InputRichMessage → InputRichMessage
unfolding add_block
add_buttons btn_list align m = add_block buttons (buttons_of btn_list align) m

unfoldable pub add_document : List ℕ → Option (List ℕ) → InputRichMessage → InputRichMessage
unfolding add_block
add_document doc_id_or_link caption m = add_block document (document_of doc_id_or_link caption) m

unfoldable pub add_thinking : List ℕ → InputRichMessage → InputRichMessage
unfolding add_block
add_thinking thought_process m = add_block thinking (thinking_of thought_process) m

unfoldable pub set_rtl : Bool → InputRichMessage → InputRichMessage
set_rtl rtl m = record m { is_rtl = rtl }

unfoldable pub set_skip_entity_detection : Bool → InputRichMessage → InputRichMessage
set_skip_entity_detection skip m = record m { skip_entity_detection = skip }

unfoldable pub add_media : List ℕ → List ℕ → InputRichMessage → InputRichMessage
add_media id media_target m = record m {
  media = m.media ++ record { id = id; media = media_target } ∷ [];
}
