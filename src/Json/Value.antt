-- ===== src/Json/Value.antt =====
-- JSON values, and their text without white space.
use cpp_gram.Common.{ℕ, Bool, true, false, List, ◌∷◌, ◌++◌}
use cpp_gram.Common.Text.{codes}
use cpp_gram.Json.{escape_json_string}

mutual
  pub data Json : Type 0 where
    text : List ℕ → Json
    -- by its digits
    number : List ℕ → Json
    yes_no : Bool → Json
    array : Items → Json
    object : Fields → Json

  pub data Items : Type 0 where
    no_items : Items
    item : Json → Items → Items

  pub data Fields : Type 0 where
    no_fields : Fields
    field : List ℕ → Json → Fields → Fields

-- Nothing in front of the first element, a comma in front of another.
abbrev pub comma : Bool → List ℕ → List ℕ
comma true rest = rest
comma false rest = b',' ∷ rest

abbrev pub quoted : List ℕ → List ℕ → List ℕ
quoted s rest = b'"' ∷ (escape_json_string s ++ (b'"' ∷ rest))

-- The text of a value, in front of `rest`.
unfoldable mutual
  pub render : Json → List ℕ → List ℕ
  render (text s) rest = quoted s rest
  render (number ds) rest = ds ++ rest
  render (yes_no true) rest = codes "true" ++ rest
  render (yes_no false) rest = codes "false" ++ rest
  render (array xs) rest = b'[' ∷ render_items true xs rest
  render (object fs) rest = b'{' ∷ render_fields true fs rest

  pub render_items : Bool → Items → List ℕ → List ℕ
  render_items first no_items rest = b']' ∷ rest
  render_items first (item x xs) rest = comma first (render x (render_items false xs rest))

  pub render_fields : Bool → Fields → List ℕ → List ℕ
  render_fields first no_fields rest = b'}' ∷ rest
  render_fields first (field k x fs) rest =
      comma first (quoted k (b':' ∷ render x (render_fields false fs rest)))
