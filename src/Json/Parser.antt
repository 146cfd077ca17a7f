-- ===== src/Json/Parser.antt =====
-- A reader of JSON texts, written from the grammar of RFC 8259 and not from the code: no white space
-- between tokens, no sign, fraction or exponent, no null, and `\u` only for ASCII.
use cpp_gram.Common.{
  ℕ, zero, suc, ◌+◌, ◌-◌, ◌*◌, Bool, true, false, ◌&&◌, List, [], ◌∷◌, Option, none, some, length,
  ltb, leb, ◌==◌, if◌then◌else◌,
}
use cpp_gram.Common.Text.{codes}
use cpp_gram.Json.Value.{
  Json, Items, Fields, text, number, yes_no, array, object, no_items, item, no_fields, field,
}

infixl 5 ◌>>=◌
abbrev pub ◌>>=◌ : {A B : Type 0} → Option A → (A → Option B) → Option B
none >>= f = none
some a >>= f = f a

-- Inside a string: between characters, behind a backslash, or with `k + 1` hexadecimal digits to come.
pub data Mode : Type 0 where
  plain backslash : Mode
  hex : ℕ → ℕ → Mode

abbrev pub hex_value : ℕ → Option ℕ
hex_value c =
    if leb b'0' c && leb c b'9'
    then some (c - b'0')
    else if leb b'a' c && leb c b'f'
    then some (c - b'a' + 10)
    else if leb b'A' c && leb c b'F'
    then some (c - b'A' + 10)
    else none

abbrev pub escaped_value : ℕ → Option ℕ
escaped_value c =
    if c == b'"'
    then some b'"'
    else if c == b'\\'
    then some b'\\'
    else if c == b'/'
    then some b'/'
    else if c == b'b'
    then some 8
    else if c == b'f'
    then some 12
    else if c == b'n'
    then some b'\n'
    else if c == b'r'
    then some b'\r'
    else if c == b't'
    then some b'\t'
    else none

-- A step between characters: the end, another mode, or a character in front of what follows.
pub data Turn : Type 0 where
  finish refuse : Turn
  turn : Mode → Turn
  emit : ℕ → Turn

abbrev pub of_value : Option ℕ → Turn
of_value none = refuse
of_value (some c) = emit c

abbrev pub of_digit : ℕ → ℕ → Option ℕ → Turn
of_digit k acc none = refuse
of_digit zero acc (some d) = if ltb (acc * 16 + d) 128 then emit (acc * 16 + d) else refuse
of_digit (suc k) acc (some d) = turn (hex k (acc * 16 + d))

unfoldable pub string_turn : Mode → ℕ → Turn
string_turn plain c =
    if c == b'"'
    then finish
    else if c == b'\\'
    then turn backslash
    else if ltb c 0x20
    then refuse
    else emit c
string_turn backslash c = if c == b'u' then turn (hex 3 0) else of_value (escaped_value c)
string_turn (hex k acc) c = of_digit k acc (hex_value c)

abbrev pub cons_string : ℕ → Option (List ℕ × List ℕ) → Option (List ℕ × List ℕ)
cons_string c none = none
cons_string c (some (s, rest)) = some (c ∷ s, rest)

-- The characters up to the closing quote, and what is behind it.
unfoldable pub parse_string : Mode → List ℕ → Option (List ℕ × List ℕ)
parse_string m [] = none
parse_string m (c ∷ s) = elim (string_turn m c) [
  | finish ↦ some ([], s)
  | refuse ↦ none
  | turn n ↦ parse_string n s
  | emit b ↦ cons_string b (parse_string plain s)
]

abbrev pub is_digit : ℕ → Bool
is_digit c = leb b'0' c && leb c b'9'

-- The digits at the front.
unfoldable pub parse_digits : List ℕ → List ℕ × List ℕ
parse_digits [] = ([], [])
parse_digits (c ∷ s) =
    let (ds, rest) = parse_digits s in if is_digit c then (c ∷ ds, rest) else ([], c ∷ s)

-- What follows a fixed text.
unfoldable pub expect : List ℕ → List ℕ → Option (List ℕ)
expect [] s = some s
expect (w ∷ ws) [] = none
expect (w ∷ ws) (c ∷ s) = let rest = expect ws s in if c == w then rest else none

abbrev pub starts : ℕ → List ℕ → Bool
starts c [] = false
starts c (x ∷ s) = x == c

unfoldable pub expect_comma : Bool → List ℕ → Option (List ℕ)
unfolding expect
expect_comma true s = some s
expect_comma false s = expect (b',' ∷ []) s

-- What a value begins with.
pub data Kind : Type 0 where
  is_text is_array is_object is_true is_false is_number : Kind

unfoldable pub kind : ℕ → Kind
kind c =
    if c == b'"'
    then is_text
    else if c == b'['
    then is_array
    else if c == b'{'
    then is_object
    else if c == b't'
    then is_true
    else if c == b'f'
    then is_false
    else is_number

abbrev of_digits : List ℕ × List ℕ → Option (Json × List ℕ)
of_digits ([], rest) = none
of_digits (d ∷ ds, rest) = some (number (d ∷ ds), rest)

unfoldable mutual
  unfolding parse_string parse_digits expect expect_comma kind

  pub parse_value : ℕ → List ℕ → Option (Json × List ℕ)
  parse_value zero s = none
  parse_value (suc f) [] = none
  parse_value (suc f) (c ∷ s) = elim (kind c) [
    | is_text ↦ parse_string plain s >>= λ (str, rest). some (text str, rest)
    | is_array ↦ parse_items f true s >>= λ (xs, rest). some (array xs, rest)
    | is_object ↦ parse_fields f true s >>= λ (fs, rest). some (object fs, rest)
    | is_true ↦ expect (codes "rue") s >>= λ rest. some (yes_no true, rest)
    | is_false ↦ expect (codes "alse") s >>= λ rest. some (yes_no false, rest)
    | is_number ↦ of_digits (parse_digits (c ∷ s))
  ]

  pub parse_items : ℕ → Bool → List ℕ → Option (Items × List ℕ)
  parse_items zero first s = none
  parse_items (suc f) first s = elim (starts b']' s) [
    | true ↦ expect (b']' ∷ []) s >>= λ rest. some (no_items, rest)
    | false ↦ expect_comma first s >>= λ s1.
        parse_value f s1 >>= λ (x, s2). parse_items f false s2 >>= λ (xs, s3). some (item x xs, s3)
  ]

  pub parse_fields : ℕ → Bool → List ℕ → Option (Fields × List ℕ)
  parse_fields zero first s = none
  parse_fields (suc f) first s = elim (starts b'}' s) [
    | true ↦ expect (b'}' ∷ []) s >>= λ rest. some (no_fields, rest)
    | false ↦ expect_comma first s >>= λ s1. expect (b'"' ∷ []) s1 >>= λ s2.
        parse_string plain s2 >>= λ (k, s3). expect (b':' ∷ []) s3 >>= λ s4.
        parse_value f s4 >>= λ (x, s5).
        parse_fields f false s5 >>= λ (fs, s6). some (field k x fs, s6)
  ]

abbrev only : Option (Json × List ℕ) → Option Json
only none = none
only (some (x, [])) = some x
only (some (x, c ∷ rest)) = none

-- The value that a whole text stands for.
unfoldable pub parse : List ℕ → Option Json
unfolding parse_value
parse s = only (parse_value (suc (length s)) s)
