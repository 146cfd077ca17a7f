-- ===== src/Json/RoundTrip.antt =====
-- Texts of JSON values are read back.
use cpp_gram.Common.{
  ℕ, zero, suc, ◌≤◌, ◌≡◌, refl, Bool, true, false, List, [], ◌∷◌, ◌++◌, some, length, All, ◌==◌,
  arith,
}
use cpp_gram.Json.Value.{
  Json, Items, Fields, text, number, yes_no, array, object, no_items, item, no_fields, field,
  render, render_items, render_fields, quoted, comma,
}
use cpp_gram.Json.Parser.{
  is_digit, parse_digits, is_number, starts, expect_comma, kind, parse_value, parse_items,
  parse_fields, parse,
}
use cpp_gram.Json.Grammar.{
  IsJson, AreItems, AreFields, need, need_items, need_fields, need-pos, need_items-pos,
  need_fields-pos, need-le,
}
use cpp_gram.Json.Strings.{parse_string-escape_json_string}

-- What may stand behind a number.
abbrev Stops : List ℕ → Type 0
Stops [] = Unit
Stops (c ∷ s) = is_digit c ≡ false

items_stop : (xs : Items) (rest : List ℕ) → Stops (render_items false xs rest)
unfolding render
items_stop no_items rest = refl
items_stop (item x xs) rest = refl

fields_stop : (fs : Fields) (rest : List ℕ) → Stops (render_fields false fs rest)
unfolding render
fields_stop no_fields rest = refl
fields_stop (field k x fs) rest = refl

digit_kind : (d : ℕ) → is_digit d ≡ true → (kind d ≡ is_number) × ((d == b']') ≡ false)
unfolding kind
digit_kind d h = (ground arith, ground arith)

parse_digits-append :
    (ds rest : List ℕ)
    → All (λ d. is_digit d ≡ true) ds
    → Stops rest
    → parse_digits (ds ++ rest) ≡ (ds, rest)
unfolding parse_digits
parse_digits-append [] [] h k = refl
parse_digits-append [] (c ∷ rest) h k = rw k refl
parse_digits-append (d ∷ ds) rest h k = rw (h.0, parse_digits-append ds rest h.1 k) refl

-- A value never begins with a closing bracket.
starts-render :
    (first : Bool) (x : Json) (rest : List ℕ)
    → IsJson x
    → starts b']' (comma first (render x rest)) ≡ false
unfolding render
starts-render false x rest h = refl
starts-render true (text s) rest h = refl
starts-render true (number []) rest h = absurd (h.0 refl)
starts-render true (number (d ∷ ds)) rest h = (digit_kind d h.1.0).1
starts-render true (yes_no true) rest h = refl
starts-render true (yes_no false) rest h = refl
starts-render true (array xs) rest h = refl
starts-render true (object fs) rest h = refl

expect_comma-comma : (first : Bool) (s : List ℕ) → expect_comma first (comma first s) ≡ some s
unfolding expect_comma
expect_comma-comma true s = refl
expect_comma-comma false s = refl

starts-quoted : (first : Bool) (k rest : List ℕ) → starts b'}' (comma first (quoted k rest)) ≡ false
starts-quoted true k rest = refl
starts-quoted false k rest = refl

items_step :
    (f : ℕ) (first : Bool) (s : List ℕ) {s1 s2 s3 : List ℕ} {x : Json} {xs : Items}
    → starts b']' s ≡ false
    → expect_comma first s ≡ some s1
    → parse_value f s1 ≡ some (x, s2)
    → parse_items f false s2 ≡ some (xs, s3)
    → parse_items (suc f) first s ≡ some (item x xs, s3)
unfolding parse_value
items_step f first s h c v i = rw (h, parse_items, c, v, i) refl

fields_step :
    (f : ℕ) (first : Bool) (s k s1 : List ℕ) {s2 s3 : List ℕ} {x : Json} {fs : Fields}
    → starts b'}' s ≡ false
    → expect_comma first s ≡ some (quoted k (b':' ∷ s1))
    → parse_value f s1 ≡ some (x, s2)
    → parse_fields f false s2 ≡ some (fs, s3)
    → parse_fields (suc f) first s ≡ some (field k x fs, s3)
unfolding parse_value
fields_step f first s k s1 h c v i =
    rw (h, parse_fields, c, parse_string-escape_json_string k (b':' ∷ s1), v, i) refl

mutual
  unfolding parse_value render

  reads :
      (x : Json) (f : ℕ) (rest : List ℕ)
      → IsJson x
      → need x ≤ f
      → Stops rest
      → parse_value f (render x rest) ≡ some (x, rest)
  reads x zero rest v h k = absurd (omega (arith, need-pos x))
  reads (text s) (suc f) rest v h k = rw (parse_string-escape_json_string s rest) refl
  reads (number []) (suc f) rest v h k = absurd (v.0 refl)
  reads (number (d ∷ ds)) (suc f) rest v h k =
      rw ((digit_kind d v.1.0).0, parse_digits-append (d ∷ ds) rest v.1 k, parse_value) refl
  reads (yes_no true) (suc f) rest v h k = refl
  reads (yes_no false) (suc f) rest v h k = refl
  reads (array xs) (suc f) rest v h k = rw (reads_items xs true f rest v (omega arith)) refl
  reads (object fs) (suc f) rest v h k = rw (reads_fields fs true f rest v (omega arith)) refl

  reads_items :
      (xs : Items) (first : Bool) (f : ℕ) (rest : List ℕ)
      → AreItems xs
      → need_items xs ≤ f
      → parse_items f first (render_items first xs rest) ≡ some (xs, rest)
  reads_items xs first zero rest v h = absurd (omega (arith, need_items-pos xs))
  reads_items no_items first (suc f) rest v h = refl
  reads_items (item x xs) first (suc f) rest v h =
      let more = render_items false xs rest in
      items_step f first (comma first (render x more)) (starts-render first x more v.0)
        (expect_comma-comma first (render x more))
        (reads x f more v.0 (omega (arith, need_items-pos xs)) (items_stop xs rest))
        (reads_items xs false f rest v.1 (omega (arith, need-pos x)))

  reads_fields :
      (fs : Fields) (first : Bool) (f : ℕ) (rest : List ℕ)
      → AreFields fs
      → need_fields fs ≤ f
      → parse_fields f first (render_fields first fs rest) ≡ some (fs, rest)
  reads_fields fs first zero rest v h = absurd (omega (arith, need_fields-pos fs))
  reads_fields no_fields first (suc f) rest v h = refl
  reads_fields (field k x fs) first (suc f) rest v h =
      let more = render_fields false fs rest in
      let member = quoted k (b':' ∷ render x more) in
      fields_step f first (comma first member) k (render x more)
        (starts-quoted first k (b':' ∷ render x more)) (expect_comma-comma first member)
        (reads x f more v.0 (omega (arith, need_fields-pos fs)) (fields_stop fs rest))
        (reads_fields fs false f rest v.1 (omega (arith, need-pos x)))

-- The text of a value is read back as that value.
pub parse-render : (x : Json) → IsJson x → parse (render x []) ≡ some x
unfolding parse
parse-render x v =
    rw (reads x (suc (length (render x []))) [] v (omega (arith, need-le x [] v)) tt, parse) refl
