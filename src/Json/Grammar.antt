-- ===== src/Json/Grammar.antt =====
-- Which values have a text, and how the fuel of the reader compares with its length.
use cpp_gram.Common.{
  ℕ, suc, ◌+◌, ◌≤◌, ◌≡◌, ◌≢◌, refl, Bool, true, false, List, [], ◌∷◌, length, length-append, All,
  arith,
}
use cpp_gram.Json.{escape_json_string}
use cpp_gram.Json.Value.{
  Json, Items, Fields, text, number, yes_no, array, object, no_items, item, no_fields, field,
  render, render_items, render_fields, quoted, comma,
}
use cpp_gram.Json.Parser.{is_digit}

-- Numbers are written by digits, at least one.
abbrev mutual
  pub IsJson : Json → Type 0
  IsJson (text s) = Unit
  IsJson (number ds) = (ds ≢ []) × All (λ d. is_digit d ≡ true) ds
  IsJson (yes_no b) = Unit
  IsJson (array xs) = AreItems xs
  IsJson (object fs) = AreFields fs

  pub AreItems : Items → Type 0
  AreItems no_items = Unit
  AreItems (item x xs) = IsJson x × AreItems xs

  pub AreFields : Fields → Type 0
  AreFields no_fields = Unit
  AreFields (field k x fs) = IsJson x × AreFields fs

-- How much fuel a value takes.
abbrev mutual
  pub need : Json → ℕ
  need (array xs) = suc (need_items xs)
  need (object fs) = suc (need_fields fs)
  need _ = 1

  pub need_items : Items → ℕ
  need_items no_items = 1
  need_items (item x xs) = need x + need_items xs

  pub need_fields : Fields → ℕ
  need_fields no_fields = 1
  need_fields (field k x fs) = need x + need_fields fs

pub need_items-pos : (xs : Items) → 1 ≤ need_items xs
need_items-pos no_items = omega arith
need_items-pos (item x xs) = omega (arith, need_items-pos xs)

pub need_fields-pos : (fs : Fields) → 1 ≤ need_fields fs
need_fields-pos no_fields = omega arith
need_fields-pos (field k x fs) = omega (arith, need_fields-pos fs)

pub need-pos : (x : Json) → 1 ≤ need x
need-pos (text s) = omega arith
need-pos (number ds) = omega arith
need-pos (yes_no b) = omega arith
need-pos (array xs) = omega arith
need-pos (object fs) = omega arith

length-quoted : (s rest : List ℕ) → 2 + length rest ≤ length (quoted s rest)
length-quoted s rest = omega (arith, length-append (escape_json_string s) (b'"' ∷ rest))

length-comma : (first : Bool) (s : List ℕ) → length s ≤ length (comma first s)
length-comma true s = omega arith
length-comma false s = omega arith

-- The fuel that a value needs is no more than the length of its text.
mutual
  unfolding render

  pub need-le :
      (x : Json) (rest : List ℕ) → IsJson x → need x + length rest ≤ length (render x rest)
  need-le (text s) rest v = omega (arith, length-quoted s rest)
  need-le (number []) rest v = absurd (v.0 refl)
  need-le (number (d ∷ ds)) rest v = omega (arith, length-append ds rest)
  need-le (yes_no true) rest v = omega arith
  need-le (yes_no false) rest v = omega arith
  need-le (array xs) rest v = omega (arith, need_items-le true xs rest v)
  need-le (object fs) rest v = omega (arith, need_fields-le true fs rest v)

  pub need_items-le :
      (first : Bool) (xs : Items) (rest : List ℕ)
      → AreItems xs
      → need_items xs + length rest ≤ length (render_items first xs rest)
  need_items-le first no_items rest v = omega arith
  need_items-le first (item x xs) rest v =
      let more = render_items false xs rest in
      omega (
        arith,
        length-comma first (render x more),
        need-le x more v.0,
        need_items-le false xs rest v.1,
      )

  pub need_fields-le :
      (first : Bool) (fs : Fields) (rest : List ℕ)
      → AreFields fs
      → need_fields fs + length rest ≤ length (render_fields first fs rest)
  need_fields-le first no_fields rest v = omega arith
  need_fields-le first (field k x fs) rest v =
      let more = render_fields false fs rest in
      omega (
        arith,
        length-comma first (quoted k (b':' ∷ render x more)),
        length-quoted k (b':' ∷ render x more),
        need-le x more v.0,
        need_fields-le false fs rest v.1,
      )
