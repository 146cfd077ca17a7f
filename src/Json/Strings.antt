-- ===== src/Json/Strings.antt =====
-- Strings that have been escaped are read back.
use cpp_gram.Common.{
  ℕ, ◌+◌, ◌*◌, ◌/◌, ◌%◌, ◌<◌, ◌≡◌, refl, ap, ◌∙◌, true, List, [], ◌∷◌, ◌++◌, append_assoc, some,
  ltb, ◌==◌, arith, lt→ltb, ltb→lt, ==_iff, subst, sym, Bool-cases, inl, inr,
}
use cpp_gram.Json.{hex_digit, escape_byte, escape_json_string}
use cpp_gram.Json.Parser.{
  Mode, plain, hex, turn, emit, hex_value, string_turn, cons_string, parse_string,
}

hex_value-hex_digit : (d : ℕ) → d < 16 → hex_value (hex_digit d) ≡ some d
hex_value-hex_digit d h = ground arith

turns :
    (m n : Mode) (c : ℕ) (s : List ℕ)
    → string_turn m c ≡ turn n
    → parse_string m (c ∷ s) ≡ parse_string n s
unfolding parse_string
turns m n c s h = rw (h, parse_string) refl

emits :
    (m : Mode) (c b : ℕ) (s : List ℕ)
    → string_turn m c ≡ emit b
    → parse_string m (c ∷ s) ≡ cons_string b (parse_string plain s)
unfolding parse_string
emits m c b s h = rw (h, parse_string) refl

high_digit : (d : ℕ) → d < 16 → string_turn (hex 1 0) (hex_digit d) ≡ turn (hex 0 d)
unfolding string_turn
high_digit d h = rw (hex_value-hex_digit d h) (ap (λ (k : ℕ). turn (hex 0 k)) (omega arith))

low_digit :
    (a d c : ℕ) → d < 16 → c < 128 → a * 16 + d ≡ c → string_turn (hex 0 a) (hex_digit d) ≡ emit c
unfolding string_turn
low_digit a d c h k e = rw (hex_value-hex_digit d h, e, lt→ltb c 128 k) refl

control :
    (c : ℕ) (rest : List ℕ)
    → c < 32
    → parse_string plain
        (b'\\' ∷ b'u' ∷ b'0' ∷ b'0' ∷ hex_digit (c / 16) ∷ hex_digit (c % 16) ∷ rest)
      ≡ cons_string c (parse_string plain rest)
unfolding parse_string string_turn
control c rest h =
    turns (hex 1 0) (hex 0 (c / 16)) (hex_digit (c / 16)) (hex_digit (c % 16) ∷ rest)
      (high_digit (c / 16) (omega arith))
    ∙ emits (hex 0 (c / 16)) (hex_digit (c % 16)) c rest
        (low_digit (c / 16) (c % 16) c (omega arith) (omega arith) (omega arith))

-- A byte that is escaped in its own way, or not.
module _ (rest : List ℕ) where
  abbrev Back : ℕ → Type 0
  Back c = parse_string plain (escape_byte c ++ rest) ≡ cons_string c (parse_string plain rest)

  at : (c k : ℕ) → (c == k) ≡ true → Back k → Back c
  at c k e b = subst Back (sym ((==_iff c k).0 e)) b

  pub parse_string-escape_byte : (c : ℕ) → Back c
  unfolding escape_byte parse_string string_turn
  parse_string-escape_byte c = elim (Bool-cases (c == b'"')) [
    | inl e ↦ at c b'"' e refl
    | inr n1 ↦ elim (Bool-cases (c == b'\\')) [
      | inl e ↦ at c b'\\' e refl
      | inr n2 ↦ elim (Bool-cases (c == 8)) [
        | inl e ↦ at c 8 e refl
        | inr n3 ↦ elim (Bool-cases (c == 12)) [
          | inl e ↦ at c 12 e refl
          | inr n4 ↦ elim (Bool-cases (c == b'\n')) [
            | inl e ↦ at c b'\n' e refl
            | inr n5 ↦ elim (Bool-cases (c == b'\r')) [
              | inl e ↦ at c b'\r' e refl
              | inr n6 ↦ elim (Bool-cases (c == b'\t')) [
                | inl e ↦ at c b'\t' e refl
                | inr n7 ↦ elim (Bool-cases (ltb c 0x20)) [
                  | inl small ↦
                      rw (n1, n2, n3, n4, n5, n6, n7, small) (control c rest (ltb→lt c 32 small))
                  | inr large ↦
                      rw (n1, n2, n3, n4, n5, n6, n7, large)
                        (emits plain c c rest (rw (n1, n2, large) refl))
                ]
              ]
            ]
          ]
        ]
      ]
    ]
  ]

-- A string that has been escaped is read back, up to the closing quote.
pub parse_string-escape_json_string :
    (s rest : List ℕ) → parse_string plain (escape_json_string s ++ (b'"' ∷ rest)) ≡ some (s, rest)
unfolding escape_json_string
parse_string-escape_json_string [] rest = unfold parse_string string_turn in refl
parse_string-escape_json_string (c ∷ s) rest =
    ap (parse_string plain) (append_assoc (escape_byte c) (escape_json_string s) (b'"' ∷ rest))
    ∙ parse_string-escape_byte (escape_json_string s ++ (b'"' ∷ rest)) c
    ∙ ap (cons_string c) (parse_string-escape_json_string s rest)
