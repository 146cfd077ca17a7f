-- ===== src/Filters/Command.antt =====
-- Which messages the filter `command` of src/core/filters.cpp lets through.
use cpp_gram.Common.{
  ℕ, ◌≡◌, refl, subst, ap, ◌∙◌, ◌↔◌, Bool, true, false, ◌||◌, List, [], ◌∷◌, ◌++◌, equal_refl,
  equal→≡, All, ◌==◌, ==_iff, if◌then◌else◌, Bool-cases, inl, inr,
}
use cpp_gram.Message.{Message}
use cpp_gram.Filters.{command, calls, word}

-- A byte that ends the name of a command.
abbrev pub is_end : ℕ → Bool
is_end c = (c == b' ') || (c == b'@')

abbrev pub Ends : List ℕ → Type 0
Ends [] = Unit
Ends (c ∷ s) = is_end c ≡ true

abbrev pub IsName : List ℕ → Type 0
IsName cmd = All (λ c. is_end c ≡ false) cmd

-- What follows the name.
unfoldable pub tail_of : List ℕ → List ℕ
tail_of [] = []
tail_of (c ∷ s) = let rest = tail_of s in if is_end c then c ∷ s else rest

word_lem : (s : List ℕ) → (s ≡ word s ++ tail_of s) × (IsName (word s) × Ends (tail_of s))
unfolding word tail_of
word_lem [] = (refl, (tt, tt))
word_lem (c ∷ s) = elim (Bool-cases (is_end c)) [
  | inl e ↦ rw e (refl, (tt, e))
  | inr e ↦ rw e (ap (λ z. c ∷ z) (word_lem s).0, ((e, (word_lem s).1.0), (word_lem s).1.1))
]

word-append : (cmd rest : List ℕ) → IsName cmd → Ends rest → word (cmd ++ rest) ≡ cmd
unfolding word
word-append [] [] h k = refl
word-append [] (c ∷ s) h k = rw k refl
word-append (c ∷ cmd) rest (e, h) k = rw (e, word-append cmd rest h k) refl

abbrev Calls : List ℕ → List ℕ → Type 0
Calls cmd t = (rest : List ℕ) × ((t ≡ b'/' ∷ (cmd ++ rest)) × (IsName cmd × Ends rest))

calls_sound : (cmd t : List ℕ) → calls cmd t ≡ true → Calls cmd t
unfolding calls
calls_sound cmd [] h = absurd (cc)
calls_sound cmd (c ∷ s) h = elim (Bool-cases (c == b'/')) [
  | inr e ↦ absurd (cc (rw e at h))
  | inl e ↦
      let w : word s ≡ cmd = equal→≡ (word s) cmd (rw e at h) in
      (
        tail_of s,
        (
          rw ((==_iff c b'/').0 e, ← w) (ap (λ z. b'/' ∷ z) (word_lem s).0),
          (subst IsName w (word_lem s).1.0, (word_lem s).1.1),
        ),
      )
]

calls_complete :
    (cmd rest : List ℕ) → IsName cmd → Ends rest → calls cmd (b'/' ∷ (cmd ++ rest)) ≡ true
unfolding calls
calls_complete cmd rest h k = rw (word-append cmd rest h k) (equal_refl cmd)

-- A message passes the filter for a command exactly when its text is a slash, the name of the command,
-- and then nothing, or something that begins with a space or an `@`; and the name has neither. In
-- particular no longer name that begins with this one passes, and a name with a space or an `@` in
-- it never matches.
pub command_iff :
    (cmd : List ℕ) (m : Message)
    → (command cmd m ≡ true)
      ↔ ((rest : List ℕ) × ((m.text ≡ b'/' ∷ (cmd ++ rest)) × (IsName cmd × Ends rest)))
unfolding command
command_iff cmd m =
    (calls_sound cmd m.text, λ (rest, (t, (h, k))). ap (calls cmd) t ∙ calls_complete cmd rest h k)
