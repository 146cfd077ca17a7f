-- ===== src/Cli/Quoting.antt =====
-- Lines whose words are quoted, for src/core/cli.cpp.
use cpp_gram.Common.{
  ℕ, ◌≡◌, ◌≢◌, refl, sym, ap, ◌∙◌, Bool, true, false, ◌&&◌, List, [], ◌∷◌, ◌++◌, append_assoc,
  append-nil, some, All, ◌==◌,
}
use cpp_gram.Common.Maps.{string_key, find}
use cpp_gram.Cli.{
  Shell, CommandInfo, Commands, flush, is_blank, tokens_from, parse_args, execute_line,
  execute_tokens,
}

-- A word that can be quoted: not empty, and without a quote.
abbrev pub IsWord : List ℕ → Type 0
IsWord w = (w ≢ []) × All (λ c. (c == b'"') ≡ false) w

abbrev pub quoted_line : List (List ℕ) → List ℕ
quoted_line [] = []
quoted_line (w ∷ ws) = b'"' ∷ (w ++ (b'"' ∷ b' ' ∷ quoted_line ws))

and_false : (b : Bool) → (b && false) ≡ false
and_false true = refl
and_false false = refl

inside :
    (current w rest : List ℕ)
    → All (λ c. (c == b'"') ≡ false) w
    → tokens_from current true (w ++ rest) ≡ tokens_from (current ++ w) true rest
unfolding tokens_from
inside current [] rest h = ap (λ z. tokens_from z true rest) (sym (append-nil current))
inside current (c ∷ w) rest (h, k) =
    rw (h, and_false (is_blank c))
      (inside (current ++ c ∷ []) w rest k
        ∙ ap (λ z. tokens_from z true rest) (append_assoc current (c ∷ []) w))

flush_lem : (w : List ℕ) (ts : List (List ℕ)) → w ≢ [] → flush w ts ≡ w ∷ ts
flush_lem [] ts h = absurd (h refl)
flush_lem (c ∷ w) ts h = refl

tokens_from-quoted :
    (ws : List (List ℕ)) → All IsWord ws → tokens_from [] false (quoted_line ws) ≡ ws
unfolding tokens_from
tokens_from-quoted [] h = refl
tokens_from-quoted (w ∷ ws) ((filled, plain), h) =
    inside [] w (b'"' ∷ b' ' ∷ quoted_line ws) plain
    ∙ (flush_lem w (tokens_from [] false (quoted_line ws)) filled
        ∙ ap (λ ts. w ∷ ts) (tokens_from-quoted ws h))

-- Words that are quoted and set apart by blanks, whatever blanks they have inside, reach the handler
-- of the first as they are.
pub execute_line-quoted :
    (commands : Commands) (cmd : List ℕ) (args : List (List ℕ)) (info : CommandInfo) (shell : Shell)
    → All IsWord (cmd ∷ args)
    → find cmd commands ≡ some info
    → execute_line commands (quoted_line (cmd ∷ args)) shell ≡ info.handler cmd args shell
unfolding execute_line execute_tokens parse_args
execute_line-quoted commands cmd args info shell words known =
    ap (λ ts. execute_tokens commands ts shell) (tokens_from-quoted (cmd ∷ args) words)
    ∙ rw (execute_tokens, known) refl
