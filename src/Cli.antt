-- ===== src/Cli.antt =====
-- include/cppgram/cli.hpp and src/core/cli.cpp: the interactive shell. What a command can change is the
-- flag of the loop and the output; the commands of the constructor are `register_command`'s calls.
pub mod Quoting
mod Tests
use cpp_gram.Common.{
  ℕ, Bool, true, false, not, ◌&&◌, ◌||◌, List, [], ◌∷◌, ◌++◌, Option, none, some, if◌then◌else◌,
  ◌==◌,
}
use cpp_gram.Common.Text.{codes}
use cpp_gram.Common.Maps.{string_key, find, assign, contains}

pub record Shell : Type 0 where
  pub running : Bool
  pub out : List ℕ

-- A handler is given the command's name and its arguments.
pub record CommandInfo : Type 0 where
  pub name : List ℕ
  pub description : List ℕ
  pub usage : List ℕ
  pub handler : List ℕ → List (List ℕ) → Shell → Shell

abbrev pub Commands : Type 0
Commands = List (List ℕ × CommandInfo)

unfoldable pub register_command :
    List ℕ → List ℕ → List ℕ → (List ℕ → List (List ℕ) → Shell → Shell) → Commands → Commands
register_command name description usage handler commands =
    assign name
      (record { name = name; description = description; usage = usage; handler = handler }) commands

unfoldable pub has_command : List ℕ → Commands → Bool
has_command name commands = contains name commands

abbrev pub write : List ℕ → Shell → Shell
write s shell = record shell { out = shell.out ++ s }

-- The handlers of `/clear`, and of `/exit` and `/quit`.
unfoldable pub clear_screen : List ℕ → List (List ℕ) → Shell → Shell
clear_screen cmd args shell = write (27 ∷ codes "[2J" ++ (27 ∷ codes "[1;1H")) shell

unfoldable pub exit_shell : List ℕ → List (List ℕ) → Shell → Shell
exit_shell cmd args shell = record (write (codes "Exiting CppGram CLI. Goodbye!\n") shell) {
  running = false;
}

-- `if (!current.empty()) tokens.push_back(current)`
abbrev pub flush : List ℕ → List (List ℕ) → List (List ℕ)
flush [] tokens = tokens
flush (c ∷ current) tokens = (c ∷ current) ∷ tokens

abbrev pub is_blank : ℕ → Bool
is_blank c = (c == b' ') || (c == b'\t')

-- The loop of parse_args: the tokens that are still to come, from `current` and `in_quotes`.
unfoldable pub tokens_from : List ℕ → Bool → List ℕ → List (List ℕ)
tokens_from current in_quotes [] = flush current []
tokens_from current in_quotes (c ∷ line) =
    let toggled = tokens_from current (not in_quotes) line in
    let next = tokens_from [] in_quotes line in
    let longer = tokens_from (current ++ c ∷ []) in_quotes line in
    if c == b'"'
    then toggled
    else if is_blank c && not in_quotes
    then flush current next
    else longer

unfoldable pub parse_args : List ℕ → List (List ℕ)
unfolding tokens_from
parse_args line = tokens_from [] false line

abbrev unknown : List ℕ → Shell → Shell
unknown cmd shell =
    write (codes "Unknown command '" ++ (cmd ++ codes "'. Type '/help' for a list of commands.\n"))
      shell

-- What execute_line does with the tokens; its answer is the flag.
unfoldable pub execute_tokens : Commands → List (List ℕ) → Shell → Shell
execute_tokens commands [] shell = shell
execute_tokens commands (cmd ∷ args) shell = elim (find cmd commands) [
  | some info ↦ info.handler cmd args shell
  | none ↦ unknown cmd shell
]

unfoldable pub execute_line : Commands → List ℕ → Shell → Shell
unfolding execute_tokens parse_args
execute_line commands line shell = execute_tokens commands (parse_args line) shell

-- The loop of `run` on the lines of the input, up to its end.
unfoldable pub run_lines : Commands → List ℕ → List (List ℕ) → Shell → Shell
unfolding execute_line
run_lines commands prompt [] shell = if shell.running then write prompt shell else shell
run_lines commands prompt (line ∷ input) shell =
    let later = run_lines commands prompt input (execute_line commands line (write prompt shell)) in
    if shell.running then later else shell

abbrev banner_line : List ℕ → List ℕ
banner_line [] = []
banner_line (c ∷ banner) = c ∷ banner ++ codes "\n"

unfoldable pub run : Commands → List ℕ → List ℕ → List (List ℕ) → Shell → Shell
unfolding run_lines
run commands banner prompt input shell =
    run_lines commands prompt input (record (write (banner_line banner) shell) { running = true })
