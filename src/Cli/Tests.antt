-- ===== src/Cli/Tests.antt =====
-- A session of two lines.
use cpp_gram.Common.{◌≡◌, refl, true, [], ◌∷◌}
use cpp_gram.Common.Text.{codes}
use cpp_gram.Cli.{Commands, register_command, exit_shell, parse_args, run}

tokens :
    parse_args (codes "/send  \"two words\" x\"y z\"")
    ≡ codes "/send" ∷ codes "two words" ∷ codes "xy z" ∷ []
unfolding parse_args
tokens = refl

abbrev commands : Commands
unfolding register_command
commands = register_command (codes "/exit") (codes "Exit") (codes "/exit") exit_shell []

session :
    (run commands []
      (codes "> ")
      (codes "/nope" ∷ codes "/exit" ∷ codes "/exit" ∷ [])
      (record { running = true; out = [] })).out
    ≡ codes
        "> Unknown command '/nope'. Type '/help' for a list of commands.\n> Exiting CppGram CLI. Goodbye!\n"
unfolding run commands exit_shell
session = refl
