-- ===== src/Filters/Tests.antt =====
-- Messages that are commands, and some that are not.
use cpp_gram.Common.{ℕ, ◌≡◌, ◌↔◌, refl, true, false, List, [], ◌∷◌, ◌++◌, none}
use cpp_gram.Common.Text.{codes}
use cpp_gram.Message.{Message, private_chat, no_media}
use cpp_gram.Filters.{command, both, either, negated, incoming}
use cpp_gram.Filters.Command.{IsName, Ends, command_iff}

abbrev said : List ℕ → Message
said s = record {
  id = 1;
  chat_id = 7;
  chat_type = private_chat;
  text = s;
  sender = record {
    id = 5;
    first_name = codes "Ann";
    last_name = [];
    username = [];
    is_bot = false;
  };
  outgoing = false;
  media = no_media;
  reply_to = none;
  message_thread_id = none;
  business_connection_id = none;
  has_forward_info = false;
  has_web_app_data = false;
}

to_bot : command (codes "start") (said (codes "/start@my_bot now")) ≡ true
unfolding command
to_bot = refl

longer : command (codes "start") (said (codes "/startle")) ≡ false
unfolding command
longer = refl

combined :
    both incoming (negated (either (command (codes "a")) (command (codes "b")))) (said (codes "/b"))
    ≡ false
unfolding both negated either command incoming
combined = refl

command_iff_example : (command (codes "start") (said (codes "/start@my_bot now")) ≡ true) ↔ (
    (rest : List ℕ) × ((codes "/start@my_bot now" ≡ b'/' ∷ (codes "start" ++ rest))
      × (IsName (codes "start") × Ends rest)))
command_iff_example = command_iff (codes "start") (said (codes "/start@my_bot now"))
