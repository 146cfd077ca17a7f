-- ===== src/Message.antt =====
-- Chats, users and messages: src/include/cppgram/types.hpp, user.hpp, message.hpp and
-- callback_query.hpp, with the fields that filters and the dispatch of updates read. An int64_t is its
-- 64-bit pattern, a string the list of its bytes.
use cpp_gram.Common.{ℕ, Bool, true, false, not, List, [], ◌∷◌, ◌++◌, Option, ◌==◌}

pub data ChatType : Type 0 where
  private_chat basic_group supergroup channel secret unknown : ChatType

pub data MediaType : Type 0 where
  no_media photo video document audio voice video_note animation sticker poll location contact venue
        dice :
      MediaType

pub record User : Type 0 where
  pub id : ℕ
  pub first_name : List ℕ
  pub last_name : List ℕ
  pub username : List ℕ
  pub is_bot : Bool

unfoldable pub full_name : User → List ℕ
full_name u = elim u.last_name [ [] ↦ u.first_name | c ∷ s ↦ u.first_name ++ b' ' ∷ u.last_name ]

pub record Message : Type 0 where
  pub id : ℕ
  pub chat_id : ℕ
  pub chat_type : ChatType
  pub text : List ℕ
  pub sender : User
  pub outgoing : Bool
  pub media : MediaType
  pub reply_to : Option ℕ
  pub message_thread_id : Option ℕ
  pub business_connection_id : Option (List ℕ)
  -- whether the optional is filled
  pub has_forward_info : Bool
  pub has_web_app_data : Bool

pub record CallbackQuery : Type 0 where
  pub id : ℕ
  pub sender : User
  pub chat_id : ℕ
  pub message_id : ℕ
  pub query_data : List ℕ

unfoldable pub has_media : Message → Bool
has_media m = elim m.media [ no_media ↦ false | _ ↦ true ]

unfoldable pub is_text : Message → Bool
unfolding has_media
is_text m = elim m.text [ [] ↦ false | c ∷ s ↦ not (has_media m) ]

unfoldable pub is_command : Message → Bool
is_command m = elim m.text [ [] ↦ false | c ∷ s ↦ c == b'/' ]
