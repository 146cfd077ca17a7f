-- ===== src/Client.antt =====
-- ClientImpl of src/backend/client.cpp, as far as the updates of TDLib go: what the dispatcher thread
-- reads and changes. `W` is the world that the user's functions read and change: handlers with their
-- filters, middlewares, and the callbacks for a code and a password. They do not change the client.
pub mod Handlers
pub mod Dispatch
pub mod Updates
pub mod Contained
pub mod Follows
pub mod Deferral
pub mod Escaping
pub mod Adapter
mod Tests
use cpp_gram.Common.{
  ℕ, Bool, List, [], ◌∷◌, ◌++◌, Option, none, some, ◌⊎◌, Outcome, ok, throws, if◌then◌else◌, ◌==◌,
}
use cpp_gram.Common.Maps.{number_key, find, assign}
use cpp_gram.Message.{User, Message, ChatType, CallbackQuery, unknown}
use cpp_gram.Middleware.{MiddlewareFunc}
use cpp_gram.ThreadPool.{ThreadPool, new_pool}
use cpp_gram.Client.Handlers.{CallbackEnding, Handler, Job, run_jobs}

-- AuthState
pub data AuthState : Type 0 where
  no_state wait_phone_number wait_code wait_password wait_registration ready logging_out closed :
      AuthState

-- The objects of TDLib, what the client reads in them itself, and the functions of
-- src/backend/td_conversions.hpp, which read the rest.
pub record Td : Type 1 where
  pub TdUser : Type 0
  pub TdChat : Type 0
  pub TdMessage : Type 0
  pub TdContent : Type 0
  pub TdQuery : Type 0
  pub Chat : Type 0
  pub user_id : TdUser → ℕ
  pub convert_user : TdUser → User
  pub chat_id : TdChat → ℕ
  pub convert_chat : TdChat → Chat
  -- of `chat.type_`, which may be null
  pub convert_chat_type : TdChat → Option ChatType
  pub message_chat_id : TdMessage → ℕ
  pub convert_message : TdMessage → ChatType → Message
  -- the message of updateMessageContent, of its id, chat and chat type
  pub edited_message : Option TdContent → ℕ → ℕ → ChatType → Message
  pub convert_callback_query : TdQuery → CallbackQuery

-- td_api::AuthorizationState
pub data TdAuthState : Type 0 where
  wait_tdlib_parameters wait_phone_number wait_encryption_key wait_code wait_password
        wait_registration ready logging_out closed other_state :
      TdAuthState

-- The updates that are told apart, with the fields that are read. A pointer may be null.
pub data Update (td : Td) : Type 0 where
  null_object : Update td
  authorization_state : Option TdAuthState → Update td
  user : Option td.TdUser → Update td
  new_chat : Option td.TdChat → Update td
  new_message : Option td.TdMessage → Update td
  message_content : ℕ → ℕ → Option td.TdContent → Update td
  delete_messages : ℕ → List ℕ → Bool → Update td
  new_callback_query : td.TdQuery → Update td
  other_update : Update td

-- What is sent to TDLib.
pub data Request : Type 0 where
  set_tdlib_parameters log_out : Request
  check_database_encryption_key check_authentication_code check_authentication_password
        set_authentication_phone_number check_authentication_bot_token :
      List ℕ → Request

-- What leaves `process_update` as an exception.
pub data Escape : Type 0 where
  authentication_error pool_error callback_exception : Escape

-- A callback for a code or a password: it answers or throws, and may change the world.
abbrev pub Prompt : Type 0 → Type 0
Prompt W = W → Outcome (Unit {0}) (List ℕ) × W

pub record ClientImpl (td : Td) (W : Type 0) : Type 0 where
  pub auth_state : AuthState
  pub code_callback : Option (Prompt W)
  pub password_callback : Option (Prompt W)
  pub sent : List Request
  pub user_cache : List (ℕ × User)
  pub chat_cache : List (ℕ × td.Chat)
  pub chat_type_cache : List (ℕ × ChatType)
  -- whether `client_ref_` is set
  pub has_client : Bool
  pub middlewares : List (MiddlewareFunc (Unit {0}) (Message ⊎ CallbackQuery) W)
  pub thread_pool : Option (ThreadPool (Job W))
  pub on_message_handlers : List (Handler Message W)
  pub on_edited_message_handlers : List (Handler Message W)
  pub on_deleted_messages_handlers : List (Handler (ℕ × List ℕ) W)
  pub on_callback_query_handlers : List (Handler CallbackQuery W)
  pub world : W

module _ {W : Type 0} where
  -- What the callbacks in a queue do that is worked off; without a pool there is none.
  unfoldable pub worked_off : Option (ThreadPool (Job W)) → W → W
  unfolding run_jobs
  worked_off none w = w
  worked_off (some p) w = run_jobs p.tasks w

module _ {td : Td} {W : Type 0} where
  -- onMessage, onEditedMessage, onDeletedMessages and onCallbackQuery.
  unfoldable pub on_message : Handler Message W → ClientImpl td W → ClientImpl td W
  on_message h c = record c { on_message_handlers = c.on_message_handlers ++ h ∷ [] }

  unfoldable pub on_edited_message : Handler Message W → ClientImpl td W → ClientImpl td W
  on_edited_message h c = record c {
    on_edited_message_handlers = c.on_edited_message_handlers ++ h ∷ [];
  }

  unfoldable pub on_deleted_messages :
      (ℕ × List ℕ → W → CallbackEnding × W) → ClientImpl td W → ClientImpl td W
  on_deleted_messages cb c = record c {
    on_deleted_messages_handlers =
        c.on_deleted_messages_handlers ++ record { filter = none; callback = cb } ∷ [];
  }

  unfoldable pub on_callback_query : Handler CallbackQuery W → ClientImpl td W → ClientImpl td W
  on_callback_query h c = record c {
    on_callback_query_handlers = c.on_callback_query_handlers ++ h ∷ [];
  }

  unfoldable pub send : Request → ClientImpl td W → ClientImpl td W
  send r c = record c { sent = c.sent ++ r ∷ [] }

  unfoldable pub lookup_chat_type : ℕ → ClientImpl td W → ChatType
  lookup_chat_type id c = elim (find id c.chat_type_cache) [ none ↦ unknown | some t ↦ t ]

  -- setThreadPoolSize. The pool that was there is shut down, which waits for the tasks of its queue; they
  -- are run in their order.
  unfoldable pub set_thread_pool_size : ℕ → ClientImpl td W → ClientImpl td W
  unfolding new_pool worked_off
  set_thread_pool_size threads c = record c {
    thread_pool = if threads == 0 then none else some new_pool;
    world = worked_off c.thread_pool c.world;
  }
