-- ===== src/Client/Updates.antt =====
-- process_update and handle_auth_state of src/backend/client.cpp, and the loop of the dispatcher.
use cpp_gram.Common.{
  ℕ, List, [], ◌∷◌, Option, none, some, Outcome, ok, throws, resume, if◌then◌else◌,
}
use cpp_gram.Common.Maps.{number_key, assign}
use cpp_gram.Client.{
  Td, ClientImpl, AuthState, TdAuthState, Update, Request, Escape, Prompt, send, lookup_chat_type,
  no_state, null_object, authorization_state, user, new_chat, new_message, message_content,
  delete_messages, new_callback_query, other_update, wait_tdlib_parameters, wait_encryption_key,
  other_state, set_tdlib_parameters, check_database_encryption_key, check_authentication_code,
  check_authentication_password, authentication_error, callback_exception,
}
use cpp_gram.Client.Dispatch.{
  Step, dispatch_message, dispatch_edited_message, dispatch_deleted_messages,
  dispatch_callback_query, enrich, enrich_sender,
}

module _ {td : Td} {W : Type 0} where
  abbrev with_state : AuthState → ClientImpl td W → ClientImpl td W
  with_state s c = record c { auth_state = s }

  -- The answer of a callback is sent.
  unfoldable pub answered :
      (List ℕ → Request) → Outcome (Unit {0}) (List ℕ) → ClientImpl td W → Step td W
  unfolding send
  answered request (throws e) c = (throws callback_exception, c)
  answered request (ok s) c = (ok tt, send (request s) c)

  -- A callback that is set is called; what happens without one is the second argument.
  unfoldable pub ask :
      Option (Prompt W)
      → Outcome Escape (Unit {0})
      → (List ℕ → Request)
      → ClientImpl td W
      → Step td W
  unfolding answered
  ask none otherwise request c = (otherwise, c)
  ask (some prompt) otherwise request c =
      let (answer, w) = prompt c.world in answered request answer (record c { world = w })

  unfoldable pub handle_auth_state : TdAuthState → ClientImpl td W → Step td W
  unfolding send ask
  handle_auth_state wait_tdlib_parameters c =
      (ok tt, send set_tdlib_parameters (with_state no_state c))
  handle_auth_state TdAuthState.wait_phone_number c =
      (ok tt, with_state AuthState.wait_phone_number c)
  handle_auth_state wait_encryption_key c =
      (ok tt, send (check_database_encryption_key []) (with_state AuthState.wait_password c))
  handle_auth_state TdAuthState.wait_code c =
      ask c.code_callback (ok tt) check_authentication_code (with_state AuthState.wait_code c)
  handle_auth_state TdAuthState.wait_password c =
      ask c.password_callback (throws authentication_error) check_authentication_password
        (with_state AuthState.wait_password c)
  handle_auth_state TdAuthState.wait_registration c =
      (ok tt, with_state AuthState.wait_registration c)
  handle_auth_state TdAuthState.ready c = (ok tt, with_state AuthState.ready c)
  handle_auth_state TdAuthState.logging_out c = (ok tt, with_state AuthState.logging_out c)
  handle_auth_state TdAuthState.closed c = (ok tt, with_state AuthState.closed c)
  handle_auth_state other_state c = (ok tt, c)

  unfoldable pub process_update : Update td → ClientImpl td W → Step td W
  unfolding handle_auth_state dispatch_message dispatch_edited_message dispatch_deleted_messages
      dispatch_callback_query lookup_chat_type enrich enrich_sender
  process_update null_object c = (ok tt, c)
  process_update (authorization_state none) c = (ok tt, c)
  process_update (authorization_state (some s)) c = handle_auth_state s c
  process_update (user none) c = (ok tt, c)
  process_update (user (some u)) c =
      (ok tt, record c { user_cache = assign (td.user_id u) (td.convert_user u) c.user_cache })
  process_update (new_chat none) c = (ok tt, c)
  process_update (new_chat (some chat)) c = (
    ok tt,
    record c {
      chat_cache = assign (td.chat_id chat) (td.convert_chat chat) c.chat_cache;
      chat_type_cache = elim (td.convert_chat_type chat) [
        | none ↦ c.chat_type_cache
        | some t ↦ assign (td.chat_id chat) t c.chat_type_cache
      ];
    },
  )
  process_update (new_message none) c = (ok tt, c)
  process_update (new_message (some m)) c =
      let msg = td.convert_message m (lookup_chat_type (td.message_chat_id m) c) in
      dispatch_message (enrich_sender msg c) c
  process_update (message_content id chat content) c =
      dispatch_edited_message (td.edited_message content id chat (lookup_chat_type chat c)) c
  process_update (delete_messages chat ids is_permanent) c =
      if is_permanent then dispatch_deleted_messages chat ids c else (ok tt, c)
  process_update (new_callback_query q) c =
      let query = td.convert_callback_query q in
      dispatch_callback_query (record query { sender = enrich query.sender c }) c
  process_update other_update c = (ok tt, c)

  -- The dispatcher's loop on the updates of the queue, in their order: an exception ends it.
  unfoldable pub run_updates : List (Update td) → ClientImpl td W → Step td W
  unfolding process_update
  run_updates [] c = (ok tt, c)
  run_updates (u ∷ us) c = resume (process_update u c) (λ done c1. run_updates us c1)
