-- ===== src/Client/Tests.antt =====
-- A bot with a login that has begun, two message handlers and a handler for button presses.
use cpp_gram.Common.{
  arith, ℕ, ◌+◌, ◌⊎◌, ltb, inl, inr, Bool-cases, append_assoc, subst, ap, sym, ◌∙◌, ◌≡◌, refl, true,
  false, List, [], ◌∷◌, ◌++◌, none, some, ok, throws,
}
use cpp_gram.Common.Text.{codes}
use cpp_gram.Message.{Message, User, CallbackQuery, private_chat, no_media}
use cpp_gram.Middleware.{MiddlewareFunc, execute, new_context}
use cpp_gram.ThreadPool.{ThreadPool}
use cpp_gram.Filters.{incoming}
use cpp_gram.Client.{
  Td, ClientImpl, AuthState, TdAuthState, Update, no_state, authorization_state, user, new_message,
  new_callback_query, delete_messages, on_message, on_callback_query, set_thread_pool_size,
  authentication_error, callback_exception, Prompt,
}
use cpp_gram.Client.Handlers.{
  run_jobs, Handler, returns, raises, escapes, run_handlers, Job, run_job, message_job, query_job,
}
use cpp_gram.Client.Updates.{run_updates}
use cpp_gram.Client.Follows.{IsDirect, IsApart, setting, screen}
use cpp_gram.Client.Dispatch.{dispatch_message, passes}
use cpp_gram.Client.Escaping.{dispatch_message_escapes}
use cpp_gram.Client.Deferral.{run_updates-set_thread_pool_size}

abbrev somebody : ℕ → User
somebody n = record { id = n; first_name = []; last_name = []; username = []; is_bot = false }

-- The objects carry what is read of them.
abbrev plain_td : Td
plain_td = record {
  TdUser = ℕ;
  TdChat = ℕ;
  TdMessage = ℕ;
  TdContent = ℕ;
  TdQuery = ℕ;
  Chat = ℕ;
  user_id = λ n. n;
  convert_user = λ n. record (somebody n) { username = codes "known" };
  chat_id = λ n. n;
  convert_chat = λ n. n;
  convert_chat_type = λ n. some private_chat;
  message_chat_id = λ n. 7;
  convert_message = λ n t. record {
    id = n;
    chat_id = 7;
    chat_type = t;
    text = codes "hi";
    sender = somebody 5;
    outgoing = false;
    media = no_media;
    reply_to = none;
    message_thread_id = none;
    business_connection_id = none;
    has_forward_info = false;
    has_web_app_data = false;
  };
  edited_message = λ content n chat t. record {
    id = n;
    chat_id = chat;
    chat_type = t;
    text = [];
    sender = somebody 0;
    outgoing = false;
    media = no_media;
    reply_to = none;
    message_thread_id = none;
    business_connection_id = none;
    has_forward_info = false;
    has_web_app_data = false;
  };
  convert_callback_query = λ n. record {
    id = n;
    sender = somebody 5;
    chat_id = 7;
    message_id = 1;
    query_data = codes "v:1";
  };
}

-- What handlers have noted, and how often the middleware and the callback for the code have been called.
abbrev Diary : Type 0
Diary = List ℕ × ℕ

-- Lets events through while little has been asked.
abbrev limiting : MiddlewareFunc (Unit {0}) (Message ⊎ CallbackQuery) Diary
limiting ctx w = (ok (ltb w.1 4), ctx, (w.0, w.1 + 1))

abbrev coding : Prompt Diary
coding w = (ok (codes "12345"), (w.0, w.1 + 1))

abbrev fresh : ClientImpl plain_td Diary
fresh = record {
  auth_state = no_state;
  code_callback = some coding;
  password_callback = none;
  sent = [];
  user_cache = [];
  chat_cache = [];
  chat_type_cache = [];
  has_client = true;
  middlewares = limiting ∷ [];
  thread_pool = none;
  on_message_handlers = [];
  on_edited_message_handlers = [];
  on_deleted_messages_handlers = [];
  on_callback_query_handlers = [];
  world = ([], 0);
}

-- Notes the message and throws a std::exception.
abbrev failing : Handler Message Diary
failing = record {
  filter = some (λ m w. (ok (incoming m), w));
  callback = λ m w. (raises, (w.0 ++ m.id ∷ [], w.1));
}

-- Notes the first letter of the sender's name.
abbrev naming : Handler Message Diary
naming = record {
  filter = some (λ m w. (ok true, w));
  callback = λ m w. (returns, (w.0 ++ (elim m.sender.username [ [] ↦ 0 | c ∷ s ↦ c ]) ∷ [], w.1));
}

abbrev pressed : Handler CallbackQuery Diary
pressed = record { filter = none; callback = λ q w. (returns, (w.0 ++ q.id ∷ [], w.1)) }

-- A handler whose filter is an empty function.
abbrev unfiltered : Handler Message Diary
unfiltered = record { filter = none; callback = λ m w. (returns, w) }

abbrev sample_bot : ClientImpl plain_td Diary
unfolding on_message on_callback_query
sample_bot = on_callback_query pressed (on_message naming (on_message failing fresh))

abbrev updates : List (Update plain_td)
updates =
    authorization_state (some TdAuthState.wait_code)
    ∷ new_message (some 11)
    ∷ user (some 5)
    ∷ new_callback_query 21
    ∷ authorization_state (some TdAuthState.ready)
    ∷ delete_messages 7 (11 ∷ []) true
    ∷ new_message (some 12)
    ∷ []

-- The handler that throws does not keep the other from the message, and a user that has become known is
-- named.
worked : (run_updates updates sample_bot).1.world ≡ (11 ∷ 0 ∷ 21 ∷ 12 ∷ b'k' ∷ [], 4)
unfolding run_updates sample_bot incoming
worked = refl

logged_in : (run_updates updates sample_bot).1.auth_state ≡ AuthState.ready
unfolding run_updates sample_bot incoming
logged_in = refl

-- A password that nobody can give ends the dispatcher, and the message behind it is never seen.
no_password :
    (run_updates
      (authorization_state (some TdAuthState.wait_password) ∷ new_message (some 11) ∷ [])
      sample_bot).0
    ≡ throws authentication_error
unfolding run_updates sample_bot incoming
no_password = refl

-- An empty filter ends the dispatcher that runs its handlers itself, and not the one with a pool.
empty_filter :
    (run_updates (new_message (some 11) ∷ []) (on_message unfiltered fresh)).0
    ≡ throws callback_exception
unfolding run_updates on_message
empty_filter = refl

empty_filter_with_pool :
    (run_updates
      (new_message (some 11) ∷ [])
      (set_thread_pool_size 4 (on_message unfiltered fresh))).0
    ≡ ok tt
unfolding run_updates on_message set_thread_pool_size
empty_filter_with_pool = refl

-- A task of which the diary only keeps some more notes may run before or behind the questions.
abbrev Notes : Job Diary → Type 0
Notes job = (notes : List ℕ) × ((w : Diary) → (run_job job w).1 ≡ (w.0 ++ notes, w.1))

screen_limiting :
    (event : Message ⊎ CallbackQuery) (w : Diary)
    → screen (setting sample_bot) event w ≡ (ltb w.1 4, (w.0, w.1 + 1))
unfolding sample_bot execute new_context
screen_limiting event w = elim (Bool-cases (ltb w.1 4)) [ inl e ↦ rw e refl | inr e ↦ rw e refl ]

Notes-IsApart : (job : Job Diary) → Notes job → IsApart (setting sample_bot) job
unfolding sample_bot
Notes-IsApart job (notes, keeps) = record {
  screening = λ event w.
      ap (screen (setting sample_bot) event) (keeps w)
      ∙ screen_limiting event (w.0 ++ notes, w.1)
      ∙ sym (
          ap (λ r. (r.0, (run_job job r.1).1)) (screen_limiting event w)
          ∙ ap (λ v. (ltb w.1 4, v)) (keeps (w.0, w.1 + 1)));
  code = λ f e w.
      let g : coding ≡ f = cc in
      subst (λ h. h (run_job job w).1 ≡ ((h w).0, (run_job job (h w).1).1)) g
        (ap coding (keeps w) ∙ sym (ap (λ v. ((coding w).0, v)) (keeps (w.0, w.1 + 1))));
  password = λ f e. absurd (cc e);
}

message-Notes : (m : Message) → Notes (message_job (failing ∷ naming ∷ []) m)
unfolding run_job incoming
message-Notes m =
    let name : ℕ = elim m.sender.username [ [] ↦ 0 | c ∷ s ↦ c ] in
    elim (Bool-cases m.outgoing) [
      | inl e ↦ (name ∷ [], λ w. rw e refl)
      | inr e ↦ (
        m.id ∷ name ∷ [],
        λ w. rw e (ap (λ n. (n, w.1)) (append_assoc w.0 (m.id ∷ []) (name ∷ []))),
      )
    ]

query-Notes : (q : CallbackQuery) → Notes (query_job (pressed ∷ []) q)
unfolding run_job
query-Notes q = (q.id ∷ [], λ w. refl)

sample_bot-IsDirect : IsDirect (setting sample_bot)
unfolding sample_bot
sample_bot-IsDirect = record {
  no_pool = refl;
  no_edited = refl;
  no_deleted = refl;
  messages = ((λ m w. ((incoming m, refl), λ h. cc)), ((λ m w. ((true, refl), λ h. cc)), tt));
  queries = ((λ q w. ((true, refl), λ h. cc)), tt);
  messages_apart = λ m. Notes-IsApart (message_job (failing ∷ naming ∷ []) m) (message-Notes m);
  queries_apart = λ q. Notes-IsApart (query_job (pressed ∷ []) q) (query-Notes q);
}

run_updates-set_thread_pool_size_example :
    (p : ThreadPool (Job Diary)) × ((w : Diary) × ((run_updates updates
            (set_thread_pool_size 4 sample_bot)
          ≡ (
            (run_updates updates sample_bot).0,
            record (run_updates updates sample_bot).1 { world = w; thread_pool = some p },
          ))
        × (run_jobs p.tasks w ≡ (run_updates updates sample_bot).1.world)))
run_updates-set_thread_pool_size_example =
    run_updates-set_thread_pool_size 4 updates sample_bot (omega arith) sample_bot-IsDirect

abbrev one_unfiltered : ClientImpl plain_td Diary
one_unfiltered = record fresh { on_message_handlers = naming ∷ unfiltered ∷ naming ∷ [] }

abbrev hello : Message
hello = plain_td.convert_message 11 private_chat

dispatch_message_escapes_example :
    (one_unfiltered.thread_pool ≡ none
      → dispatch_message hello one_unfiltered
        ≡ (throws callback_exception, record one_unfiltered { world = (0 ∷ [], 1) }))
    × ((p : ThreadPool (Job Diary))
        → one_unfiltered.thread_pool ≡ some p
        → p.stop ≡ false
        → (dispatch_message hello one_unfiltered ≡ (
          ok tt,
          record one_unfiltered {
            world = ([], 1);
            thread_pool = some (record p {
              tasks = p.tasks ++ message_job (naming ∷ unfiltered ∷ naming ∷ []) hello ∷ [];
            });
          },
        ))
          × (run_job (message_job (naming ∷ unfiltered ∷ naming ∷ []) hello) ([], 1)
              ≡ (escapes, (0 ∷ [], 1))))
unfolding passes run_handlers execute
dispatch_message_escapes_example =
    dispatch_message_escapes (naming ∷ []) unfiltered (naming ∷ []) hello one_unfiltered refl refl
      ((λ m w. ((true, refl), λ h. cc)), tt) (λ w. refl)
