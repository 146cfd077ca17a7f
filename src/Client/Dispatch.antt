-- ===== src/Client/Dispatch.antt =====
-- The dispatch of events to handlers in src/backend/client.cpp: directly, or through the thread pool.
use cpp_gram.Common.{
  ℕ, Bool, true, List, none, some, ◌⊎◌, inl, inr, Outcome, ok, throws, if◌then◌else◌,
}
use cpp_gram.Common.Maps.{number_key, find}
use cpp_gram.Message.{User, Message, CallbackQuery}
use cpp_gram.Middleware.{execute, new_context}
use cpp_gram.ThreadPool.{ThreadPool, PoolError, enqueue}
use cpp_gram.Client.{Td, ClientImpl, Escape, pool_error, callback_exception}
use cpp_gram.Client.Handlers.{
  CallbackEnding, escapes, run_handlers, unfiltered_throws, unfiltered_accepts, Job, message_job,
  query_job, run_job,
}

abbrev pub Step : Td → Type 0 → Type 0
Step td W = Outcome Escape (Unit {0}) × ClientImpl td W

abbrev pub outcome_of : CallbackEnding → Outcome Escape (Unit {0})
outcome_of escapes = throws callback_exception
outcome_of _ = ok tt

module _ {td : Td} {W : Type 0} where
  -- The client after handlers have run on its thread.
  abbrev pub settle : ClientImpl td W → CallbackEnding × W → Step td W
  settle c (ending, w) = (outcome_of ending, record c { world = w })

  abbrev queued : ClientImpl td W → Outcome PoolError (Unit {0}) × ThreadPool (Job W) → Step td W
  queued c (throws e, p) = (throws pool_error, record c { thread_pool = some p })
  queued c (ok u, p) = (ok tt, record c { thread_pool = some p })

  -- The end of dispatch_message and dispatch_callback_query.
  unfoldable pub run_or_enqueue : Job W → ClientImpl td W → Step td W
  unfolding enqueue run_job
  run_or_enqueue job c = elim c.thread_pool [
    | none ↦ settle c (run_job job c.world)
    | some p ↦ queued c (enqueue job p)
  ]

  -- Whether the middlewares let an event through, and the world after them.
  unfoldable pub passes : Message ⊎ CallbackQuery → ClientImpl td W → Bool × W
  unfolding execute new_context
  passes event c =
      let (passed, ctx, w) = execute c.middlewares (new_context event) c.world in
      if c.has_client then (passed, w) else (true, c.world)

  unfoldable pub dispatch_message : Message → ClientImpl td W → Step td W
  unfolding run_or_enqueue passes
  dispatch_message msg c =
      let (passed, w) = passes (inl msg) c in
      let c1 = record c { world = w } in
      if passed then run_or_enqueue (message_job c.on_message_handlers msg) c1 else (ok tt, c1)

  unfoldable pub dispatch_edited_message : Message → ClientImpl td W → Step td W
  unfolding run_handlers
  dispatch_edited_message msg c =
      settle c (run_handlers unfiltered_throws c.on_edited_message_handlers msg c.world)

  unfoldable pub dispatch_deleted_messages : ℕ → List ℕ → ClientImpl td W → Step td W
  unfolding run_handlers
  dispatch_deleted_messages chat_id ids c =
      settle c
        (run_handlers unfiltered_accepts c.on_deleted_messages_handlers (chat_id, ids) c.world)

  unfoldable pub dispatch_callback_query : CallbackQuery → ClientImpl td W → Step td W
  unfolding run_or_enqueue passes
  dispatch_callback_query q c =
      let (passed, w) = passes (inr q) c in
      let c1 = record c { world = w } in
      if passed then run_or_enqueue (query_job c.on_callback_query_handlers q) c1 else (ok tt, c1)

  -- enrich_sender_by_id, which enrich_sender repeats.
  unfoldable pub enrich : User → ClientImpl td W → User
  enrich u c = elim (find u.id c.user_cache) [ none ↦ u | some known ↦ known ]

  unfoldable pub enrich_sender : Message → ClientImpl td W → Message
  unfolding enrich
  enrich_sender msg c = record msg { sender = enrich msg.sender c }
