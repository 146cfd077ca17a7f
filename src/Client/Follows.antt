-- ===== src/Client/Follows.antt =====
-- A client that hands its handlers to the pool follows one that runs them: the dispatch of events.
use cpp_gram.Common.{
  ℕ, ◌≡◌, refl, sym, ap, ◌∙◌, subst, Bool, true, false, List, [], ◌∷◌, ◌++◌, Option, none, some,
  ◌⊎◌, inl, inr, ok, All, All-append, if◌then◌else◌,
}
use cpp_gram.Message.{Message, CallbackQuery}
use cpp_gram.Middleware.{MiddlewareFunc, execute, new_context}
use cpp_gram.ThreadPool.{ThreadPool, enqueue}
use cpp_gram.Client.{Td, ClientImpl, Prompt}
use cpp_gram.Client.Handlers.{
  Handler, run_jobs, returns, Job, message_job, query_job, run_job, unfiltered_throws,
  unfiltered_accepts,
}
use cpp_gram.Client.Dispatch.{
  Step, run_or_enqueue, dispatch_message, dispatch_callback_query, passes,
}
use cpp_gram.Client.Contained.{
  IsContained, run_handlers_return, run_jobs-append, Commutes, run_jobs-Commutes,
}

-- What of a client the updates do not change.
pub record Setting (W : Type 0) : Type 0 where
  pub pool : Option (ThreadPool (Job W))
  pub has_client : Bool
  pub middlewares : List (MiddlewareFunc (Unit {0}) (Message ⊎ CallbackQuery) W)
  pub code_callback : Option (Prompt W)
  pub password_callback : Option (Prompt W)
  pub messages : List (Handler Message W)
  pub edited_messages : List (Handler Message W)
  pub deleted_messages : List (Handler (ℕ × List ℕ) W)
  pub queries : List (Handler CallbackQuery W)

module _ {W : Type 0} where
  enqueue_open :
      (job : Job W) (p : ThreadPool (Job W))
      → p.stop ≡ false
      → enqueue job p ≡ (ok tt, record p { tasks = p.tasks ++ job ∷ [] })
  unfolding enqueue
  enqueue_open job p h = rw h refl

  -- The way of an event through the middlewares, as a function of the world.
  abbrev pub screen : Setting W → Message ⊎ CallbackQuery → W → Bool × W
  screen s event w =
      let (passed, ctx, w1) = execute s.middlewares (new_context event) w in
      if s.has_client then (passed, w1) else (true, w)

  -- A task of the pool that may run before or behind a pass of the middlewares, or a question for the
  -- code or the password.
  pub record IsApart (s : Setting W) (job : Job W) : Type 0 where
    pub screening : (event : Message ⊎ CallbackQuery) → Commutes (screen s event) job
    pub code : (f : Prompt W) → s.code_callback ≡ some f → Commutes f job
    pub password : (f : Prompt W) → s.password_callback ≡ some f → Commutes f job

  -- Handlers run at once; none are for edited or deleted messages; the others are contained, and may
  -- run before or behind middlewares and questions.
  pub record IsDirect (s : Setting W) : Type 0 where
    pub no_pool : s.pool ≡ none
    pub no_edited : s.edited_messages ≡ []
    pub no_deleted : s.deleted_messages ≡ []
    pub messages : IsContained unfiltered_throws s.messages
    pub queries : IsContained unfiltered_accepts s.queries
    pub messages_apart : (m : Message) → IsApart s (message_job s.messages m)
    pub queries_apart : (q : CallbackQuery) → IsApart s (query_job s.queries q)

  -- The world `w` is behind `world` by the tasks of the pool.
  pub record IsBehind (s : Setting W) (world : W) (p : ThreadPool (Job W)) (w : W) : Type 0 where
    pub direct : IsDirect s
    pub running : p.stop ≡ false
    pub catches_up : run_jobs p.tasks w ≡ world
    pub apart : All (IsApart s) p.tasks

  tasks-Commutes :
      {A : Type 0} (f : W → A × W) {s : Setting W}
      → ((job : Job W) → IsApart s job → Commutes f job)
      → (jobs : List (Job W)) → All (IsApart s) jobs
      → All (Commutes f) jobs
  tasks-Commutes f comm [] h = tt
  tasks-Commutes f comm (job ∷ jobs) (h, hs) = (comm job h, tasks-Commutes f comm jobs hs)

  -- A pass that may be before or behind the tasks: it answers the same on both worlds, and leaves them as
  -- far apart.
  pub passes_both :
      {A : Type 0} (f : W → A × W) {s : Setting W} {world : W} (p : ThreadPool (Job W)) (w : W)
      → ((job : Job W) → IsApart s job → Commutes f job)
      → IsBehind s world p w
      → ((f w).0 ≡ (f world).0) × IsBehind s (f world).1 p (f w).1
  passes_both f p w comm b =
      let same =
        ap f (sym b.catches_up)
        ∙ run_jobs-Commutes f p.tasks (tasks-Commutes f comm p.tasks b.apart) w in
      (
        sym (ap (λ r. r.0) same),
        record {
          direct = b.direct;
          running = b.running;
          catches_up = sym (ap (λ r. r.1) same);
          apart = b.apart;
        },
      )

module _ {td : Td} {W : Type 0} where
  abbrev pub setting : ClientImpl td W → Setting W
  setting c = record {
    pool = c.thread_pool;
    has_client = c.has_client;
    middlewares = c.middlewares;
    code_callback = c.code_callback;
    password_callback = c.password_callback;
    messages = c.on_message_handlers;
    edited_messages = c.on_edited_message_handlers;
    deleted_messages = c.on_deleted_messages_handlers;
    queries = c.on_callback_query_handlers;
  }

  abbrev pub deferred : W → ThreadPool (Job W) → ClientImpl td W → ClientImpl td W
  deferred w p c = record c { world = w; thread_pool = some p }

  -- The second result is the first, but for what is still to be run.
  pub record Follows (r later : Step td W) : Type 0 where
    pub pool : ThreadPool (Job W)
    pub world : W
    pub result : later ≡ (r.0, deferred world pool r.1)
    pub behind : IsBehind (setting r.1) r.1.world pool world

  direct_run :
      (job : Job W) (c : ClientImpl td W)
      → c.thread_pool ≡ none
      → (run_job job c.world).0 ≡ returns
      → run_or_enqueue job c ≡ (ok tt, record c { world = (run_job job c.world).1 })
  unfolding run_or_enqueue
  direct_run job c h k = rw (h, run_or_enqueue, k, ← h) refl

  pub later_run :
      (job : Job W) (c : ClientImpl td W) (p : ThreadPool (Job W)) (w : W)
      → p.stop ≡ false
      → run_or_enqueue job (deferred w p c)
        ≡ (ok tt, deferred w (record p { tasks = p.tasks ++ job ∷ [] }) c)
  unfolding run_or_enqueue
  later_run job c p w h = rw (enqueue_open job p h) refl

  abbrev gated : Bool → Job W → ClientImpl td W → Step td W
  gated passed job c = if passed then run_or_enqueue job c else (ok tt, c)

  gated-Follows :
      (passed : Bool) (job : Job W) (c : ClientImpl td W) (p : ThreadPool (Job W)) (w : W)
      → ((world : W) → (run_job job world).0 ≡ returns)
      → IsApart (setting c) job
      → IsBehind (setting c) c.world p w
      → Follows (gated passed job c) (gated passed job (deferred w p c))
  gated-Follows false job c p w h a b = record { pool = p; world = w; result = refl; behind = b }
  gated-Follows true job c p w h a b =
      rw (direct_run job c b.direct.no_pool (h c.world), later_run job c p w b.running)
        record {
          pool = record p { tasks = p.tasks ++ job ∷ [] };
          world = w;
          result = refl;
          behind = record {
            direct = b.direct;
            running = b.running;
            catches_up = run_jobs-append p.tasks job w ∙ ap (λ v. (run_job job v).1) b.catches_up;
            apart = All-append (IsApart (setting c)) p.tasks (job ∷ []) b.apart (a, tt);
          };
        }

  -- An event that meets the middlewares, and then its handlers.
  screened-Follows :
      (event : Message ⊎ CallbackQuery) (job : Job W) (c : ClientImpl td W) (p : ThreadPool (Job W))
      (w : W)
      → ((world : W) → (run_job job world).0 ≡ returns)
      → IsApart (setting c) job
      → IsBehind (setting c) c.world p w
      → (let f = screen (setting c) event in
          Follows
            (gated (f c.world).0 job (record c { world = (f c.world).1 }))
            (gated (f w).0 job (deferred (f w).1 p c)))
  screened-Follows event job c p w h a b =
      let f = screen (setting c) event in
      let (same, b1) = passes_both f p w (λ j i. i.screening event) b in
      let c1 = record c { world = (f c.world).1 } in
      subst
        (λ passed. Follows (gated (f c.world).0 job c1) (gated passed job (deferred (f w).1 p c)))
        (sym same) (gated-Follows (f c.world).0 job c1 p (f w).1 h a b1)

  pub message-Follows :
      (msg : Message) (c : ClientImpl td W) (p : ThreadPool (Job W)) (w : W)
      → IsBehind (setting c) c.world p w
      → Follows (dispatch_message msg c) (dispatch_message msg (deferred w p c))
  unfolding dispatch_message passes run_job
  message-Follows msg c p w b =
      screened-Follows (inl msg) (message_job c.on_message_handlers msg) c p w
        (λ v. run_handlers_return unfiltered_throws c.on_message_handlers msg v b.direct.messages)
        (b.direct.messages_apart msg) b

  pub query-Follows :
      (q : CallbackQuery) (c : ClientImpl td W) (p : ThreadPool (Job W)) (w : W)
      → IsBehind (setting c) c.world p w
      → Follows (dispatch_callback_query q c) (dispatch_callback_query q (deferred w p c))
  unfolding dispatch_callback_query passes run_job
  query-Follows q c p w b =
      screened-Follows (inr q) (query_job c.on_callback_query_handlers q) c p w
        (λ v.
          run_handlers_return unfiltered_accepts c.on_callback_query_handlers q v b.direct.queries)
        (b.direct.queries_apart q) b
