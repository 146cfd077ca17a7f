-- ===== src/Client/Deferral.antt =====
-- Handlers that run later, in the thread pool, do what handlers do that run at once.
use cpp_gram.Common.{
  ℕ, ◌≡◌, ◌≢◌, refl, sym, ap, subst, Bool, true, false, List, [], ◌∷◌, Option, none, some, Outcome,
  arith, ok, throws, resume, ◌==◌,
}
use mathlib.Core.List.{cons≢nil}
use cpp_gram.ThreadPool.{ThreadPool, new_pool}
use cpp_gram.Client.{
  Td, ClientImpl, Update, set_thread_pool_size, worked_off, send, null_object, authorization_state,
  user, new_chat, new_message, message_content, delete_messages, new_callback_query, other_update,
  TdAuthState, AuthState, Escape, authentication_error, lookup_chat_type, check_authentication_code,
  check_authentication_password, Prompt, Request,
}
use cpp_gram.Client.Handlers.{
  run_jobs, Handler, run_handlers, Job, unfiltered_throws, unfiltered_accepts,
}
use cpp_gram.Client.Contained.{Commutes}
use cpp_gram.Client.Dispatch.{
  Step, settle, dispatch_edited_message, dispatch_deleted_messages, enrich, enrich_sender,
}
use cpp_gram.Client.Updates.{process_update, handle_auth_state, ask, answered, run_updates}
use cpp_gram.Client.Follows.{
  IsDirect, IsApart, IsBehind, passes_both, setting, deferred, Follows, message-Follows,
  query-Follows,
}

positive : (n : ℕ) → n ≢ 0 → (n == 0) ≡ false
positive n h = ground arith

module _ {td : Td} {W : Type 0} where
  -- A step that leaves handlers, pool and world alone.
  abbrev unchanged :
      (r : Step td W) (p : ThreadPool (Job W)) (w : W)
      → IsBehind (setting r.1) r.1.world p w
      → Follows r (r.0, deferred w p r.1)
  unchanged r p w b = record { pool = p; world = w; result = refl; behind = b }

  answered-Follows :
      (request : List ℕ → Request) (o : Outcome (Unit {0}) (List ℕ)) (c : ClientImpl td W)
      (p : ThreadPool (Job W)) (w : W)
      → IsBehind (setting c) c.world p w
      → Follows (answered request o c) (answered request o (deferred w p c))
  unfolding answered send
  answered-Follows request (throws e) c p w b = unchanged _ p w b
  answered-Follows request (ok s) c p w b = unchanged _ p w b

  ask-Follows :
      (f : Option (Prompt W)) (o : Outcome Escape (Unit {0})) (request : List ℕ → Request)
      (c : ClientImpl td W) (p : ThreadPool (Job W)) (w : W)
      → ((g : Prompt W) (job : Job W) → f ≡ some g → IsApart (setting c) job → Commutes g job)
      → IsBehind (setting c) c.world p w
      → Follows (ask f o request c) (ask f o request (deferred w p c))
  unfolding ask
  ask-Follows none o request c p w comm b = unchanged _ p w b
  ask-Follows (some f) o request c p w comm b =
      let (same, b1) = passes_both f p w (λ job i. comm f job refl i) b in
      let c1 = record c { world = (f c.world).1 } in
      subst
        (λ a.
          Follows (answered request (f c.world).0 c1) (answered request a (deferred (f w).1 p c)))
        (sym same) (answered-Follows request (f c.world).0 c1 p (f w).1 b1)

  auth-Follows :
      (s : TdAuthState) (c : ClientImpl td W) (p : ThreadPool (Job W)) (w : W)
      → IsBehind (setting c) c.world p w
      → Follows (handle_auth_state s c) (handle_auth_state s (deferred w p c))
  unfolding handle_auth_state send
  auth-Follows TdAuthState.wait_code c p w b =
      let c1 = record c { auth_state = AuthState.wait_code } in
      ask-Follows c.code_callback (ok tt) check_authentication_code c1 p w (λ g job e i. i.code g e)
        b
  auth-Follows TdAuthState.wait_password c p w b =
      let c1 = record c { auth_state = AuthState.wait_password } in
      ask-Follows c.password_callback (throws authentication_error) check_authentication_password c1
        p w (λ g job e i. i.password g e) b
  auth-Follows s c p w b = unchanged _ p w b

  no_handlers-Follows :
      {X : Type 0} (unfiltered : Outcome (Unit {0}) Bool) (hs : List (Handler X W)) (x : X)
      (c : ClientImpl td W) (p : ThreadPool (Job W)) (w : W)
      → hs ≡ []
      → IsBehind (setting c) c.world p w
      → Follows
          (settle c (run_handlers unfiltered hs x c.world))
          (settle (deferred w p c) (run_handlers unfiltered hs x w))
  unfolding run_handlers
  no_handlers-Follows unfiltered [] x c p w e b = unchanged _ p w b
  no_handlers-Follows unfiltered (f ∷ hs) x c p w e b = absurd (cons≢nil e)

  update-Follows :
      (u : Update td) (c : ClientImpl td W) (p : ThreadPool (Job W)) (w : W)
      → IsBehind (setting c) c.world p w
      → Follows (process_update u c) (process_update u (deferred w p c))
  unfolding process_update lookup_chat_type enrich enrich_sender dispatch_edited_message
      dispatch_deleted_messages run_handlers
  update-Follows (authorization_state (some s)) c p w b = auth-Follows s c p w b
  update-Follows (new_message (some m)) c p w b =
      let msg = td.convert_message m (lookup_chat_type (td.message_chat_id m) c) in
      message-Follows (enrich_sender msg c) c p w b
  update-Follows (message_content id chat content) c p w b =
      no_handlers-Follows unfiltered_throws c.on_edited_message_handlers
        (td.edited_message content id chat (lookup_chat_type chat c)) c p w b.direct.no_edited b
  update-Follows (delete_messages chat ids true) c p w b =
      no_handlers-Follows unfiltered_accepts c.on_deleted_messages_handlers (chat, ids) c p w
        b.direct.no_deleted b
  update-Follows (new_callback_query q) c p w b =
      let query = td.convert_callback_query q in
      query-Follows (record query { sender = enrich query.sender c }) c p w b
  update-Follows (user (some u)) c p w b = unchanged _ p w b
  update-Follows (new_chat (some chat)) c p w b = unchanged _ p w b
  update-Follows null_object c p w b = unchanged _ p w b
  update-Follows (authorization_state none) c p w b = unchanged _ p w b
  update-Follows (user none) c p w b = unchanged _ p w b
  update-Follows (new_chat none) c p w b = unchanged _ p w b
  update-Follows (new_message none) c p w b = unchanged _ p w b
  update-Follows (delete_messages chat ids false) c p w b = unchanged _ p w b
  update-Follows other_update c p w b = unchanged _ p w b

  resume-Follows :
      (o : Outcome Escape (Unit {0})) (us : List (Update td)) (c : ClientImpl td W)
      (later : Step td W)
      → ((p : ThreadPool (Job W)) (w : W)
          → IsBehind (setting c) c.world p w
          → Follows (run_updates us c) (run_updates us (deferred w p c)))
      → Follows (o, c) later
      → Follows
          (resume (o, c) (λ done c1. run_updates us c1))
          (resume later (λ done c1. run_updates us c1))
  resume-Follows (ok u) us c later rest f = rw f.result (rest f.pool f.world f.behind)
  resume-Follows (throws e) us c later rest f =
      rw f.result record { pool = f.pool; world = f.world; result = refl; behind = f.behind }

  run_updates-Follows :
      (us : List (Update td)) (c : ClientImpl td W) (p : ThreadPool (Job W)) (w : W)
      → IsBehind (setting c) c.world p w
      → Follows (run_updates us c) (run_updates us (deferred w p c))
  unfolding run_updates
  run_updates-Follows [] c p w b = unchanged _ p w b
  run_updates-Follows (u ∷ us) c p w b =
      resume-Follows (process_update u c).0 us (process_update u c).1
        (process_update u (deferred w p c))
        (λ p1 w1 b1. run_updates-Follows us (process_update u c).1 p1 w1 b1)
        (update-Follows u c p w b)

  set_thread_pool_size-deferred :
      (threads : ℕ) (c : ClientImpl td W)
      → threads ≢ 0
      → c.thread_pool ≡ none
      → set_thread_pool_size threads c ≡ deferred c.world new_pool c
  unfolding set_thread_pool_size worked_off
  set_thread_pool_size-deferred threads c n h =
      rw (positive threads n)
        (ap (λ o. record c { thread_pool = some new_pool; world = worked_off o c.world }) h)

  -- Let a client run its handlers at once, with none for edited or deleted messages; let its filters
  -- throw nothing and its callbacks nothing but a std::exception; and let it make no difference to the
  -- answer of the middlewares, of the callbacks for a code and a password, nor to the world, whether they
  -- are asked before or behind the handlers of an event. If the client is given a thread pool, of at
  -- least one thread, instead,
  -- then the dispatcher makes the same of any updates: it ends in the same way, and leaves the same
  -- state, in every field but those of the pool and the world; and the pool's queue holds what is still
  -- to be done: running its tasks in their order makes of the world what it would have been. No worker
  -- takes a task while the dispatcher is at work.
  pub run_updates-set_thread_pool_size :
      (threads : ℕ) (us : List (Update td)) (c : ClientImpl td W)
      → threads ≢ 0
      → IsDirect (setting c)
      → (p : ThreadPool (Job W)) × ((w : W) × ((run_updates us (set_thread_pool_size threads c) ≡ (
        (run_updates us c).0,
        record (run_updates us c).1 { world = w; thread_pool = some p },
      ))
            × (run_jobs p.tasks w ≡ (run_updates us c).1.world)))
  unfolding new_pool run_jobs
  run_updates-set_thread_pool_size threads us c n d =
      let start : IsBehind (setting c) c.world new_pool c.world = record {
        direct = d;
        running = refl;
        catches_up = refl;
        apart = tt;
      } in
      let f = run_updates-Follows us c new_pool c.world start in
      (
        f.pool,
        (
          f.world,
          (rw (set_thread_pool_size-deferred threads c n d.no_pool) f.result, f.behind.catches_up),
        ),
      )
