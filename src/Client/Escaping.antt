-- ===== src/Client/Escaping.antt =====
-- A filter that throws, in the loops over handlers of src/backend/client.cpp: for messages, an empty one
-- does.
use cpp_gram.Common.{
  ◌≡◌, ◌≢◌, refl, ap, ◌∙◌, Bool, true, false, List, [], ◌∷◌, ◌++◌, none, some, Outcome, inl, ok,
  throws, if◌then◌else◌,
}
use cpp_gram.Message.{Message}
use cpp_gram.ThreadPool.{ThreadPool}
use cpp_gram.Client.{Td, ClientImpl, callback_exception}
use cpp_gram.Client.Handlers.{
  CallbackEnding, returns, raises, escapes, Handler, consult, run_handlers, run_job, Job,
  message_job, unfiltered_throws,
}
use cpp_gram.Client.Dispatch.{dispatch_message, run_or_enqueue, passes}
use cpp_gram.Client.Contained.{IsContained}
use cpp_gram.Client.Follows.{later_run}

module _ {X W : Type 0} (unfiltered : Outcome (Unit {0}) Bool) where
  -- The world behind one contained handler, by the verdict of its filter.
  abbrev behind : Bool → Handler X W → X → W → W
  behind accepted h x w =
      let w1 = (consult unfiltered h x w).1 in if accepted then (h.callback x w1).1 else w1

  steps_over :
      (h : Handler X W) (hs : List (Handler X W)) (x : X) (w : W) (accepted : Bool)
      (ending : CallbackEnding)
      → (consult unfiltered h x w).0 ≡ ok accepted
      → (h.callback x (consult unfiltered h x w).1).0 ≡ ending
      → ending ≢ escapes
      → run_handlers unfiltered (h ∷ hs) x w ≡ run_handlers unfiltered hs x (behind accepted h x w)
  unfolding run_handlers
  steps_over h hs x w true returns e f n = rw (e, run_handlers, f) refl
  steps_over h hs x w true raises e f n = rw (e, run_handlers, f) refl
  steps_over h hs x w true escapes e f n = absurd (n refl)
  steps_over h hs x w false ending e f n = rw (e, run_handlers) refl

  throws_at :
      (h : Handler X W) (hs : List (Handler X W)) (x : X) (w : W)
      → (consult unfiltered h x w).0 ≡ throws tt
      → run_handlers unfiltered (h ∷ hs) x w ≡ (escapes, (consult unfiltered h x w).1)
  unfolding run_handlers
  throws_at h hs x w e = rw (e, run_handlers) refl

  run_handlers_escape :
      (front : List (Handler X W)) (h : Handler X W) (back : List (Handler X W)) (x : X) (w : W)
      → IsContained unfiltered front
      → ((v : W) → (consult unfiltered h x v).0 ≡ throws tt)
      → run_handlers unfiltered (front ++ h ∷ back) x w
        ≡ (escapes, (consult unfiltered h x (run_handlers unfiltered front x w).1).1)
  run_handlers_escape [] h back x w contained thrown =
      unfold run_handlers in throws_at h back x w (thrown w)
  run_handlers_escape (f ∷ front) h back x w (f_h, front_h) thrown =
      let (accepted, e) = (f_h x w).0 in
      let n = (f_h x (consult unfiltered f x w).1).1 in
      rw
        (
          steps_over f (front ++ h ∷ back) x w accepted _ e refl n,
          steps_over f front x w accepted _ e refl n,
        )
        (run_handlers_escape front h back x (behind accepted f x w) front_h thrown)

module _ {td : Td} {W : Type 0} where
  escaping_run :
      (job : Job W) (c : ClientImpl td W) (w : W)
      → c.thread_pool ≡ none
      → run_job job c.world ≡ (escapes, w)
      → run_or_enqueue job c ≡ (throws callback_exception, record c { world = w })
  unfolding run_or_enqueue
  escaping_run job c w h k = rw (h, run_or_enqueue, k, ← h) refl

  -- A message passes the middlewares, and among its handlers, behind some that are contained, is one
  -- whose filter throws. Without a thread pool the exception leaves dispatch_message, when the handlers
  -- in front and the filter have run, and no handler behind them. With a pool that is not stopped,
  -- dispatch_message returns with the handlers queued, and it is that task which comes to the same end.
  pub dispatch_message_escapes :
      (front : List (Handler Message W)) (h : Handler Message W) (back : List (Handler Message W))
      (msg : Message) (c : ClientImpl td W)
      → c.on_message_handlers ≡ front ++ h ∷ back
      → (passes (inl msg) c).0 ≡ true
      → IsContained unfiltered_throws front
      → ((w : W) → (consult unfiltered_throws h msg w).0 ≡ throws tt)
      → let w0 = (passes (inl msg) c).1 in
        let w1 = (run_handlers unfiltered_throws front msg w0).1 in
        let w2 = (consult unfiltered_throws h msg w1).1 in
        let job = message_job c.on_message_handlers msg in
        (c.thread_pool ≡ none
          → dispatch_message msg c ≡ (throws callback_exception, record c { world = w2 }))
        × ((p : ThreadPool (Job W))
            → c.thread_pool ≡ some p
            → p.stop ≡ false
            → (dispatch_message msg c ≡ (
              ok tt,
              record c {
                world = w0;
                thread_pool = some (record p { tasks = p.tasks ++ job ∷ [] });
              },
            ))
              × (run_job job w0 ≡ (escapes, w2)))
  unfolding dispatch_message run_job
  dispatch_message_escapes front h back msg c handlers pass contained thrown =
      let w0 = (passes (inl msg) c).1 in
      let job = message_job c.on_message_handlers msg in
      let ends =
        ap (λ hs. run_handlers unfiltered_throws hs msg w0) handlers
        ∙ run_handlers_escape unfiltered_throws front h back msg w0 contained thrown in
      let c1 = record c { world = w0 } in
      (
        λ none_h. rw pass (escaping_run job c1 _ none_h ends),
        λ p some_h open_h. (
          rw pass (
              ap (λ o. run_or_enqueue job (record c1 { thread_pool = o })) some_h
              ∙ later_run job c p w0 open_h),
          ends,
        ),
      )
