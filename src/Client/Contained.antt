-- ===== src/Client/Contained.antt =====
-- Loops over handlers that no foreign exception leaves, and the tasks of a queue one by one.
use cpp_gram.Common.{
  ◌≡◌, ◌≢◌, refl, ap, ◌∙◌, Bool, true, false, List, [], ◌∷◌, ◌++◌, All, Outcome, ok, if◌then◌else◌,
}
use cpp_gram.Client.Handlers.{
  CallbackEnding, returns, raises, escapes, Handler, consult, run_handlers, Job, run_job, run_jobs,
}

module _ {W : Type 0} where
  go_on :
      (e : CallbackEnding) (w : W) (next : CallbackEnding × W)
      → e ≢ escapes
      → next.0 ≡ returns
      → (let r : CallbackEnding × W = elim e [
        | returns ↦ next
        | raises ↦ next
        | escapes ↦ (escapes, w)
      ] in
          r.0 ≡ returns)
  go_on returns w next h k = k
  go_on raises w next h k = k
  go_on escapes w next h k = absurd (h refl)

  either :
      (accepted : Bool) (e : CallbackEnding) (w : W) (next skipped : CallbackEnding × W)
      → e ≢ escapes
      → next.0 ≡ returns
      → skipped.0 ≡ returns
      → (let r : CallbackEnding × W =
            if accepted
            then elim e [ returns ↦ next | raises ↦ next | escapes ↦ (escapes, w) ]
            else skipped in
          r.0 ≡ returns)
  either true e w next skipped h k l = go_on e w next h k
  either false e w next skipped h k l = l

module _ {X W : Type 0} (unfiltered : Outcome (Unit {0}) Bool) where
  -- No filter throws, and no callback lets anything out that is not a std::exception.
  abbrev pub IsContained : List (Handler X W) → Type 0
  IsContained hs =
      All
        (λ h.
          (x : X) (w : W)
          → ((accepted : Bool) × ((consult unfiltered h x w).0 ≡ ok accepted))
            × ((h.callback x w).0 ≢ escapes))
        hs

  pub run_handlers_return :
      (hs : List (Handler X W)) (x : X) (w : W)
      → IsContained hs
      → (run_handlers unfiltered hs x w).0 ≡ returns
  unfolding run_handlers
  run_handlers_return [] x w h = refl
  run_handlers_return (f ∷ hs) x w (h, hs_h) =
      let w1 = (consult unfiltered f x w).1 in
      let w2 = (f.callback x w1).1 in
      let (accepted, e) = (h x w).0 in
      rw (e, run_handlers)
        (either accepted (f.callback x w1).0 w2 (run_handlers unfiltered hs x w2)
          (run_handlers unfiltered hs x w1) (h x w1).1 (run_handlers_return hs x w2 hs_h)
          (run_handlers_return hs x w1 hs_h))

module _ {W : Type 0} where
  pub run_jobs-append :
      (jobs : List (Job W)) (job : Job W) (w : W)
      → run_jobs (jobs ++ job ∷ []) w ≡ (run_job job (run_jobs jobs w)).1
  unfolding run_jobs
  run_jobs-append [] job w = refl
  run_jobs-append (j ∷ jobs) job w = run_jobs-append jobs job (run_job j w).1

  -- What changes the world and answers, whether it does so before or behind a task.
  abbrev pub Commutes : {A : Type 0} → (W → A × W) → Job W → Type 0
  Commutes f job = (w : W) → f (run_job job w).1 ≡ ((f w).0, (run_job job (f w).1).1)

  pub run_jobs-Commutes :
      {A : Type 0} (f : W → A × W) (jobs : List (Job W))
      → All (Commutes f) jobs
      → (w : W) → f (run_jobs jobs w) ≡ ((f w).0, run_jobs jobs (f w).1)
  unfolding run_jobs
  run_jobs-Commutes f [] h w = refl
  run_jobs-Commutes f (job ∷ jobs) (h, hs) w =
      run_jobs-Commutes f jobs hs (run_job job w).1 ∙ ap (λ r. (r.0, run_jobs jobs r.1)) (h w)
