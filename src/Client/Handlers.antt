-- ===== src/Client/Handlers.antt =====
-- Handlers of include/cppgram/handlers.hpp, and the loops over them in src/backend/client.cpp.
use cpp_gram.Common.{
  Bool, true, List, [], ◌∷◌, Option, none, some, if◌then◌else◌, Outcome, ok, throws,
}
use cpp_gram.Message.{Message, CallbackQuery}

-- How a callback ends: it returns, or throws a std::exception, or something else.
pub data CallbackEnding : Type 0 where
  returns raises escapes : CallbackEnding

-- The filter is absent where the struct has none, or has an empty function. A filter is called outside
-- of the `try`: it accepts or declines, or throws; and like a callback it may change the world, `W`.
pub record Handler (X W : Type 0) : Type 0 where
  pub filter : Option (X → W → Outcome (Unit {0}) Bool × W)
  pub callback : X → W → CallbackEnding × W

-- `h.filter(msg)` on an empty function throws std::bad_function_call.
abbrev pub unfiltered_throws : Outcome (Unit {0}) Bool
unfiltered_throws = throws tt

-- `!h.filter || h.filter(q)`, and a loop that looks at no filter.
abbrev pub unfiltered_accepts : Outcome (Unit {0}) Bool
unfiltered_accepts = ok true

module _ {X W : Type 0} where
  -- The verdict of a handler's filter; the first argument is the one without a filter.
  abbrev pub consult : Outcome (Unit {0}) Bool → Handler X W → X → W → Outcome (Unit {0}) Bool × W
  consult unfiltered h x w = elim h.filter [ none ↦ (unfiltered, w) | some f ↦ f x w ]

  -- The loop over a copy of the handlers. A std::exception of a callback is caught; anything else that a
  -- callback throws leaves the loop, and so does whatever a filter throws.
  unfoldable pub run_handlers :
      Outcome (Unit {0}) Bool → List (Handler X W) → X → W → CallbackEnding × W
  run_handlers unfiltered [] x w = (returns, w)
  run_handlers unfiltered (h ∷ hs) x w =
      let (verdict, w1) = consult unfiltered h x w in
      let (ending, w2) = h.callback x w1 in
      let skipped = run_handlers unfiltered hs x w1 in
      let next = run_handlers unfiltered hs x w2 in
      elim verdict [
        | throws e ↦ (escapes, w1)
        | ok accepted ↦
            if accepted
            then elim ending [ returns ↦ next | raises ↦ next | escapes ↦ (escapes, w2) ]
            else skipped
      ]

-- What is handed to the thread pool: the copied handlers with the message or the query.
pub data Job (W : Type 0) : Type 0 where
  message_job : List (Handler Message W) → Message → Job W
  query_job : List (Handler CallbackQuery W) → CallbackQuery → Job W

module _ {W : Type 0} where
  unfoldable pub run_job : Job W → W → CallbackEnding × W
  unfolding run_handlers
  run_job (message_job hs m) w = run_handlers unfiltered_throws hs m w
  run_job (query_job hs q) w = run_handlers unfiltered_accepts hs q w

  -- The tasks of a queue, one behind the other. A worker forgets how each of them ends.
  unfoldable pub run_jobs : List (Job W) → W → W
  unfolding run_job
  run_jobs [] w = w
  run_jobs (job ∷ jobs) w = run_jobs jobs (run_job job w).1
