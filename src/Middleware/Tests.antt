-- ===== src/Middleware/Tests.antt =====
-- Concrete middlewares, for events that are numbers; the world counts the calls.
use cpp_gram.Common.{
  ℕ, ◌+◌, ◌≡◌, ◌↔◌, refl, true, false, not, List, [], ◌∷◌, ◌++◌, if◌then◌else◌, ok, throws,
}
use cpp_gram.Middleware.{
  MiddlewareContext, new_context, MiddlewareFunc, execute, set_data, stop_propagation,
}
use cpp_gram.Middleware.Pipeline.{AllProceed, execute-append}

abbrev tagging : MiddlewareFunc ℕ ℕ ℕ
tagging ctx w = (ok true, set_data (116 ∷ []) (49 ∷ []) ctx, w + 1)

abbrev refusing : MiddlewareFunc ℕ ℕ ℕ
refusing ctx w = (ok false, ctx, w + 1)

abbrev throwing : MiddlewareFunc ℕ ℕ ℕ
throwing ctx w = (throws 1, ctx, w + 1)

abbrev start : MiddlewareContext ℕ
start = new_context 5

abbrev front : List (MiddlewareFunc ℕ ℕ ℕ)
front = tagging ∷ tagging ∷ []

abbrev back : List (MiddlewareFunc ℕ ℕ ℕ)
back = throwing ∷ []

execute-append_example :
    ((execute front start 0).0 ≡ true ↔ AllProceed front start 0)
    × (((execute front start 0).1.stopped ≡ not (execute front start 0).0)
        × ((execute (front ++ back) start 0 ≡ (
              if (execute front start 0).0
              then execute back (execute front start 0).1 (execute front start 0).2
              else (false, (execute front start 0).1, (execute front start 0).2)))
            × ((execute front start 0).0 ≡ true
                → ((refusing (execute front start 0).1 (execute front start 0).2).0 ≡ ok true
                    → (refusing (execute front start 0).1 (execute front start 0).2).1.stopped
                      ≡ true)
                → execute (front ++ refusing ∷ back) start 0 ≡ (
                  false,
                  stop_propagation (execute front start 0).1,
                  (execute front start 0).2 + 1,
                ))))
execute-append_example = execute-append front refusing back start 0

-- A middleware that throws stops the event, and the one behind it does not run.
throwing_stops : (execute (tagging ∷ throwing ∷ tagging ∷ []) start 0).0 ≡ false
unfolding execute new_context set_data
throwing_stops = refl

throwing_is_last : (execute (tagging ∷ throwing ∷ tagging ∷ []) start 0).2 ≡ 2
unfolding execute new_context set_data
throwing_is_last = refl
