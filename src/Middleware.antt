-- ===== src/Middleware.antt =====
-- include/cppgram/middleware.hpp: the pipeline that an event passes before its handlers. `execute` works
-- on a copy of the list that it takes under the mutex. A middleware is a function of the context and of
-- the world, both of which it may change, and may throw.
pub mod Pipeline
mod Tests
use cpp_gram.Common.{
  Bool, true, false, not, ◌||◌, List, [], ◌∷◌, ◌++◌, ℕ, Option, length, if◌then◌else◌, ◌==◌,
  Outcome, ok, throws,
}
use cpp_gram.Common.Maps.{string_key, find, assign}

-- The context, with what it carries of the event and the client behind one parameter.
pub record MiddlewareContext (E : Type 0) : Type 0 where
  pub event : E
  pub entries : List (List ℕ × List ℕ)
  pub stopped : Bool

module _ {E : Type 0} where
  unfoldable pub new_context : E → MiddlewareContext E
  new_context event = record { event = event; entries = []; stopped = false }

  unfoldable pub set_data : List ℕ → List ℕ → MiddlewareContext E → MiddlewareContext E
  set_data key value ctx = record ctx { entries = assign key value ctx.entries }

  unfoldable pub get_data : List ℕ → MiddlewareContext E → Option (List ℕ)
  get_data key ctx = find key ctx.entries

  unfoldable pub stop_propagation : MiddlewareContext E → MiddlewareContext E
  stop_propagation ctx = record ctx { stopped = true }

-- `mw(ctx)`: an exception or the answer, with the context after it and the world, `W`, that a middleware
-- reads and changes. `X` is the type of exceptions.
abbrev pub MiddlewareFunc : Type 0 → Type 0 → Type 0 → Type 0
MiddlewareFunc X E W = MiddlewareContext E → W → Outcome X Bool × MiddlewareContext E × W

module _ {X E W : Type 0} where
  -- `use`, `clear`, `size` and `empty`, on the vector of the middlewares.
  unfoldable pub add :
      MiddlewareFunc X E W → List (MiddlewareFunc X E W) → List (MiddlewareFunc X E W)
  add mw middlewares = middlewares ++ (mw ∷ [])

  unfoldable clear : List (MiddlewareFunc X E W) → List (MiddlewareFunc X E W)
  clear middlewares = []

  unfoldable pub execute :
      List (MiddlewareFunc X E W) → MiddlewareContext E → W → Bool × MiddlewareContext E × W
  execute [] ctx w = (not ctx.stopped, ctx, w)
  execute (mw ∷ mws) ctx w =
      let (answer, ctx1, w1) = mw ctx w in
      let rest = execute mws ctx1 w1 in
      if ctx.stopped then (false, ctx, w) else elim answer [
        | throws e ↦ (false, stop_propagation ctx1, w1)
        | ok proceed ↦
            if not proceed || ctx1.stopped then (false, stop_propagation ctx1, w1) else rest
      ]
