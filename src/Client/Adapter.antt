-- ===== src/Client/Adapter.antt =====
-- TdLibAdapter of src/backend/tdlib_adapter.hpp: requests to TDLib with one-shot handlers for their
-- answers. `F` is the type of requests, `A` that of the objects that come back, `H` that of handlers.
pub mod Matching
mod Tests
use cpp_gram.Common.{
  ℕ, ◌+◌, ◌%◌, ◌^◌, Bool, true, false, List, [], ◌∷◌, ◌++◌, Option, none, some, if◌then◌else◌, ◌==◌,
}
use cpp_gram.Common.Maps.{number_key, find, assign, erase}

pub record TdLibAdapter (F H : Type 0) : Type 0 where
  pub next_id : ℕ
  pub handlers : List (ℕ × H)
  pub update_handler : Option H
  -- what TDLib has been given, with its id
  pub requests : List (ℕ × F)

module _ {H : Type 0} where
  -- An empty std::function is not registered.
  abbrev pub register : ℕ → Option H → List (ℕ × H) → List (ℕ × H)
  register id none m = m
  register id (some h) m = assign id h m

module _ {F H : Type 0} where
  unfoldable pub send : F → Option H → TdLibAdapter F H → TdLibAdapter F H
  send fn handler a = record a {
    next_id = (a.next_id + 1) % 2 ^ 64;
    handlers = register a.next_id handler a.handlers;
    requests = a.requests ++ (a.next_id, fn) ∷ [];
  }

  -- The constructor, which sends a first request without a handler.
  unfoldable pub new_adapter : F → TdLibAdapter F H
  unfolding send
  new_adapter get_version =
      send get_version none
        (record { next_id = 1; handlers = []; update_handler = none; requests = [] })

  unfoldable pub set_update_handler : H → TdLibAdapter F H → TdLibAdapter F H
  set_update_handler h a = record a { update_handler = some h }

  -- A turn of recv_loop with an object for the request `id`: the handler that is called, if one is.
  unfoldable pub receive : ℕ → TdLibAdapter F H → Option H × TdLibAdapter F H
  receive id a = if id == 0 then (a.update_handler, a) else elim (find id a.handlers) [
    | none ↦ (none, a)
    | some h ↦ (some h, record a { handlers = erase id a.handlers })
  ]

-- What happens to an adapter, in the order of its mutex.
pub data Event (F H A : Type 0) : Type 0 where
  sent : F → Option H → Event F H A
  received : ℕ → A → Event F H A
  handled_by : H → Event F H A

module _ {H A : Type 0} where
  abbrev pub called : Option H → A → List (H × A)
  called none x = []
  called (some h) x = (h, x) ∷ []

module _ {F H A : Type 0} where
  -- The calls of handlers, in order.
  unfoldable pub run_events : List (Event F H A) → TdLibAdapter F H → List (H × A)
  unfolding send receive set_update_handler
  run_events [] a = []
  run_events (sent fn h ∷ es) a = run_events es (send fn h a)
  run_events (received id x ∷ es) a = let (h, a1) = receive id a in called h x ++ run_events es a1
  run_events (handled_by h ∷ es) a = run_events es (set_update_handler h a)
