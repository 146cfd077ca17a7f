-- ===== src/ThreadPool.antt =====
-- include/cppgram/thread_pool.hpp: the workers, the queue and the two condition variables, as steps of
-- threads. A step is what a thread does between two points where others may come in: one hold of
-- `queue_mutex_`, or one access to an atomic counter. Tasks are of any type `T`; a task that is run
-- returns or throws, which is the same to the pool.
pub mod Sums
mod Invariant
pub mod Reach
pub mod Accounts
mod Drain
pub mod Rest
pub mod WaitAll
mod Tests
use cpp_gram.Common.{
  ℕ, zero, suc, ◌+◌, ◌-◌, ◌%◌, ◌^◌, Bool, true, false, List, [], ◌∷◌, ◌++◌, Option, none, some,
  length, map, replicate, if◌then◌else◌, ◌==◌, Outcome, ok, throws,
}
use cpp_gram.Common.Positions.{get_elem?, set}

pub record ThreadPool (T : Type 0) : Type 0 where
  pub tasks : List T
  pub stop : Bool
  pub active_tasks : ℕ
  pub completed_tasks : ℕ

pub data PoolError : Type 0 where
  stopped_pool : PoolError

-- Where a worker stands in its loop.
pub data Worker (T : Type 0) : Type 0 where
  -- before it takes the mutex
  looking : Worker T
  -- in `cv_.wait`
  asleep : Worker T
  -- in `task()`
  running : T → Worker T
  -- before `++completed_tasks_`
  finishing : Worker T
  -- before `completion_cv_.notify_all()`
  counted : Worker T
  exited : Worker T

-- Where the thread stands that calls `wait_all`. In `deciding` it has found that the condition fails,
-- and holds the mutex until it blocks.
pub data Waiter : Type 0 where
  outside entering deciding blocked returned : Waiter

module _ {T : Type 0} where
  unfoldable pub new_pool : ThreadPool T
  new_pool = record { tasks = []; stop = false; active_tasks = 0; completed_tasks = 0 }

  -- `if (threads == 0) threads = 1;`
  unfoldable pub start_workers : ℕ → List (Worker T)
  start_workers threads = replicate (if threads == 0 then 1 else threads) looking

  -- What a worker does with the mutex: the wait's condition, the test for the end, the pop.
  unfoldable pub take_task : ThreadPool T → Worker T × ThreadPool T
  take_task p = elim p.tasks [
    | [] ↦ (if p.stop then exited else asleep, p)
    | t ∷ rest ↦
        (running t, record p { tasks = rest; active_tasks = (p.active_tasks + 1) % 2 ^ 64 })
  ]

  unfoldable pub enqueue : T → ThreadPool T → Outcome PoolError (Unit {0}) × ThreadPool T
  enqueue task p =
      if p.stop
      then (throws stopped_pool, p)
      else (ok tt, record p { tasks = p.tasks ++ task ∷ [] })

  -- The first part of `shutdown`; the answer says whether there is more to do.
  unfoldable pub request_stop : ThreadPool T → Bool × ThreadPool T
  request_stop p = if p.stop then (false, p) else (true, record p { stop = true })

  -- The condition of `wait_all`.
  unfoldable pub is_idle : ThreadPool T → Bool
  is_idle p = elim p.tasks [ [] ↦ p.active_tasks == 0 | t ∷ rest ↦ false ]

-- The threads around a pool. `signals` counts the calls of `cv_.notify_one` that are still to come,
-- and `broadcast` says that `cv_.notify_all` is. What the callers have handed in and what the workers
-- have taken out is recorded, in order.
pub record System (T : Type 0) : Type 0 where
  pub pool : ThreadPool T
  pub workers : List (Worker T)
  pub waiter : Waiter
  pub signals : ℕ
  pub broadcast : Bool
  pub accepted : List T
  pub started : List T

pub data Event (T : Type 0) : Type 0 where
  -- worker `i` takes its next step
  work : ℕ → Event T
  -- a `notify_one`, which picks worker `i` if some worker sleeps
  notify_one : ℕ → Event T
  notify_all : Event T
  -- the steps of the thread in `wait_all`, after the call
  check block : Event T
  -- calls of other threads
  enqueue_call : T → Event T
  shutdown_call wait_call : Event T
  -- wake-ups that nobody has asked for
  spurious : ℕ → Event T
  spurious_waiter : Event T

abbrev pub is_free : Waiter → Bool
is_free deciding = false
is_free _ = true

-- `completion_cv_.notify_all()`: who is not blocked does not hear it.
abbrev pub notified : Waiter → Waiter
notified blocked = entering
notified w = w

module _ {T : Type 0} where
  abbrev pub is_asleep : Worker T → Bool
  is_asleep asleep = true
  is_asleep _ = false

  abbrev pub woken : Worker T → Worker T
  woken asleep = looking
  woken w = w

  abbrev pub any_asleep : List (Worker T) → Bool
  any_asleep [] = false
  any_asleep (w ∷ ws) = if is_asleep w then true else any_asleep ws

  abbrev pub log : List T → Worker T → List T
  log started (running t) = started ++ t ∷ []
  log started _ = started

  -- The next step of worker `i`, which stands at `w`; `none` if it cannot move.
  unfoldable pub work_step : ℕ → Worker T → System T → Option (System T)
  unfolding take_task
  work_step i looking s =
      let (w, p) = take_task s.pool in
      if is_free s.waiter
      then some (record s { pool = p; workers = set s.workers i w; started = log s.started w })
      else none
  work_step i asleep s = none
  work_step i (running t) s = some (record s {
    pool = record s.pool { active_tasks = (s.pool.active_tasks + (2 ^ 64 - 1)) % 2 ^ 64 };
    workers = set s.workers i finishing;
  })
  work_step i finishing s = some (record s {
    pool = record s.pool { completed_tasks = (s.pool.completed_tasks + 1) % 2 ^ 64 };
    workers = set s.workers i counted;
  })
  work_step i counted s =
      some (record s { workers = set s.workers i looking; waiter = notified s.waiter })
  work_step i exited s = none

  unfoldable pub wake : ℕ → System T → Option (System T)
  wake i s = elim (get_elem? s.workers i) [
    | some asleep ↦ some (record s { workers = set s.workers i looking })
    | _ ↦ none
  ]

  -- With so many calls to come.
  unfoldable pub notify_step : ℕ → ℕ → System T → Option (System T)
  unfolding wake
  notify_step zero i s = none
  notify_step (suc n) i s =
      if any_asleep s.workers
      then wake i (record s { signals = n })
      else some (record s { signals = n })

  -- With a call to come, or none.
  unfoldable pub notify_all_step : Bool → System T → Option (System T)
  notify_all_step false s = none
  notify_all_step true s = some (record s { workers = map woken s.workers; broadcast = false })

  unfoldable pub enqueue_step : T → System T → System T
  unfolding enqueue
  enqueue_step t s =
      let (outcome, p) = enqueue t s.pool in
      elim outcome [
        | ok _ ↦ record s { pool = p; signals = s.signals + 1; accepted = s.accepted ++ t ∷ [] }
        | throws e ↦ s
      ]

  unfoldable pub shutdown_step : System T → System T
  unfolding request_stop
  shutdown_step s =
      let (first, p) = request_stop s.pool in
      if first then record s { pool = p; broadcast = true } else s

  unfoldable pub waiter_step : Event T → Waiter → System T → Option (System T)
  unfolding is_idle
  waiter_step wait_call outside s = some (record s { waiter = entering })
  waiter_step wait_call returned s = some (record s { waiter = entering })
  waiter_step check entering s =
      some (record s { waiter = if is_idle s.pool then returned else deciding })
  waiter_step block deciding s = some (record s { waiter = blocked })
  waiter_step spurious_waiter blocked s = some (record s { waiter = entering })
  waiter_step _ _ s = none

  unfoldable pub step : Event T → System T → Option (System T)
  unfolding work_step notify_step notify_all_step enqueue_step shutdown_step waiter_step wake
  step (work i) s = elim (get_elem? s.workers i) [ some w ↦ work_step i w s | none ↦ none ]
  step (notify_one i) s = notify_step s.signals i s
  step notify_all s = notify_all_step s.broadcast s
  step (enqueue_call t) s = if is_free s.waiter then some (enqueue_step t s) else none
  step shutdown_call s = if is_free s.waiter then some (shutdown_step s) else none
  step (spurious i) s = wake i s
  step check s = waiter_step check s.waiter s
  step block s = waiter_step block s.waiter s
  step wait_call s = waiter_step wait_call s.waiter s
  step spurious_waiter s = waiter_step spurious_waiter s.waiter s

  -- A sequence of steps; `none` if one of them is not possible.
  unfoldable pub run : List (Event T) → System T → Option (System T)
  run [] s = some s
  run (e ∷ es) s = elim (step e s) [ some t ↦ run es t | none ↦ none ]

  unfoldable pub start : ℕ → System T
  unfolding new_pool start_workers
  start threads = record {
    pool = new_pool;
    workers = start_workers threads;
    waiter = outside;
    signals = 0;
    broadcast = false;
    accepted = [];
    started = [];
  }
