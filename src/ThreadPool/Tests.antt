-- ===== src/ThreadPool/Tests.antt =====
-- Runs of a pool of two workers.
use cpp_gram.Common.{
  ℕ, ◌+◌, ◌%◌, ◌^◌, ◌≤◌, ◌≡◌, ◌⊎◌, ◌↔◌, refl, List, [], ◌∷◌, ◌++◌, some, length, true, false, arith,
  throws,
}
use cpp_gram.Common.Positions.{total}
use cpp_gram.ThreadPool.{
  System, Event, work, notify_one, check, enqueue_call, wait_call, shutdown_call, notify_all, start,
  run, step, running, asleep, exited, entering, returned, blocked, is_idle, enqueue, stopped_pool,
  request_stop, new_pool,
}
use cpp_gram.ThreadPool.Sums.{runs, ends}
use cpp_gram.ThreadPool.Reach.{Reach, at_start}
use cpp_gram.ThreadPool.Accounts.{reachable_accounts}
use cpp_gram.ThreadPool.Drain.{cost}
use cpp_gram.ThreadPool.Rest.{run-Reach, CanMove, AtRest, drains}
use cpp_gram.ThreadPool.WaitAll.{lost_steps, lost_wakeup}

-- Worker 0 runs the task 7, worker 1 has found nothing, and somebody waits.
abbrev last_task : System ℕ
last_task = record {
  pool = record { tasks = []; stop = false; active_tasks = 1; completed_tasks = 0 };
  workers = running 7 ∷ asleep ∷ [];
  waiter = entering;
  signals = 0;
  broadcast = false;
  accepted = 7 ∷ [];
  started = 7 ∷ [];
}

abbrev to_last_task : List (Event ℕ)
to_last_task = enqueue_call 7 ∷ notify_one 0 ∷ work 0 ∷ work 1 ∷ wait_call ∷ []

last_task_run : run to_last_task (start 2) ≡ some last_task
unfolding run step start
last_task_run = refl

last_task-Reach : Reach 2 last_task
last_task-Reach = run-Reach to_last_task (start 2) last_task at_start last_task_run

reachable_accounts_example :
    (last_task.started ++ last_task.pool.tasks ≡ last_task.accepted)
    × (last_task.pool.active_tasks ≡ total runs last_task.workers)
    × (last_task.pool.active_tasks ≤ 2)
    × ((last_task.pool.completed_tasks
            + total runs last_task.workers
            + total ends last_task.workers)
          % 2 ^ 64
        ≡ length last_task.started % 2 ^ 64)
    × ((is_idle last_task.pool ≡ true)
        ↔ ((last_task.started ≡ last_task.accepted) × (total runs last_task.workers ≡ 0)))
reachable_accounts_example = reachable_accounts last_task (omega arith) last_task-Reach

-- The task ends, the worker counts it, tells the waiting thread, and falls asleep; `wait_all` returns.
abbrev rest_steps : List (Event ℕ)
rest_steps = work 0 ∷ work 0 ∷ work 0 ∷ check ∷ work 0 ∷ []

abbrev rested : System ℕ
rested = record last_task {
  pool = record last_task.pool { active_tasks = 0; completed_tasks = 1 };
  workers = asleep ∷ asleep ∷ [];
  waiter = returned;
}

drains_example :
    (5 ≤ cost last_task)
    × (rested.accepted ≡ last_task.accepted)
    × (CanMove rested ⊎ AtRest 2 rested)
unfolding run step
drains_example =
    drains last_task rested rest_steps (omega arith) last_task-Reach
      (refl, (refl, (refl, (refl, (refl, tt))))) refl

lost_wakeup_example :
    (u : System ℕ) × (run (lost_steps 0) last_task ≡ some u)
    × (u.waiter ≡ blocked)
    × (is_idle u.pool ≡ true)
    × ¬ CanMove u
lost_wakeup_example = lost_wakeup last_task 0 7 (omega arith) last_task-Reach (record {
  empty = refl;
  going = refl;
  here = refl;
  alone = refl;
  silent = refl;
  quiet = refl;
  called = refl;
})

-- A stopped pool takes no task, and its workers leave once they are woken.
enqueue_stopped : (enqueue {T = ℕ} 7 (request_stop new_pool).1).0 ≡ throws stopped_pool
unfolding enqueue request_stop new_pool
enqueue_stopped = refl

all_leave :
    run (work 0 ∷ shutdown_call ∷ notify_all ∷ work 0 ∷ []) (start {T = ℕ} 0)
    ≡ some (record (start 0) {
      pool = record { tasks = []; stop = true; active_tasks = 0; completed_tasks = 0 };
      workers = exited ∷ [];
    })
unfolding run step start
all_leave = refl
