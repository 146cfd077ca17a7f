-- ===== src/ThreadPool/Invariant.antt =====
-- What holds of a pool and its threads in every state that they come to, and the steps of a worker.
use cpp_gram.Common.{
  ℕ, ◌+◌, ◌%◌, ◌^◌, ◌<◌, ◌≡◌, ◌⊎◌, inl, inr, true, false, List, [], ◌∷◌, ◌++◌, append_assoc, Option,
  none, some, length, length-append, arith, List-cases, Bool-cases,
}
use cpp_gram.Common.Positions.{get_elem?, set, total}
use cpp_gram.ThreadPool.{
  ThreadPool, Worker, looking, asleep, running, finishing, counted, exited, System, is_free,
  take_task, work_step,
}
use cpp_gram.ThreadPool.Sums.{runs, ends, sleeps, leaves, awake, Move, move}

module _ {T : Type 0} where
  pub record Inv (n : ℕ) (s : System T) : Type 0 where
    pub size : length s.workers ≡ n
    -- the queue is first in, first out
    pub order : s.started ++ s.pool.tasks ≡ s.accepted
    pub busy : s.pool.active_tasks ≡ total runs s.workers
    pub done :
        (s.pool.completed_tasks + total runs s.workers + total ends s.workers) % 2 ^ 64
        ≡ length s.started % 2 ^ 64
    pub fits : s.pool.completed_tasks < 2 ^ 64
    -- a worker leaves only a stopped pool with an empty queue
    pub gone : (total leaves s.workers ≡ 0) ⊎ ((s.pool.stop ≡ true) × (s.pool.tasks ≡ []))
    -- while there are tasks, a worker is awake or about to be woken
    pub heard : (s.pool.tasks ≡ []) ⊎ (0 < s.signals + total awake s.workers)
    -- once the pool is stopped, nobody sleeps but before the broadcast
    pub told : (s.pool.stop ≡ false) ⊎ ((s.broadcast ≡ true) ⊎ (total sleeps s.workers ≡ 0))

  abbrev pub Keeps : ℕ → Option (System T) → Type 0
  Keeps n none = Unit {0}
  Keeps n (some t) = Inv n t

  pub take_task-cases :
      (p : ThreadPool T)
      → ((p.tasks ≡ []) × (p.stop ≡ true) × (take_task p ≡ (exited, p)))
        ⊎ (((p.tasks ≡ []) × (p.stop ≡ false) × (take_task p ≡ (asleep, p)))
            ⊎ ((t : T) × (rest : List T) × (p.tasks ≡ t ∷ rest)
                × (take_task p ≡ (
                  running t,
                  record p { tasks = rest; active_tasks = (p.active_tasks + 1) % 2 ^ 64 },
                ))))
  unfolding take_task
  take_task-cases p = elim (List-cases p.tasks) [
    | inl empty ↦ elim (Bool-cases p.stop) [
      | inl stopped ↦ inl (empty, stopped, ground arith)
      | inr going ↦ inr (inl (empty, going, ground arith))
    ]
    | inr (t, rest, front) ↦ inr (inr (t, rest, front, ground arith))
  ]

  module _ {n : ℕ} (small : n < 2 ^ 64) (s : System T) (inv : Inv n s) (i : ℕ) where
    took :
        (t : T) (rest : List T)
        → s.pool.tasks ≡ t ∷ rest
        → Move s.workers i looking (running t)
        → Inv n (record s {
          pool = record s.pool { tasks = rest; active_tasks = (s.pool.active_tasks + 1) % 2 ^ 64 };
          workers = set s.workers i (running t);
          started = s.started ++ t ∷ [];
        })
    took t rest front m =
        ground (arith, append_assoc s.started (t ∷ []) rest, length-append s.started (t ∷ []))

    work_looking : get_elem? s.workers i ≡ some looking → Keeps n (work_step i looking s)
    unfolding work_step
    work_looking h = elim (Bool-cases (is_free s.waiter)) [
      | inr held ↦ rw held tt
      | inl free ↦ rw free (elim (take_task-cases s.pool) [
        | inl (empty, stopped, e) ↦ let m = move s.workers i looking exited h in rw e (ground arith)
        | inr (inl (empty, going, e)) ↦
            let m = move s.workers i looking asleep h in rw e (ground arith)
        | inr (inr (t, rest, front, e)) ↦
            let m = move s.workers i looking (running t) h in rw e (took t rest front m)
      ])
    ]

    work_running :
        (t : T) → get_elem? s.workers i ≡ some (running t) → Keeps n (work_step i (running t) s)
    unfolding work_step
    work_running t h = let m = move s.workers i (running t) finishing h in ground arith

    work_finishing : get_elem? s.workers i ≡ some finishing → Keeps n (work_step i finishing s)
    unfolding work_step
    work_finishing h = let m = move s.workers i finishing counted h in ground arith

    work_counted : get_elem? s.workers i ≡ some counted → Keeps n (work_step i counted s)
    unfolding work_step
    work_counted h = let m = move s.workers i counted looking h in ground arith

    pub work_step-Inv : (w : Worker T) → get_elem? s.workers i ≡ some w → Keeps n (work_step i w s)
    unfolding work_step
    work_step-Inv looking h = work_looking h
    work_step-Inv asleep h = tt
    work_step-Inv (running t) h = work_running t h
    work_step-Inv finishing h = work_finishing h
    work_step-Inv counted h = work_counted h
    work_step-Inv exited h = tt
