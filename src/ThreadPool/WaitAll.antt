-- ===== src/ThreadPool/WaitAll.antt =====
-- A wake-up of `wait_all` that is lost: a worker lowers `active_tasks_` and notifies without the mutex,
-- between the test of the condition and the block.
use cpp_gram.Common.{
  ℕ, ◌+◌, ◌-◌, ◌%◌, ◌^◌, ◌≤◌, ◌<◌, ◌≡◌, refl, ap, ◌∙◌, true, false, List, [], ◌∷◌, Option, none,
  some, arith, Option-cases, inl, inr,
}
use cpp_gram.Common.Maps.{is_some}
use cpp_gram.Common.Positions.{
  get_elem?, set, get_elem?-set_self, set-set, total, total-set, weight-le-total,
}
use cpp_gram.ThreadPool.{
  ThreadPool, Worker, looking, asleep, running, finishing, counted, exited, System, entering,
  deciding, blocked, Event, work, notify_one, notify_all, check, block, enqueue_call, shutdown_call,
  wait_call, spurious, spurious_waiter, step, run, take_task, is_idle, work_step, notify_step,
  notify_all_step, waiter_step,
}
use cpp_gram.ThreadPool.Sums.{runs, awake}
use cpp_gram.ThreadPool.Reach.{Reach, Reach-Inv}
use cpp_gram.ThreadPool.Rest.{CanMove}

module _ {T : Type 0} where
  runs-le-awake : (ws : List (Worker T)) → total runs ws ≤ total awake ws
  runs-le-awake [] = omega arith
  runs-le-awake (w ∷ ws) = ground (arith, runs-le-awake ws)

  -- One worker runs the last task, the others sleep, and `wait_all` has been called.
  pub record IsLast (s : System T) (i : ℕ) (t : T) : Type 0 where
    pub empty : s.pool.tasks ≡ []
    pub going : s.pool.stop ≡ false
    pub here : get_elem? s.workers i ≡ some (running t)
    pub alone : total awake s.workers ≡ 1
    pub silent : s.signals ≡ 0
    pub quiet : s.broadcast ≡ false
    pub called : s.waiter ≡ entering

  -- Nobody is awake, and nobody is to be woken.
  record IsStill (u : System T) : Type 0 where
    none_awake : total awake u.workers ≡ 0
    silent : u.signals ≡ 0
    quiet : u.broadcast ≡ false
    waits : u.waiter ≡ blocked

  asleep_stays : (i : ℕ) (w : Worker T) (u : System T) → awake w ≡ 0 → work_step i w u ≡ none
  unfolding work_step
  asleep_stays i asleep u h = refl
  asleep_stays i exited u h = refl
  asleep_stays i looking u h = absurd (omega arith)
  asleep_stays i (running t) u h = absurd (omega arith)
  asleep_stays i finishing u h = absurd (omega arith)
  asleep_stays i counted u h = absurd (omega arith)

  work_stays : (u : System T) (i : ℕ) → IsStill u → is_some (step (work i) u) ≡ false
  unfolding step
  work_stays u i still = elim (Option-cases (get_elem? u.workers i)) [
    | inl e ↦ rw (e, step) refl
    | inr (w, e) ↦
        rw (e, step)
          (ap is_some (
            asleep_stays i w u
              (omega (arith, weight-le-total awake u.workers i w e, still.none_awake))))
  ]

  still-stuck : (u : System T) → IsStill u → ¬ CanMove u
  unfolding step notify_step notify_all_step waiter_step
  still-stuck u still (work i, h, m) = cc (work_stays u i still, m)
  still-stuck u still (notify_one i, h, m) = absurd (cc (rw still.silent at m))
  still-stuck u still (notify_all, h, m) = absurd (cc (rw still.quiet at m))
  still-stuck u still (check, h, m) = absurd (cc (rw still.waits at m))
  still-stuck u still (block, h, m) = absurd (cc (rw still.waits at m))
  still-stuck u still (enqueue_call t, h, m) = absurd (cc)
  still-stuck u still (shutdown_call, h, m) = absurd (cc)
  still-stuck u still (wait_call, h, m) = absurd (cc)
  still-stuck u still (spurious i, h, m) = absurd (cc)
  still-stuck u still (spurious_waiter, h, m) = absurd (cc)

  steps_run :
      (e : Event T) (es : List (Event T)) (s u : System T) {t : System T}
      → step e s ≡ some u
      → run es u ≡ some t
      → run (e ∷ es) s ≡ some t
  unfolding run
  steps_run e es s u h k = rw (h, run) k

  work_steps :
      (i : ℕ) (w : Worker T) (s : System T) {o : Option (System T)}
      → get_elem? s.workers i ≡ some w
      → work_step i w s ≡ o
      → step (work i) s ≡ o
  unfolding step
  work_steps i w s h k = rw (h, step) k

  -- The thread in `wait_all` finds the task still running; the task ends, the worker counts it and
  -- notifies; the thread blocks; the worker falls asleep.
  abbrev pub lost_steps : ℕ → List (Event T)
  lost_steps i = check ∷ work i ∷ work i ∷ work i ∷ block ∷ work i ∷ []

  abbrev lost : System T → ℕ → System T
  lost s i = record s {
    pool = record s.pool {
      active_tasks = (s.pool.active_tasks + (2 ^ 64 - 1)) % 2 ^ 64;
      completed_tasks = (s.pool.completed_tasks + 1) % 2 ^ 64;
    };
    workers = set (set (set (set s.workers i finishing) i counted) i looking) i asleep;
    waiter = blocked;
  }

  no_task : (p : ThreadPool T) → p.tasks ≡ [] → p.stop ≡ false → take_task p ≡ (asleep, p)
  unfolding take_task
  no_task p h k = ground arith

  module _ {s : System T} {i : ℕ} {t : T} (last : IsLast s i t)
      (busy : s.pool.active_tasks ≡ 1) where
    not_idle : is_idle s.pool ≡ false
    unfolding is_idle
    not_idle = ground arith

    finds_busy : step check s ≡ some (record s { waiter = deciding })
    unfolding step waiter_step
    finds_busy = ground (arith, not_idle)

    loses : run (lost_steps i) s ≡ some (lost s i)
    unfolding run step waiter_step work_step
    loses = steps_run check (work i ∷ work i ∷ work i ∷ block ∷ work i ∷ []) s s1 finds_busy (
        steps_run (work i) (work i ∷ work i ∷ block ∷ work i ∷ []) s1 s2
          (work_steps i (running t) s1 last.here refl)
          (steps_run (work i) (work i ∷ block ∷ work i ∷ []) s2 s3
            (work_steps i finishing s2 at2 refl)
            (steps_run (work i) (block ∷ work i ∷ []) s3 s4 (work_steps i counted s3 at3 refl) (
              steps_run block (work i ∷ []) s4 s5 refl (
                steps_run (work i) [] s5 (lost s i)
                  (work_steps i looking s5 at5 (rw (no_task s5.pool last.empty last.going) refl))
                  refl)))))
      where
        s1 : System T
        s1 = record s { waiter = deciding }

        s2 : System T
        s2 = record s1 {
          pool = record s1.pool { active_tasks = (s.pool.active_tasks + (2 ^ 64 - 1)) % 2 ^ 64 };
          workers = set s.workers i finishing;
        }

        s3 : System T
        s3 = record s2 {
          pool = record s2.pool { completed_tasks = (s.pool.completed_tasks + 1) % 2 ^ 64 };
          workers = set s2.workers i counted;
        }

        s4 : System T
        s4 = record s3 { workers = set s3.workers i looking }

        s5 : System T
        s5 = record s4 { waiter = blocked }

        at2 : get_elem? s2.workers i ≡ some finishing
        at2 = get_elem?-set_self s.workers i (running t) finishing last.here

        at3 : get_elem? s3.workers i ≡ some counted
        at3 = get_elem?-set_self s2.workers i finishing counted at2

        at5 : get_elem? s5.workers i ≡ some looking
        at5 = get_elem?-set_self s3.workers i counted looking at3

    lost-IsStill : IsStill (lost s i)
    lost-IsStill = record {
      none_awake =
          ap (total awake) same
          ∙ omega (arith, last.alone, total-set awake s.workers i (running t) asleep last.here);
      silent = last.silent;
      quiet = last.quiet;
      waits = refl;
    }
      where
        same : (lost s i).workers ≡ set s.workers i asleep
        same =
            ap (λ (ws : List (Worker T)). set (set ws i looking) i asleep)
              (set-set s.workers i finishing counted)
            ∙ set-set (set s.workers i counted) i looking asleep
            ∙ set-set s.workers i counted asleep

    lost_idle : is_idle (lost s i).pool ≡ true
    unfolding is_idle
    lost_idle = ground arith

  -- In any state of a pool of fewer than 2 ^ 64 threads where one worker runs the last task, the
  -- others sleep and `wait_all` has been called: there are steps after which all is done, so that the
  -- condition of `wait_all` holds, and its thread is blocked for good. No thread of the pool can take
  -- another step that would wake it.
  pub lost_wakeup :
      {threads : ℕ} (s : System T) (i : ℕ) (t : T)
      → threads < 2 ^ 64
      → Reach threads s
      → IsLast s i t
      → (u : System T) × (run (lost_steps i) s ≡ some u)
        × (u.waiter ≡ blocked)
        × (is_idle u.pool ≡ true)
        × ¬ CanMove u
  lost_wakeup s i t h r last =
      let busy : s.pool.active_tasks ≡ 1 = omega (
        arith,
        (Reach-Inv h r).busy,
        last.alone,
        runs-le-awake s.workers,
        weight-le-total runs s.workers i (running t) last.here,
      ) in
      (
        lost s i,
        loses last busy,
        refl,
        lost_idle last busy,
        still-stuck (lost s i) (lost-IsStill last busy),
      )
