-- ===== src/ThreadPool/Rest.antt =====
-- Where the internal steps of a pool end.
use cpp_gram.Common.{
  ℕ, zero, suc, ◌+◌, ◌%◌, ◌^◌, ◌≤◌, ◌<◌, ◌≡◌, ◌⊎◌, inl, inr, refl, ap, sym, ◌∙◌, subst, true, false,
  List, [], ◌∷◌, ◌++◌, append-nil, Option, some, length, arith, All, Bool-cases, Option-cases,
}
use cpp_gram.Common.Maps.{is_some}
use cpp_gram.Common.Positions.{get_elem?, total}
use cpp_gram.ThreadPool.{
  Worker, looking, asleep, running, finishing, counted, exited, System, Waiter, outside, entering,
  deciding, blocked, returned, Event, work, notify_one, notify_all, check, block, step, run,
  work_step, wake, notify_step, notify_all_step, waiter_step, any_asleep, is_free,
}
use cpp_gram.ThreadPool.Sums.{runs, ends, sleeps, leaves, awake, total-all}
use cpp_gram.ThreadPool.Invariant.{Inv}
use cpp_gram.ThreadPool.Reach.{Reach, next, Reach-Inv, pool_size}
use cpp_gram.ThreadPool.Drain.{internal, cost, step-Falls, Cheaper}

module _ {T : Type 0} where
  -- An internal step that is possible.
  abbrev pub CanMove : System T → Type 0
  CanMove s = (e : Event T) × (internal e ≡ true) × (is_some (step e s) ≡ true)

  -- The queue is empty and all accepted tasks are over and counted. All workers have left a stopped
  -- pool, whose `shutdown` can then join them, and sleep in another.
  pub record AtRest (n : ℕ) (s : System T) : Type 0 where
    pub empty : s.pool.tasks ≡ []
    pub over : s.started ≡ s.accepted
    pub none_active : s.pool.active_tasks ≡ 0
    pub all_counted : s.pool.completed_tasks ≡ length s.accepted % 2 ^ 64
    pub all_left : (s.pool.stop ≡ false) ⊎ (total leaves s.workers ≡ n)
    pub all_asleep : (s.pool.stop ≡ true) ⊎ (total sleeps s.workers ≡ n)

  asleep_found :
      (ws : List (Worker T)) → any_asleep ws ≡ true → (i : ℕ) × (get_elem? ws i ≡ some asleep)
  asleep_found [] h = absurd (cc)
  asleep_found (asleep ∷ ws) h = (0, refl)
  asleep_found (looking ∷ ws) h = let (i, e) = asleep_found ws h in (suc i, e)
  asleep_found (running t ∷ ws) h = let (i, e) = asleep_found ws h in (suc i, e)
  asleep_found (finishing ∷ ws) h = let (i, e) = asleep_found ws h in (suc i, e)
  asleep_found (counted ∷ ws) h = let (i, e) = asleep_found ws h in (suc i, e)
  asleep_found (exited ∷ ws) h = let (i, e) = asleep_found ws h in (suc i, e)

  record Still (ws : List (Worker T)) : Type 0 where
    awake_none : total awake ws ≡ 0
    runs_none : total runs ws ≡ 0
    ends_none : total ends ws ≡ 0

  -- A worker that is awake, or none.
  awake_found :
      (ws : List (Worker T))
      → ((i : ℕ) × (w : Worker T) × (get_elem? ws i ≡ some w) × (awake w ≡ 1)) ⊎ Still ws
  awake_found [] = inr (omega arith)
  awake_found (looking ∷ ws) = inl (0, looking, refl, refl)
  awake_found (running t ∷ ws) = inl (0, running t, refl, refl)
  awake_found (finishing ∷ ws) = inl (0, finishing, refl, refl)
  awake_found (counted ∷ ws) = inl (0, counted, refl, refl)
  awake_found (asleep ∷ ws) = elim (awake_found ws) [
    | inl (i, w, e, a) ↦ inl (suc i, w, e, a)
    | inr still ↦ inr (omega arith)
  ]
  awake_found (exited ∷ ws) = elim (awake_found ws) [
    | inl (i, w, e, a) ↦ inl (suc i, w, e, a)
    | inr still ↦ inr (omega arith)
  ]

  module _ {n : ℕ} (s : System T) (inv : Inv n s) where
    work_moves :
        (i : ℕ) (w : Worker T)
        → get_elem? s.workers i ≡ some w
        → awake w ≡ 1
        → is_free s.waiter ≡ true
        → is_some (step (work i) s) ≡ true
    unfolding step work_step
    work_moves i looking e a free = rw (e, step, free) refl
    work_moves i (running t) e a free = rw (e, step) refl
    work_moves i finishing e a free = rw (e, step) refl
    work_moves i counted e a free = rw (e, step) refl
    work_moves i asleep e a free = absurd (omega arith)
    work_moves i exited e a free = absurd (omega arith)

    notify_moves : (k : ℕ) → s.signals ≡ suc k → (i : ℕ) × (is_some (step (notify_one i) s) ≡ true)
    unfolding step notify_step wake
    notify_moves k h = elim (Bool-cases (any_asleep s.workers)) [
      | inl found ↦ let (i, e) = asleep_found s.workers found in (i, ground arith)
      | inr none_found ↦ (0, ground arith)
    ]

    at_rest : s.signals ≡ 0 → s.broadcast ≡ false → Still s.workers → AtRest n s
    at_rest h b still = record {
      empty = empty;
      over = over;
      none_active = inv.busy ∙ still.runs_none;
      all_counted =
          omega
            (arith, inv.done, inv.fits, still.runs_none, still.ends_none, ap (length {A = T}) over);
      all_left = elim inv.told [
        | inl going ↦ inl going
        | inr (inl told) ↦ absurd (cc)
        | inr (inr none_asleep) ↦
            inr (omega (arith, total-all s.workers, none_asleep, still.awake_none, inv.size))
      ];
      all_asleep = elim inv.gone [
        | inl nobody_left ↦
            inr (omega (arith, total-all s.workers, nobody_left, still.awake_none, inv.size))
        | inr (stopped, e) ↦ inl stopped
      ];
    }
      where
        empty : s.pool.tasks ≡ []
        empty = elim inv.heard [ inl e ↦ e | inr busy ↦ absurd (omega (arith, still.awake_none)) ]

        over : s.started ≡ s.accepted
        over =
            sym (append-nil s.started) ∙ ap (λ (q : List T). s.started ++ q) (sym empty) ∙ inv.order

    waiter_moves : (w : Waiter) → s.waiter ≡ w → CanMove s ⊎ (is_free s.waiter ≡ true)
    unfolding step waiter_step
    waiter_moves entering h = inl (check, refl, rw (h, step) refl)
    waiter_moves deciding h = inl (block, refl, rw (h, step) refl)
    waiter_moves outside h = inr (rw h refl)
    waiter_moves blocked h = inr (rw h refl)
    waiter_moves returned h = inr (rw h refl)

    move_or_rest : CanMove s ⊎ AtRest n s
    unfolding step notify_all_step
    move_or_rest = elim (waiter_moves s.waiter refl) [
      | inl m ↦ inl m
      | inr free ↦ elim (awake_found s.workers) [
        | inl (i, w, e, a) ↦ inl (work i, refl, work_moves i w e a free)
        | inr still ↦ elim (Bool-cases s.broadcast) [
          | inl told ↦ inl (notify_all, refl, rw told refl)
          | inr quiet ↦ signals_or_rest s.signals refl quiet still
        ]
      ]
    ]
      where
        signals_or_rest :
            (k : ℕ) → s.signals ≡ k → s.broadcast ≡ false → Still s.workers → CanMove s ⊎ AtRest n s
        signals_or_rest zero h quiet still = inr (at_rest h quiet still)
        signals_or_rest (suc k) h quiet still =
            let (i, m) = notify_moves k h in inl (notify_one i, refl, m)

  run_steps :
      (e : Event T) (es : List (Event T)) (s t : System T)
      → run (e ∷ es) s ≡ some t
      → (u : System T) × (step e s ≡ some u) × (run es u ≡ some t)
  unfolding run
  run_steps e es s t h = elim (Option-cases (step e s)) [
    | inl stuck ↦ absurd (cc (stuck, h))
    | inr (u, moved) ↦ (u, moved, cc (moved, h))
  ]

  Falls-some :
      (s : System T) (o : Option (System T)) {u : System T}
      → o ≡ some u
      → Cheaper s o
      → (cost u < cost s) × (u.accepted ≡ s.accepted)
  Falls-some s o e k = subst (Cheaper s) e k

  run_cost :
      (es : List (Event T)) (s t : System T)
      → All (λ e. internal e ≡ true) es
      → run es s ≡ some t
      → (length es + cost t ≤ cost s) × (t.accepted ≡ s.accepted)
  unfolding run
  run_cost [] s t h r = ground arith
  run_cost (e ∷ es) s t h r =
      let (u, moved, more) = run_steps e es s t r in
      let (less, same) = Falls-some s (step e s) moved (step-Falls s e h.0) in
      let (fewer, kept) = run_cost es u t h.1 more in (omega arith, kept ∙ same)

  pub run-Reach :
      {threads : ℕ} (es : List (Event T)) (s t : System T)
      → Reach threads s
      → run es s ≡ some t
      → Reach threads t
  unfolding run
  run-Reach {threads} [] s t h r = subst (Reach threads) (cc) h
  run-Reach (e ∷ es) s t h r =
      let (u, moved, more) = run_steps e es s t r in run-Reach es u t (next h e moved) more

  -- A pool of fewer than 2 ^ 64 threads, in any state that it comes to. From there on its own threads
  -- take at most `cost s` steps, in whatever order. After so many of them as have been taken, either
  -- one of them can take another step, or the pool is at rest: the queue is empty, and all tasks that
  -- had been accepted are over and counted, up to a multiple of 2 ^ 64 of them; the workers have all
  -- left if the pool is stopped, and all sleep if it is not.
  pub drains :
      {threads : ℕ} (s t : System T) (es : List (Event T))
      → threads < 2 ^ 64
      → Reach threads s
      → All (λ e. internal e ≡ true) es
      → run es s ≡ some t
      → (length es ≤ cost s)
        × (t.accepted ≡ s.accepted)
        × (CanMove t ⊎ AtRest (pool_size threads) t)
  drains s t es h r inner e =
      let (fewer, same) = run_cost es s t inner e in
      (omega arith, same, move_or_rest t (Reach-Inv h (run-Reach es s t r e)))
