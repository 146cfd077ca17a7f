-- ===== src/ThreadPool/Accounts.antt =====
-- The pool's counters and its queue, and what a return of `wait_all` says of them.
use cpp_gram.Common.{
  ℕ, ◌+◌, ◌%◌, ◌^◌, ◌≤◌, ◌<◌, ◌≡◌, ◌↔◌, refl, ◌∙◌, sym, ap, true, List, [], ◌∷◌, ◌++◌, append-nil,
  length, length-append, arith,
}
use cpp_gram.Common.Positions.{total}
use cpp_gram.ThreadPool.{ThreadPool, System, is_idle}
use cpp_gram.ThreadPool.Sums.{runs, ends, runs-le}
use cpp_gram.ThreadPool.Reach.{Reach, Reach-Inv, pool_size}

module _ {T : Type 0} where
  is_idle_iff : (p : ThreadPool T) → (is_idle p ≡ true) ↔ ((p.tasks ≡ []) × (p.active_tasks ≡ 0))
  unfolding is_idle
  is_idle_iff p = (λ h. ground arith, λ h. ground arith)

  append_nothing : (xs ys : List T) → xs ++ ys ≡ xs → ys ≡ []
  append_nothing xs [] h = refl
  append_nothing xs (y ∷ ys) h =
      absurd (omega (arith, length-append xs (y ∷ ys), ap (length {A = T}) h))

  -- In every state that a pool of fewer than 2 ^ 64 threads comes to, whatever the interleaving: the
  -- workers have started the accepted tasks in their order, each once, and the rest is in the queue;
  -- `active_tasks` counts the running tasks, at most one for each worker; `completed_tasks` lags
  -- behind the tasks that are over by those that their workers are about to count, up to a multiple
  -- of 2 ^ 64; and the condition of `wait_all` holds exactly if all accepted tasks have been started
  -- and none is running.
  pub reachable_accounts :
      {threads : ℕ} (s : System T)
      → threads < 2 ^ 64
      → Reach threads s
      → (s.started ++ s.pool.tasks ≡ s.accepted)
        × (s.pool.active_tasks ≡ total runs s.workers)
        × (s.pool.active_tasks ≤ pool_size threads)
        × ((s.pool.completed_tasks + total runs s.workers + total ends s.workers) % 2 ^ 64
            ≡ length s.started % 2 ^ 64)
        × ((is_idle s.pool ≡ true) ↔ ((s.started ≡ s.accepted) × (total runs s.workers ≡ 0)))
  reachable_accounts {threads} s h r =
      let inv = Reach-Inv h r in
      let (to, from) = is_idle_iff s.pool in
      (
        inv.order,
        inv.busy,
        omega (arith, inv.busy, inv.size, runs-le s.workers),
        inv.done,
        (
          λ idle.
              let (empty, none_active) = to idle in
              (
                sym (append-nil s.started)
                    ∙ ap (λ (q : List T). s.started ++ q) (sym empty)
                    ∙ inv.order,
                sym inv.busy ∙ none_active,
              ),
          λ over.
              from
                (append_nothing s.started s.pool.tasks (inv.order ∙ sym over.0), inv.busy ∙ over.1),
        ),
      )
