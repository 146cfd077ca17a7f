-- ===== src/ThreadPool/Reach.antt =====
-- The states that a pool and the threads around it come to; each has the invariant.
use cpp_gram.Common.{
  Bool, ℕ, zero, suc, ◌*◌, ◌^◌, ◌≤◌, ◌<◌, ◌≡◌, inl, inr, refl, subst, ◌==◌, true, false, [], ◌∷◌,
  append_assoc, Option, some, replicate, arith, if◌then◌else◌, Option-cases, Bool-cases,
  length-replicate,
}
use cpp_gram.Common.Positions.{get_elem?, total}
use cpp_gram.ThreadPool.{
  new_pool, start, start_workers, work, notify_one, notify_all, check, block, enqueue_call,
  shutdown_call, wait_call, spurious, spurious_waiter, notify_step, notify_all_step, any_asleep,
  wake, enqueue, request_stop, enqueue_step, shutdown_step, waiter_step, Event, Waiter, Worker,
  looking, asleep, running, finishing, counted, exited, System, is_free, step,
}
use cpp_gram.ThreadPool.Sums.{runs, ends, leaves, total-all, move, any_asleep-sleeps, woken-Counts}
use cpp_gram.ThreadPool.Invariant.{Inv, Keeps, work_step-Inv}

module _ {T : Type 0} where
  module _ {n : ℕ} (small : n < 2 ^ 64) (some_worker : 0 < n) (s : System T) (inv : Inv n s) where
    wake-Inv : (i k : ℕ) → s.signals ≤ suc k → Keeps n (wake i (record s { signals = k }))
    unfolding wake
    wake-Inv i k h = elim (Option-cases (get_elem? s.workers i)) [
      | inl e ↦ rw (e, wake, Keeps) tt
      | inr (w, e) ↦ woke w e
    ]
      where
        woke :
            (w : Worker T)
            → get_elem? s.workers i ≡ some w
            → Keeps n (wake i (record s { signals = k }))
        woke asleep e =
            let m = move s.workers i asleep looking e in rw (e, wake, Keeps) (ground arith)
        woke looking e = rw (e, wake, Keeps) tt
        woke (running t) e = rw (e, wake, Keeps) tt
        woke finishing e = rw (e, wake, Keeps) tt
        woke counted e = rw (e, wake, Keeps) tt
        woke exited e = rw (e, wake, Keeps) tt

    nobody_asleep : (k : ℕ) → any_asleep s.workers ≡ false → Inv n (record s { signals = k })
    nobody_asleep k h = ground (arith, any_asleep-sleeps s.workers h, total-all s.workers)

    notify_all_step-Inv : (b : Bool) → s.broadcast ≡ b → Keeps n (notify_all_step b s)
    unfolding notify_all_step
    notify_all_step-Inv false h = tt
    notify_all_step-Inv true h = let m = woken-Counts s.workers in ground arith

    enqueue_step-Inv : (t : T) → Inv n (enqueue_step t s)
    unfolding enqueue_step enqueue
    enqueue_step-Inv t = ground (arith, append_assoc s.started s.pool.tasks (t ∷ []))

    shutdown_step-Inv : Inv n (shutdown_step s)
    unfolding shutdown_step request_stop
    shutdown_step-Inv = ground arith

    waiter_step-Inv : (e : Event T) (w : Waiter) → Keeps n (waiter_step e w s)
    unfolding waiter_step
    waiter_step-Inv e w = ground arith

    notify_step-Inv : (k i : ℕ) → s.signals ≡ k → Keeps n (notify_step k i s)
    unfolding notify_step
    notify_step-Inv zero i h = tt
    notify_step-Inv (suc k) i h = elim (Bool-cases (any_asleep s.workers)) [
      | inl some_asleep ↦ rw some_asleep (wake-Inv i k (omega arith))
      | inr none_asleep ↦ rw none_asleep (nobody_asleep k none_asleep)
    ]

    -- Every step of every thread keeps the invariant.
    step-Inv : (e : Event T) → Keeps n (step e s)
    unfolding step
    step-Inv (work i) = elim (Option-cases (get_elem? s.workers i)) [
      | inl e ↦ rw (e, step, Keeps) tt
      | inr (w, e) ↦ rw (e, step, Keeps) (work_step-Inv small s inv i w e)
    ]
    step-Inv (notify_one i) = notify_step-Inv s.signals i refl
    step-Inv notify_all = notify_all_step-Inv s.broadcast refl
    step-Inv (enqueue_call t) = elim (Bool-cases (is_free s.waiter)) [
      | inl free ↦ rw free (enqueue_step-Inv t)
      | inr held ↦ rw held tt
    ]
    step-Inv shutdown_call = elim (Bool-cases (is_free s.waiter)) [
      | inl free ↦ rw free shutdown_step-Inv
      | inr held ↦ rw held tt
    ]
    step-Inv (spurious i) = wake-Inv i s.signals (omega arith)
    step-Inv check = waiter_step-Inv check s.waiter
    step-Inv block = waiter_step-Inv block s.waiter
    step-Inv wait_call = waiter_step-Inv wait_call s.waiter
    step-Inv spurious_waiter = waiter_step-Inv spurious_waiter s.waiter

-- The states that a pool of `threads` workers and the threads around it can come to.
pub data Reach {T : Type 0} (threads : ℕ) : System T → Type 0 where
  at_start : Reach threads (start threads)
  next : {s t : System T} → Reach threads s → (e : Event T) → step e s ≡ some t → Reach threads t

-- `size()`
abbrev pub pool_size : ℕ → ℕ
pool_size threads = if threads == 0 then 1 else threads

pub pool_size-pos : (threads : ℕ) → 0 < pool_size threads
pool_size-pos threads = ground arith

module _ {T : Type 0} where
  Keeps-some : {n : ℕ} (o : Option (System T)) {t : System T} → o ≡ some t → Keeps n o → Inv n t
  Keeps-some {n} o {t} e k = subst (Keeps n) e k

  looking_only :
      (n : ℕ) (weight : Worker T → ℕ) → total weight (replicate n looking) ≡ n * weight looking
  looking_only zero weight = omega arith
  looking_only (suc n) weight = grind (arith, looking_only n weight)

  start-Inv : (threads : ℕ) → Inv {T = T} (pool_size threads) (start threads)
  unfolding start start_workers new_pool
  start-Inv threads =
      let n = pool_size threads in
      record {
        size = length-replicate n looking;
        order = refl;
        busy = omega (arith, looking_only n runs);
        done = omega (arith, looking_only n runs, looking_only n ends);
        fits = omega arith;
        gone = inl (omega (arith, looking_only n leaves));
        heard = inl refl;
        told = inl refl;
      }

  pub Reach-Inv :
      {threads : ℕ} {s : System T} → threads < 2 ^ 64 → Reach threads s → Inv (pool_size threads) s
  Reach-Inv {threads} h at_start = start-Inv threads
  Reach-Inv {threads} h (next {s} r e p) =
      Keeps-some (step e s) p (step-Inv (ground arith) (pool_size-pos threads) s (Reach-Inv h r) e)
