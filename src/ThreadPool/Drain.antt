-- ===== src/ThreadPool/Drain.antt =====
-- The workers of a pool come to rest, and only when the queue is empty.
use cpp_gram.Common.{
  ℕ, zero, suc, ◌+◌, ◌*◌, ◌≤◌, ◌<◌, ◌≡◌, inl, inr, refl, ap, Bool, true, false, List, [], ◌∷◌,
  Option, none, some, length, map, arith, if◌then◌else◌, Bool-cases, Option-cases,
}
use cpp_gram.Common.Positions.{get_elem?, set, length-set, total, total-set, total-map}
use cpp_gram.ThreadPool.{
  Worker, looking, asleep, running, finishing, counted, exited, System, Waiter, entering, deciding,
  Event, work, notify_one, notify_all, check, block, enqueue_call, shutdown_call, wait_call,
  spurious, spurious_waiter, step, work_step, wake, notify_step, notify_all_step, is_idle,
  waiter_step, woken, any_asleep, is_free,
}
use cpp_gram.ThreadPool.Invariant.{take_task-cases}

abbrev pub waiter_effort : Waiter → ℕ
waiter_effort entering = 2
waiter_effort deciding = 1
waiter_effort _ = 0

module _ {T : Type 0} where
  -- The steps that the pool's own threads take, and the thread in `wait_all` after its call: not the
  -- calls of others, nor a wake-up that nobody has asked for.
  abbrev pub internal : Event T → Bool
  internal (work i) = true
  internal (notify_one i) = true
  internal notify_all = true
  internal check = true
  internal block = true
  internal _ = false

  abbrev pub effort : Worker T → ℕ
  effort looking = 1
  effort asleep = 0
  effort (running t) = 6
  effort finishing = 5
  effort counted = 4
  effort exited = 0

  -- How many internal steps are left at most.
  abbrev pub cost : System T → ℕ
  cost s =
      6 * length s.pool.tasks
      + total effort s.workers
      + 2 * s.signals
      + (if s.broadcast then length s.workers + 1 else 0)
      + waiter_effort s.waiter

  abbrev pub Cheaper : System T → Option (System T) → Type 0
  Cheaper s none = Unit {0}
  Cheaper s (some t) = (cost t < cost s) × (t.accepted ≡ s.accepted)

  effort-woken : (w : Worker T) → effort (woken w) ≤ effort w + 1
  effort-woken w = ground arith

  length-map : (f : Worker T → Worker T) (ws : List (Worker T)) → length (map f ws) ≡ length ws
  length-map f [] = refl
  length-map f (w ∷ ws) = ap suc (length-map f ws)

  module _ (s : System T) where
    abbrev Falls : Option (System T) → Type 0
    Falls o = Cheaper s o

    record Change (i : ℕ) (w v : Worker T) : Type 0 where
      long : length (set s.workers i v) ≡ length s.workers
      sum : total effort (set s.workers i v) + effort w ≡ total effort s.workers + effort v

    change : (i : ℕ) (w v : Worker T) → get_elem? s.workers i ≡ some w → Change i w v
    change i w v h = record {
      long = length-set s.workers i v;
      sum = total-set effort s.workers i w v h;
    }

    work_looking : (i : ℕ) → get_elem? s.workers i ≡ some looking → Falls (work_step i looking s)
    unfolding work_step
    work_looking i h = elim (Bool-cases (is_free s.waiter)) [
      | inr held ↦ rw held tt
      | inl free ↦ rw free (elim (take_task-cases s.pool) [
        | inl (empty, stopped, e) ↦ let m = change i looking exited h in rw e (ground arith)
        | inr (inl (empty, going, e)) ↦ let m = change i looking asleep h in rw e (ground arith)
        | inr (inr (t, rest, front, e)) ↦
            let m = change i looking (running t) h in rw e (ground arith)
      ])
    ]

    work_step-Falls :
        (i : ℕ) (w : Worker T) → get_elem? s.workers i ≡ some w → Falls (work_step i w s)
    unfolding work_step
    work_step-Falls i looking h = work_looking i h
    work_step-Falls i asleep h = tt
    work_step-Falls i (running t) h = let m = change i (running t) finishing h in ground arith
    work_step-Falls i finishing h = let m = change i finishing counted h in ground arith
    work_step-Falls i counted h = let m = change i counted looking h in ground arith
    work_step-Falls i exited h = tt

    wake-Falls : (i k : ℕ) → s.signals ≡ suc k → Falls (wake i (record s { signals = k }))
    unfolding wake
    wake-Falls i k h = elim (Option-cases (get_elem? s.workers i)) [
      | inl e ↦ rw (e, wake, Cheaper) tt
      | inr (w, e) ↦ woke w e
    ]
      where
        woke :
            (w : Worker T)
            → get_elem? s.workers i ≡ some w
            → Falls (wake i (record s { signals = k }))
        woke asleep e = let m = change i asleep looking e in rw (e, wake, Cheaper) (ground arith)
        woke looking e = rw (e, wake, Cheaper) tt
        woke (running t) e = rw (e, wake, Cheaper) tt
        woke finishing e = rw (e, wake, Cheaper) tt
        woke counted e = rw (e, wake, Cheaper) tt
        woke exited e = rw (e, wake, Cheaper) tt

    notify_step-Falls : (k i : ℕ) → s.signals ≡ k → Falls (notify_step k i s)
    unfolding notify_step
    notify_step-Falls zero i h = tt
    notify_step-Falls (suc k) i h = elim (Bool-cases (any_asleep s.workers)) [
      | inl some_asleep ↦ rw some_asleep (wake-Falls i k h)
      | inr none_asleep ↦ rw none_asleep (ground arith)
    ]

    notify_all_step-Falls : (b : Bool) → s.broadcast ≡ b → Falls (notify_all_step b s)
    unfolding notify_all_step
    notify_all_step-Falls false h = tt
    notify_all_step-Falls true h = ground (
      arith,
      total-map effort woken 1 s.workers (λ (w : Worker T). effort-woken w),
      length-map woken s.workers,
    )

    waiter_step-Falls :
        (e : Event T) (w : Waiter) → internal e ≡ true → s.waiter ≡ w → Falls (waiter_step e w s)
    unfolding waiter_step
    waiter_step-Falls check entering h k = elim (Bool-cases (is_idle s.pool)) [
      | inl idle ↦ rw idle (ground arith)
      | inr busy ↦ rw busy (ground arith)
    ]
    waiter_step-Falls e w h k = ground arith

    pub step-Falls : (e : Event T) → internal e ≡ true → Falls (step e s)
    unfolding step
    step-Falls (work i) h = elim (Option-cases (get_elem? s.workers i)) [
      | inl e ↦ rw (e, step, Cheaper) tt
      | inr (w, e) ↦ rw (e, step, Cheaper) (work_step-Falls i w e)
    ]
    step-Falls (notify_one i) h = notify_step-Falls s.signals i refl
    step-Falls notify_all h = notify_all_step-Falls s.broadcast refl
    step-Falls check h = waiter_step-Falls check s.waiter h refl
    step-Falls block h = waiter_step-Falls block s.waiter h refl
    step-Falls (enqueue_call t) h = absurd (cc)
    step-Falls shutdown_call h = absurd (cc)
    step-Falls wait_call h = absurd (cc)
    step-Falls (spurious i) h = absurd (cc)
    step-Falls spurious_waiter h = absurd (cc)
