-- ===== src/Middleware/Pipeline.antt =====
-- What an event meets on its way through the pipeline.
use cpp_gram.Common.{
  ◌≡◌, ◌↔◌, ◌⊎◌, refl, ap, ◌∙◌, Bool, true, false, not, ◌||◌, List, [], ◌∷◌, ◌++◌, ok,
  Outcome-cases, Bool-cases, inl, inr, if◌then◌else◌,
}
use cpp_gram.Middleware.{MiddlewareContext, stop_propagation, MiddlewareFunc, execute}

double_not : (b : Bool) → b ≡ not (not b)
double_not true = refl
double_not false = refl

not-false : (b : Bool) → not b ≡ true → b ≡ false
not-false true h = absurd (cc h)
not-false false h = refl

-- A middleware lets an event pass with the answer `true`, unless it has stopped the context.
lets_pass :
    (proceed stopped : Bool)
    → (not proceed || stopped) ≡ false
    → (proceed ≡ true) × (stopped ≡ false)
lets_pass true true h = absurd (cc h)
lets_pass true false h = (refl, refl)
lets_pass false s h = absurd (cc h)

halts :
    (proceed stopped : Bool) → (proceed ≡ true → stopped ≡ true) → (not proceed || stopped) ≡ true
halts true s h = h refl
halts false s h = refl

module _ {X E W : Type 0} where
  -- The context is not stopped, and one after the other every middleware answers `true` and leaves it
  -- so.
  abbrev pub AllProceed : List (MiddlewareFunc X E W) → MiddlewareContext E → W → Type 0
  AllProceed [] ctx w = ctx.stopped ≡ false
  AllProceed (mw ∷ mws) ctx w =
      (ctx.stopped ≡ false) × (((mw ctx w).0 ≡ ok true) × AllProceed mws (mw ctx w).1 (mw ctx w).2)

  AllProceed-open :
      (mws : List (MiddlewareFunc X E W)) (ctx : MiddlewareContext E) (w : W)
      → AllProceed mws ctx w
      → ctx.stopped ≡ false
  AllProceed-open [] ctx w h = h
  AllProceed-open (mw ∷ mws) ctx w h = h.0

  stops_at_once :
      (mws : List (MiddlewareFunc X E W)) (ctx : MiddlewareContext E) (w : W)
      → ctx.stopped ≡ true
      → execute mws ctx w ≡ (false, ctx, w)
  unfolding execute
  stops_at_once [] ctx w e = rw e refl
  stops_at_once (mw ∷ mws) ctx w e = rw e refl

  goes_on :
      (mw : MiddlewareFunc X E W) (mws : List (MiddlewareFunc X E W)) (ctx : MiddlewareContext E)
      (w : W) (proceed : Bool)
      → ctx.stopped ≡ false
      → (mw ctx w).0 ≡ ok proceed
      → (not proceed || (mw ctx w).1.stopped) ≡ false
      → execute (mw ∷ mws) ctx w ≡ execute mws (mw ctx w).1 (mw ctx w).2
  unfolding execute
  goes_on mw mws ctx w proceed e f g = simp (f, g, e) refl

  halts_at :
      (mw : MiddlewareFunc X E W) (mws : List (MiddlewareFunc X E W)) (ctx : MiddlewareContext E)
      (w : W)
      → ctx.stopped ≡ false
      → ((mw ctx w).0 ≡ ok true → (mw ctx w).1.stopped ≡ true)
      → execute (mw ∷ mws) ctx w ≡ (false, stop_propagation (mw ctx w).1, (mw ctx w).2)
  unfolding execute
  halts_at mw mws ctx w e h = elim (Outcome-cases (mw ctx w).0) [
    | inl (x, f) ↦ simp (f, e) refl
    | inr (proceed, f) ↦
        let g = halts proceed (mw ctx w).1.stopped (λ p. h (f ∙ ap ok p)) in simp (f, g, e) refl
  ]

  -- The cases of a middleware in front of others.
  split :
      (mw : MiddlewareFunc X E W) (ctx : MiddlewareContext E) (w : W)
      → (((mw ctx w).0 ≡ ok true) × ((mw ctx w).1.stopped ≡ false))
        ⊎ ((mw ctx w).0 ≡ ok true → (mw ctx w).1.stopped ≡ true)
  split mw ctx w = elim (Outcome-cases (mw ctx w).0) [
    | inl (x, f) ↦ inr (λ h. absurd (cc (f, h)))
    | inr (true, f) ↦ elim (Bool-cases (mw ctx w).1.stopped) [
      | inl e ↦ inr (λ h. e)
      | inr e ↦ inl (f, e)
    ]
    | inr (false, f) ↦ inr (λ h. absurd (cc (f, h)))
  ]

  execute_parts :
      (front back : List (MiddlewareFunc X E W)) (ctx : MiddlewareContext E) (w : W)
      → let (passed, ctx1, w1) = execute front ctx w in
        (ctx1.stopped ≡ not passed)
        × (execute (front ++ back) ctx w
            ≡ (if passed then execute back ctx1 w1 else (false, ctx1, w1)))
  unfolding execute stop_propagation
  execute_parts [] back ctx w = elim (Bool-cases ctx.stopped) [
    | inl e ↦ (double_not ctx.stopped, stops_at_once back ctx w e ∙ rw e refl)
    | inr e ↦ (double_not ctx.stopped, rw e refl)
  ]
  execute_parts (mw ∷ front) back ctx w = elim (Bool-cases ctx.stopped) [
    | inl e ↦ rw e (refl, refl)
    | inr e ↦ elim (split mw ctx w) [
      | inl (f, g) ↦
          rw (goes_on mw front ctx w true e f g, goes_on mw (front ++ back) ctx w true e f g)
            (execute_parts front back (mw ctx w).1 (mw ctx w).2)
      | inr h ↦ rw (halts_at mw front ctx w e h, halts_at mw (front ++ back) ctx w e h) (refl, refl)
    ]
  ]

  proceeds :
      (mws : List (MiddlewareFunc X E W)) (ctx : MiddlewareContext E) (w : W)
      → (execute mws ctx w).0 ≡ true ↔ AllProceed mws ctx w
  unfolding execute
  proceeds [] ctx w = (not-false ctx.stopped, λ h. rw h refl)
  proceeds (mw ∷ mws) ctx w = elim (Bool-cases ctx.stopped) [
    | inl e ↦ rw (stops_at_once (mw ∷ mws) ctx w e) (λ h. absurd (cc h), λ h. absurd (cc (e, h.0)))
    | inr e ↦ elim (split mw ctx w) [
      | inl (f, g) ↦
          let (there, back) = proceeds mws (mw ctx w).1 (mw ctx w).2 in
          rw (goes_on mw mws ctx w true e f g) (λ h. (e, (f, there h)), λ h. back h.1.1)
      | inr h ↦ rw (halts_at mw mws ctx w e h) (
        λ k. absurd (cc k),
        λ k. absurd (cc (h k.1.0, AllProceed-open mws (mw ctx w).1 (mw ctx w).2 k.1.1)),
      )
    ]
  ]

  -- An event passes the pipeline exactly if, one after the other, every middleware answers `true`,
  -- without an exception, and leaves the context unstopped; the context that comes out is stopped
  -- exactly if the event does not pass. A pipeline is the composition of its parts: what is behind runs
  -- on the context and the world that the front leaves, and only if the front lets the event pass. A
  -- middleware behind such a front that throws, answers `false` or stops the context is the last that
  -- runs: the pipeline answers `false`, with its context stopped and the world as it leaves it.
  pub execute-append :
      (front : List (MiddlewareFunc X E W)) (mw : MiddlewareFunc X E W)
      (back : List (MiddlewareFunc X E W)) (ctx : MiddlewareContext E) (w : W)
      → let (passed, ctx1, w1) = execute front ctx w in
        (passed ≡ true ↔ AllProceed front ctx w)
        × ((ctx1.stopped ≡ not passed)
            × ((execute (front ++ back) ctx w
                  ≡ (if passed then execute back ctx1 w1 else (false, ctx1, w1)))
                × (passed ≡ true
                    → ((mw ctx1 w1).0 ≡ ok true → (mw ctx1 w1).1.stopped ≡ true)
                    → execute (front ++ mw ∷ back) ctx w
                      ≡ (false, stop_propagation (mw ctx1 w1).1, (mw ctx1 w1).2))))
  execute-append front mw back ctx w =
      let (agree, parts) = execute_parts front back ctx w in
      let (_, longer) = execute_parts front (mw ∷ back) ctx w in
      (
        proceeds front ctx w,
        (
          agree,
          (
            parts,
            λ e h.
                longer
                ∙ rw e (
                    halts_at mw back (execute front ctx w).1 (execute front ctx w).2
                      (agree ∙ rw e refl) h),
          ),
        ),
      )
