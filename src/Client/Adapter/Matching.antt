-- ===== src/Client/Adapter/Matching.antt =====
-- Every answer of TDLib reaches the handler of its own request, once.
use cpp_gram.Common.{
  ℕ, suc, ◌+◌, ◌-◌, ◌^◌, ◌≤◌, ◌<◌, ◌≡◌, refl, sym, ap, ◌∙◌, Bool, true, false, List, [], ◌∷◌, ◌++◌,
  Option, none, some, length, length-append, if◌then◌else◌, ◌==◌, ==_iff, leb, leb→le, leb→lt,
  Bool-cases, Option-cases, inl, inr, arith,
}
use cpp_gram.Common.Maps.{
  number_key, find, find-assign, find-assign_other, find-erase, find-erase_other,
}
use cpp_gram.Client.Adapter.{
  TdLibAdapter, register, send, receive, set_update_handler, new_adapter, Event, sent, received,
  handled_by, called, run_events,
}

apart : (n m : ℕ) → (n == 1) ≡ true → (n == suc (suc m)) ≡ false
apart n m h = ground arith

one_less : (n m : ℕ) → (n == 1) ≡ false → (n == suc (suc m)) ≡ (n - 1 == suc m)
one_less n m h = ground arith

module _ {H : Type 0} where
  -- The handler that was handed over with request `n`, where the first request has the number 1.
  unfoldable pub handed : List (Option H) → ℕ → Option H
  handed [] n = none
  handed (h ∷ hs) n = let rest = handed hs (n - 1) in if n == 1 then h else rest

  handed-zero : (hs : List (Option H)) → handed hs 0 ≡ none
  unfolding handed
  handed-zero [] = refl
  handed-zero (h ∷ hs) = handed-zero hs

  handed-append :
      (hs : List (Option H)) (h : Option H) (n : ℕ)
      → handed (hs ++ h ∷ []) n ≡ (if n == suc (length hs) then h else handed hs n)
  unfolding handed
  handed-append [] h n = refl
  handed-append (g ∷ hs) h n = elim (Bool-cases (n == 1)) [
    | inl e ↦ rw (e, apart n (length hs) e) refl
    | inr e ↦ rw (e, handed-append hs h (n - 1), one_less n (length hs) e) refl
  ]

abbrev pub member : ℕ → List ℕ → Bool
member n [] = false
member n (m ∷ ms) = if n == m then true else member n ms

module _ {F H A : Type 0} where
  -- The calls of handlers, from the list of what was handed over, the requests that have been answered,
  -- and the handler for updates.
  unfoldable pub deliveries :
      List (Option H) → List ℕ → Option H → List (Event F H A) → List (H × A)
  unfolding handed
  deliveries hs answered u [] = []
  deliveries hs answered u (sent fn h ∷ es) = deliveries (hs ++ h ∷ []) answered u es
  deliveries hs answered u (handled_by h ∷ es) = deliveries hs answered (some h) es
  deliveries hs answered u (received n x ∷ es) =
      let rest = deliveries hs answered u es in
      let after = deliveries hs (n ∷ answered) u es in
      if n == 0
      then called u x ++ rest
      else if member n answered
      then rest
      else if leb n (length hs)
      then called (handed hs n) x ++ after
      else rest

  abbrev pub sends : List (Event F H A) → ℕ
  sends [] = 0
  sends (sent fn h ∷ es) = suc (sends es)
  sends (_ ∷ es) = sends es

module _ {H : Type 0} where
  handed_nothing : (n : ℕ) → (let hs : List (Option H) = none ∷ [] in handed hs n ≡ none)
  unfolding handed
  handed_nothing n = elim (Bool-cases (n == 1)) [ inl e ↦ rw e refl | inr e ↦ rw e refl ]

  handed_beyond : (hs : List (Option H)) (n : ℕ) → length hs < n → handed hs n ≡ none
  unfolding handed
  handed_beyond [] n h = refl
  handed_beyond (g ∷ hs) n h = elim (Bool-cases (n == 1)) [
    | inl e ↦ absurd (omega (arith, (==_iff n 1).0 e))
    | inr e ↦ rw e (handed_beyond hs (n - 1) (omega arith))
  ]

  find-register :
      (id n : ℕ) (h : Option H) (m : List (ℕ × H))
      → find id m ≡ none
      → find n (register id h m) ≡ (if n == id then h else find n m)
  find-register id n none m e = elim (Bool-cases (n == id)) [
    | inl t ↦ rw (t, (==_iff n id).0 t) e
    | inr t ↦ rw t refl
  ]
  find-register id n (some h) m e = elim (Bool-cases (n == id)) [
    | inl t ↦ rw (t, (==_iff n id).0 t) (find-assign id h m)
    | inr t ↦ rw t (find-assign_other id n h m t)
  ]

module _ {F H : Type 0} where
  -- What the adapter and the lists of `deliveries` have in common.
  record Agrees (hs : List (Option H)) (answered : List ℕ) (a : TdLibAdapter F H) : Type 0 where
    pub counted : a.next_id ≡ suc (length hs)
    pub found : (n : ℕ) → find n a.handlers ≡ (if member n answered then none else handed hs n)
    pub known : (n : ℕ) → member n answered ≡ true → n ≤ length hs

  not_answered :
      {hs : List (Option H)} {answered : List ℕ} {a : TdLibAdapter F H} (n : ℕ)
      → Agrees hs answered a
      → length hs < n
      → member n answered ≡ false
  not_answered {answered = answered} n g h = elim (Bool-cases (member n answered)) [
    | inl e ↦ absurd (omega (arith, g.known n e))
    | inr e ↦ e
  ]

  fresh :
      (hs : List (Option H)) (answered : List ℕ) (a : TdLibAdapter F H)
      → Agrees hs answered a
      → find a.next_id a.handlers ≡ none
  fresh hs answered a g =
      g.found a.next_id
      ∙ rw (not_answered a.next_id g (omega (arith, g.counted)))
          (handed_beyond hs a.next_id (omega (arith, g.counted)))

  send_found :
      (h : Option H) (hs : List (Option H)) (answered : List ℕ) (a : TdLibAdapter F H) (n : ℕ)
      → Agrees hs answered a
      → find n (register a.next_id h a.handlers)
        ≡ (if member n answered then none else handed (hs ++ h ∷ []) n)
  send_found h hs answered a n g =
      find-register a.next_id n h a.handlers (fresh hs answered a g)
      ∙ rw (handed-append hs h n, g.counted)
          (elim (Bool-cases (n == suc (length hs))) [
            | inl e ↦
                rw (e, not_answered n g (omega (arith, (==_iff n (suc (length hs))).0 e))) refl
            | inr e ↦ rw e (g.found n)
          ])

  send-Agrees :
      (fn : F) (h : Option H) (hs : List (Option H)) (answered : List ℕ) (a : TdLibAdapter F H)
      → suc (suc (length hs)) < 2 ^ 64
      → Agrees hs answered a
      → Agrees (hs ++ h ∷ []) answered (send fn h a)
  unfolding send
  send-Agrees fn h hs answered a small g = record {
    counted = omega (arith, g.counted, length-append hs (h ∷ []));
    found = λ n. send_found h hs answered a n g;
    known = λ n m. omega (arith, g.known n m, length-append hs (h ∷ []));
  }

  -- An object for a request takes the request's handler out.
  record Takes (n : ℕ) (a : TdLibAdapter F H) (r : Option H × TdLibAdapter F H) : Type 0 where
    pub given : r.0 ≡ find n a.handlers
    pub left : (k : ℕ) → find k r.1.handlers ≡ (if k == n then none else find k a.handlers)
    pub same_id : r.1.next_id ≡ a.next_id
    pub same_update : r.1.update_handler ≡ a.update_handler

  receive_lem : (n : ℕ) (a : TdLibAdapter F H) → (n == 0) ≡ false → Takes n a (receive n a)
  unfolding receive
  receive_lem n a z = elim (Option-cases (find n a.handlers)) [
    | inl e ↦
        rw (z, e)
          record {
            given = sym e;
            left = λ k. elim (Bool-cases (k == n)) [
              | inl t ↦ rw (t, (==_iff k n).0 t) e
              | inr t ↦ rw t refl
            ];
            same_id = refl;
            same_update = refl;
          }
    | inr (h, e) ↦
        rw (z, e)
          record {
            given = sym e;
            left = λ k. elim (Bool-cases (k == n)) [
              | inl t ↦ rw (t, (==_iff k n).0 t) (find-erase n a.handlers)
              | inr t ↦ rw t (find-erase_other n k a.handlers t)
            ];
            same_id = refl;
            same_update = refl;
          }
  ]

  receive-Agrees :
      (n : ℕ) (hs : List (Option H)) (answered : List ℕ) (a : TdLibAdapter F H)
      → n ≤ length hs
      → (n == 0) ≡ false
      → Agrees hs answered a
      → Agrees hs (n ∷ answered) (receive n a).1
  receive-Agrees n hs answered a small z g =
      let t = receive_lem n a z in
      record {
        counted = t.same_id ∙ g.counted;
        found = λ k.
            t.left k ∙ elim (Bool-cases (k == n)) [ inl e ↦ rw e refl | inr e ↦ rw e (g.found k) ];
        known = λ k m. elim (Bool-cases (k == n)) [
          | inl e ↦ omega (arith, (==_iff k n).0 e)
          | inr e ↦ g.known k (rw e at m)
        ];
      }

  -- An object that no handler waits for changes nothing.
  receive_unknown :
      (n : ℕ) (a : TdLibAdapter F H)
      → find n a.handlers ≡ none
      → (n == 0) ≡ false
      → receive n a ≡ (none, a)
  unfolding receive
  receive_unknown n a e z = rw (z, e) refl

module _ {F H A : Type 0} where
  first_answer :
      (n : ℕ) (x : A) (hs : List (Option H)) (answered : List ℕ) (u : Option H)
      (es : List (Event F H A))
      → (n == 0) ≡ false
      → member n answered ≡ false
      → leb n (length hs) ≡ true
      → deliveries hs answered u (received n x ∷ es)
        ≡ called (handed hs n) x ++ deliveries hs (n ∷ answered) u es
  unfolding deliveries
  first_answer n x hs answered u es z m l = rw (z, m, l) refl

  matches :
      (es : List (Event F H A)) (hs : List (Option H)) (answered : List ℕ) (a : TdLibAdapter F H)
      → suc (length hs) + sends es < 2 ^ 64
      → Agrees hs answered a
      → run_events es a ≡ deliveries hs answered a.update_handler es
  unfolding run_events deliveries send set_update_handler
  matches [] hs answered a small g = refl
  matches (sent fn h ∷ es) hs answered a small g =
      matches es (hs ++ h ∷ []) answered (send fn h a) (omega (arith, length-append hs (h ∷ [])))
        (send-Agrees fn h hs answered a (omega arith) g)
  matches (received n x ∷ es) hs answered a small g = elim (Bool-cases (n == 0)) [
    | inl z ↦ rw z (ap (◌++◌ (called a.update_handler x)) (matches es hs answered a small g))
    | inr z ↦ elim (Bool-cases (member n answered)) [
      | inl m ↦
          rw (receive_unknown n a (g.found n ∙ rw m refl) z, z, m)
            (matches es hs answered a small g)
      | inr m ↦ elim (Bool-cases (leb n (length hs))) [
        | inl l ↦
            let t = receive_lem n a z in
            ap (λ o. called o x ++ run_events es (receive n a).1)
              (t.given ∙ (g.found n ∙ rw m refl))
            ∙ (ap (◌++◌ (called (handed hs n) x)) (
                  matches es hs (n ∷ answered) (receive n a).1 small
                    (receive-Agrees n hs answered a (leb→le n (length hs) l) z g)
                  ∙ rw t.same_update refl)
                ∙ sym (first_answer n x hs answered a.update_handler es z m l))
        | inr l ↦
            rw
              (
                receive_unknown n a (g.found n ∙ rw m (handed_beyond hs n (leb→lt n (length hs) l)))
                    z,
                z,
                m,
                l,
              )
              (matches es hs answered a small g)
      ]
    ]
  ]
  matches (handled_by h ∷ es) hs answered a small g =
      matches es hs answered (set_update_handler h a) small
        record { counted = g.counted; found = g.found; known = g.known }

  -- Let fewer than 2^64 - 2 requests be sent, with or without a handler, in any order with the objects
  -- that come back. The calls of handlers are those of a book-keeping by the number of the request:
  -- the first object for a request that has been sent goes to the handler that was handed over with
  -- it, and to no other, a second one to none; an object for a request that has not been sent, or that
  -- has no handler, goes to none; and updates go to the handler for updates that was set last.
  pub run_events-new_adapter :
      (es : List (Event F H A)) (get_version : F)
      → 2 + sends es < 2 ^ 64
      → run_events es (new_adapter get_version) ≡ deliveries (none ∷ []) [] none es
  unfolding new_adapter send
  run_events-new_adapter es get_version small =
      matches es (none ∷ []) [] (new_adapter get_version) small
        record { counted = refl; found = λ n. sym (handed_nothing n); known = λ n m. absurd (cc) }
