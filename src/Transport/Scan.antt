-- ===== src/Transport/Scan.antt =====
-- The decoders' loop over an arbitrary frame format: enough fuel, chunks, and concatenated frames.
use cpp_gram.Common.{
  ℕ, zero, suc, ◌^◌, ◌≤◌, ◌<◌, ◌≡◌, refl, sym, ap, ◌∙◌, ◌≢◌, ◌⊎◌, inl, inr, List, [], ◌++◌, length,
  length-append, arith,
}
use cpp_gram.Transport.{
  Frame, wait, packet, failed, Failure, no_progress, drained, stopped, prepend, scan, scan_all,
}

-- What the loop needs of a format, on inputs that a 32-bit length can count: no packet in no bytes,
-- a packet takes bytes, and more input changes neither a packet nor a failure.
pub record Framing (frame : List ℕ → Frame) : Type 0 where
  pub nothing : frame [] ≡ wait
  pub shrinks :
      (s p rest : List ℕ) → length s < 2 ^ 32 → frame s ≡ packet p rest → length rest < length s
  pub extends :
      (s t p rest : List ℕ)
      → length (s ++ t) < 2 ^ 32
      → frame s ≡ packet p rest
      → frame (s ++ t) ≡ packet p (rest ++ t)
  pub fails :
      (s t : List ℕ) (e : Failure)
      → length (s ++ t) < 2 ^ 32
      → frame s ≡ failed e
      → frame (s ++ t) ≡ failed e

pub Frame-cases :
    (f : Frame)
    → (f ≡ wait)
      ⊎ (((p : List ℕ) × (rest : List ℕ) × (f ≡ packet p rest)) ⊎ ((e : Failure) × (f ≡ failed e)))
Frame-cases wait = inl refl
Frame-cases (packet p rest) = inr (inl (p, rest, refl))
Frame-cases (failed e) = inr (inr (e, refl))

module _ (frame : List ℕ → Frame) where
  pub scan_wait :
      (fuel : ℕ) (s : List ℕ)
      → frame s ≡ wait
      → scan frame (suc fuel) s ≡ record { packets = []; rest = s; ending = drained }
  unfolding scan
  scan_wait fuel s e = rw (e, scan)

  pub scan-packet :
      (fuel : ℕ) (s p rest : List ℕ)
      → frame s ≡ packet p rest
      → scan frame (suc fuel) s ≡ prepend p (scan frame fuel rest)
  unfolding scan
  scan-packet fuel s p rest e = rw (e, scan)

  pub scan_failed :
      (fuel : ℕ) (s : List ℕ) (x : Failure)
      → frame s ≡ failed x
      → scan frame (suc fuel) s ≡ record { packets = []; rest = s; ending = stopped x }
  unfolding scan
  scan_failed fuel s x e = rw (e, scan)

  module _ (ok : Framing frame) where
    -- More fuel than bytes is as good as any.
    pub scan_fuel :
        (n m : ℕ) (s : List ℕ)
        → length s < 2 ^ 32
        → length s < n
        → length s < m
        → scan frame n s ≡ scan frame m s
    scan_fuel zero m s small hn hm = absurd (omega arith)
    scan_fuel (suc n) zero s small hn hm = absurd (omega arith)
    scan_fuel (suc n) (suc m) s small hn hm = elim (Frame-cases (frame s)) [
      | inl w ↦ scan_wait n s w ∙ sym (scan_wait m s w)
      | inr (inl (p, rest, e)) ↦
          let less : length rest < length s = ok.shrinks s p rest small e in
          scan-packet n s p rest e
          ∙ ap (prepend p) (scan_fuel n m rest (omega arith) (omega arith) (omega arith))
          ∙ sym (scan-packet m s p rest e)
      | inr (inr (x, e)) ↦ scan_failed n s x e ∙ sym (scan_failed m s x e)
    ]

    -- The loop ends by its test, a `break` or an exception: the fuel suffices.
    pub scan_progress :
        (n : ℕ) (s : List ℕ)
        → length s < 2 ^ 32
        → length s < n
        → ((s : List ℕ) → frame s ≢ failed no_progress)
        → (scan frame n s).ending ≢ stopped no_progress
    scan_progress zero s small hn legal = absurd (omega arith)
    scan_progress (suc n) s small hn legal = elim (Frame-cases (frame s)) [
      | inl w ↦ rw (scan_wait n s w) (λ q. cc)
      | inr (inl (p, rest, e)) ↦
          let less : length rest < length s = ok.shrinks s p rest small e in
          rw (scan-packet n s p rest e) (scan_progress n rest (omega arith) (omega arith) legal)
      | inr (inr (x, e)) ↦ rw (scan_failed n s x e) (λ q. legal s (e ∙ ap failed (stopped_inj q)))
    ]
      where
        stopped_inj : {x y : Failure} → stopped x ≡ stopped y → x ≡ y
        stopped_inj q = cc

    -- If more input behind `a` lets the loop drain, then `a` alone does.
    pub scan_prefix :
        (n m : ℕ) (a b : List ℕ)
        → length (a ++ b) < 2 ^ 32
        → length a < n
        → length (a ++ b) < m
        → (scan frame m (a ++ b)).ending ≡ drained
        → (scan frame n a).ending ≡ drained
    scan_prefix zero m a b small hn hm h = absurd (omega arith)
    scan_prefix (suc n) zero a b small hn hm h = absurd (omega arith)
    scan_prefix (suc n) (suc m) a b small hn hm h = elim (Frame-cases (frame a)) [
      | inl w ↦ rw (scan_wait n a w)
      | inr (inl (p, rest, e)) ↦
          let e' = ok.extends a b p rest small e in
          let less : length rest < length a =
            ok.shrinks a p rest (omega (arith, length-append a b)) e in
          rw (scan-packet n a p rest e) (
            scan_prefix n m rest b (omega (arith, length-append a b, length-append rest b))
              (omega arith) (omega (arith, length-append a b, length-append rest b))
              (rw (scan-packet m (a ++ b) p (rest ++ b) e') at h))
      | inr (inr (x, e)) ↦
          absurd (never (rw (scan_failed m (a ++ b) x (ok.fails a b x small e)) at h))
    ]
      where
        never : {x : Failure} → stopped x ≡ drained → ⊥
        never q = cc

    -- A drained prefix may be decoded first, and what it has left over in front of the rest.
    pub scan_append :
        (n m k : ℕ) (a b : List ℕ)
        → length (a ++ b) < 2 ^ 32
        → length a < n
        → length (a ++ b) < m
        → length (a ++ b) < k
        → (scan frame n a).ending ≡ drained
        → scan frame m (a ++ b) ≡ record (scan frame k ((scan frame n a).rest ++ b)) {
          packets = (scan frame n a).packets ++ (scan frame k ((scan frame n a).rest ++ b)).packets;
        }
    scan_append zero m k a b small hn hm hk h = absurd (omega arith)
    scan_append (suc n) zero k a b small hn hm hk h = absurd (omega arith)
    scan_append (suc n) (suc m) k a b small hn hm hk h = elim (Frame-cases (frame a)) [
      | inl w ↦ rw (scan_wait n a w) (scan_fuel (suc m) k (a ++ b) small hm hk)
      | inr (inl (p, rest, e)) ↦
          let less : length rest < length a =
            ok.shrinks a p rest (omega (arith, length-append a b)) e in
          rw
            (
              scan-packet n a p rest e,
              scan-packet m (a ++ b) p (rest ++ b) (ok.extends a b p rest small e),
            )
            (ap (prepend p) (
              scan_append n m k rest b (omega (arith, length-append a b, length-append rest b))
                (omega arith) (omega (arith, length-append a b, length-append rest b))
                (omega (arith, length-append a b, length-append rest b))
                (rw (scan-packet n a p rest e) at h)))
      | inr (inr (x, e)) ↦ absurd (never (rw (scan_failed n a x e) at h))
    ]
      where
        never : {x : Failure} → stopped x ≡ drained → ⊥
        never q = cc

    -- Where the loop has ended by itself, no packet can be taken yet.
    pub scan_settled :
        (n : ℕ) (a : List ℕ)
        → (scan frame n a).ending ≡ drained
        → frame (scan frame n a).rest ≡ wait
    scan_settled zero a h = unfold scan in absurd (never h)
      where
        never : {x : Failure} → stopped x ≡ drained → ⊥
        never q = cc
    scan_settled (suc n) a h = elim (Frame-cases (frame a)) [
      | inl w ↦ rw (scan_wait n a w) w
      | inr (inl (p, rest, e)) ↦
          rw (scan-packet n a p rest e) (scan_settled n rest (rw (scan-packet n a p rest e) at h))
      | inr (inr (x, e)) ↦ absurd (never (rw (scan_failed n a x e) at h))
    ]
      where
        never : {x : Failure} → stopped x ≡ drained → ⊥
        never q = cc

    pub scan_rest :
        (n : ℕ) (a : List ℕ) → length a < 2 ^ 32 → length (scan frame n a).rest ≤ length a
    scan_rest zero a small = unfold scan in omega arith
    scan_rest (suc n) a small = elim (Frame-cases (frame a)) [
      | inl w ↦ rw (scan_wait n a w) (omega arith)
      | inr (inl (p, rest, e)) ↦ rw (scan-packet n a p rest e) (
          omega (
            arith,
            ok.shrinks a p rest small e,
            scan_rest n rest (omega (arith, ok.shrinks a p rest small e)),
          ))
      | inr (inr (x, e)) ↦ rw (scan_failed n a x e) (omega arith)
    ]

-- The same for the loop with the fuel that the decoders give it.
module _ (frame : List ℕ → Frame) (ok : Framing frame) where
  pub scan_all_wait :
      (s : List ℕ)
      → frame s ≡ wait
      → scan_all frame s ≡ record { packets = []; rest = s; ending = drained }
  unfolding scan_all
  scan_all_wait s e = scan_wait frame (length s) s e

  pub scan_all_prefix :
      (a b : List ℕ)
      → length (a ++ b) < 2 ^ 32
      → (scan_all frame (a ++ b)).ending ≡ drained
      → (scan_all frame a).ending ≡ drained
  unfolding scan_all
  scan_all_prefix a b small h =
      scan_prefix frame ok (suc (length a)) (suc (length (a ++ b))) a b small (omega arith)
        (omega arith) h

  pub scan_all_append :
      (a b : List ℕ)
      → length (a ++ b) < 2 ^ 32
      → (scan_all frame a).ending ≡ drained
      → scan_all frame (a ++ b) ≡ record (scan_all frame ((scan_all frame a).rest ++ b)) {
        packets =
            (scan_all frame a).packets ++ (scan_all frame ((scan_all frame a).rest ++ b)).packets;
      }
  unfolding scan_all
  scan_all_append a b small h =
      rw
        (scan_fuel frame ok (suc (length (rest ++ b))) (suc (length (a ++ b))) (rest ++ b)
          (omega (arith, less)) (omega arith) (omega (arith, less)))
        (scan_append frame ok (suc (length a)) (suc (length (a ++ b))) (suc (length (a ++ b))) a b
          small (omega arith) (omega arith) (omega arith) h)
    where
      rest : List ℕ
      rest = (scan frame (suc (length a)) a).rest

      less : length (rest ++ b) ≤ length (a ++ b)
      less = omega (
        arith,
        length-append rest b,
        length-append a b,
        scan_rest frame ok (suc (length a)) a (omega (arith, length-append a b)),
      )

  pub scan_all_settled :
      (a : List ℕ) → (scan_all frame a).ending ≡ drained → frame (scan_all frame a).rest ≡ wait
  unfolding scan_all
  scan_all_settled a h = scan_settled frame ok (suc (length a)) a h

  pub scan_all_rest : (a : List ℕ) → length a < 2 ^ 32 → length (scan_all frame a).rest ≤ length a
  unfolding scan_all
  scan_all_rest a small = scan_rest frame ok (suc (length a)) a small
