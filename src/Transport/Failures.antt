-- ===== src/Transport/Failures.antt =====
-- How a call of `decode_packets` ends on any input, and what a failure leaves behind.
use cpp_gram.Common.{
  ℕ, zero, suc, ◌^◌, ◌<◌, ◌≡◌, refl, sym, ◌∙◌, ◌≢◌, inl, inr, List, [], ◌∷◌, ◌++◌, length,
  length-append, arith, Outcome, ok, throws,
}
use cpp_gram.Transport.{
  failed, Failure, no_progress, drained, stopped, Ending, Decoded, scan, scan_all, Codec,
  abridged_codec, intermediate_codec, full_codec, abridged_frame, intermediate_frame, full_frame,
  decode_packets, answer,
}
use cpp_gram.Transport.Scan.{Frame-cases, scan_wait, scan-packet, scan_failed, scan_progress}
use cpp_gram.Transport.Exchange.{Format, format_of, frame_of, buffer_of, format-Framing}

frame-ne-no_progress : (f : Format) (s : List ℕ) → frame_of f s ≢ failed no_progress
unfolding abridged_frame intermediate_frame full_frame
frame-ne-no_progress Format.abridged [] e = cc
frame-ne-no_progress Format.abridged (b ∷ s) e = ground arith
frame-ne-no_progress Format.intermediate s e = ground arith
frame-ne-no_progress Format.full s e = ground arith

answer_of : (d : Decoded) (e : Failure) → answer d ≡ throws e → d.ending ≡ stopped e
answer_of d e h = by_ending d.ending h
  where
    by_ending :
        (x : Ending)
        → (elim x as (λ _. Outcome Failure (List (List ℕ))) [
          | drained ↦ ok d.packets
          | stopped y ↦ throws y
        ])
          ≡ throws e
        → x ≡ stopped e
    by_ending drained q = cc
    by_ending (stopped y) q = cc

answer_stopped : (d : Decoded) (e : Failure) → d.ending ≡ stopped e → answer d ≡ throws e
answer_stopped d e h = rw h

decoded_of :
    (c : Codec) (x : List ℕ)
    → (decode_packets c x).0 ≡ answer (scan_all (frame_of (format_of c)) (buffer_of c ++ x))
unfolding decode_packets
decoded_of (abridged_codec b) x = refl
decoded_of (intermediate_codec b) x = refl
decoded_of (full_codec c) x = refl

-- A call on less than 4 GiB comes to an end: the decoder's loop makes progress in every turn.
pub decode_packets_ends :
    (c : Codec) (bytes : List ℕ)
    → length (buffer_of c ++ bytes) < 2 ^ 32
    → (decode_packets c bytes).0 ≢ throws no_progress
decode_packets_ends c bytes small h =
    scan_progress (frame_of (format_of c)) (format-Framing (format_of c))
      (suc (length (buffer_of c ++ bytes))) (buffer_of c ++ bytes) small (omega arith)
      (frame-ne-no_progress (format_of c))
      (unfold scan_all in
        answer_of (scan_all (frame_of (format_of c)) (buffer_of c ++ bytes)) no_progress
          (sym (decoded_of c bytes) ∙ h))

-- A failure stays one when more bytes follow.
scan_stays_stopped :
    (f : Format) (n m : ℕ) (a b : List ℕ) (x : Failure)
    → length (a ++ b) < 2 ^ 32
    → length a < n
    → length (a ++ b) < m
    → (scan (frame_of f) n a).ending ≡ stopped x
    → (scan (frame_of f) m (a ++ b)).ending ≡ stopped x
scan_stays_stopped f zero m a b x small hn hm h = absurd (omega arith)
scan_stays_stopped f (suc n) zero a b x small hn hm h = absurd (omega arith)
scan_stays_stopped f (suc n) (suc m) a b x small hn hm h = elim (Frame-cases (frame_of f a)) [
  | inl w ↦ absurd (cc (rw (scan_wait (frame_of f) n a w) at h))
  | inr (inl (p, rest, e)) ↦
      let e' = (format-Framing f).extends a b p rest small e in
      let less : length rest < length a =
        (format-Framing f).shrinks a p rest (omega (arith, length-append a b)) e in
      rw (scan-packet (frame_of f) m (a ++ b) p (rest ++ b) e') (
        scan_stays_stopped f n m rest b x (omega (arith, length-append a b, length-append rest b))
          (omega arith) (omega (arith, length-append a b, length-append rest b))
          (rw (scan-packet (frame_of f) n a p rest e) at h))
  | inr (inr (y, e)) ↦
      rw (scan_failed (frame_of f) m (a ++ b) y ((format-Framing f).fails a b y small e))
        (rw (scan_failed (frame_of f) n a y e) at h)
]

kept_by_failure :
    (c : Codec) (x : List ℕ) (e : Failure)
    → (scan_all (frame_of (format_of c)) (buffer_of c ++ x)).ending ≡ stopped e
    → (buffer_of (decode_packets c x).1 ≡ buffer_of c ++ x)
      × (format_of (decode_packets c x).1 ≡ format_of c)
unfolding decode_packets
kept_by_failure (abridged_codec b) x e h = (rw h, refl)
kept_by_failure (intermediate_codec b) x e h = (rw h, refl)
kept_by_failure (full_codec c) x e h = (rw h, refl)

-- After a call that failed, the next call fails in the same way, whatever bytes it is given, if the
-- buffer stays below 4 GiB: the bytes that made it fail are still in front.
pub decode_packets_poisoned :
    (c : Codec) (x y : List ℕ) (e : Failure)
    → length ((buffer_of c ++ x) ++ y) < 2 ^ 32
    → (decode_packets c x).0 ≡ throws e
    → (decode_packets (decode_packets c x).1 y).0 ≡ throws e
decode_packets_poisoned c x y e small h =
    decoded_of (decode_packets c x).1 y
    ∙ rw (kept.0, kept.1)
        (answer_stopped (scan_all (frame_of (format_of c)) ((buffer_of c ++ x) ++ y)) e (
          unfold scan_all in
          scan_stays_stopped (format_of c) (suc (length (buffer_of c ++ x)))
            (suc (length ((buffer_of c ++ x) ++ y))) (buffer_of c ++ x) y e small (omega arith)
            (omega arith) stops))
  where
    stops : (scan_all (frame_of (format_of c)) (buffer_of c ++ x)).ending ≡ stopped e
    stops =
        answer_of (scan_all (frame_of (format_of c)) (buffer_of c ++ x)) e
          (sym (decoded_of c x) ∙ h)

    kept :
        (buffer_of (decode_packets c x).1 ≡ buffer_of c ++ x)
        × (format_of (decode_packets c x).1 ≡ format_of c)
    kept = kept_by_failure c x e stops
