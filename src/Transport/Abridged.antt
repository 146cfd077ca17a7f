-- ===== src/Transport/Abridged.antt =====
-- The abridged format: its frames, and what the encoder makes of a payload.
use cpp_gram.Common.{
  ℕ, ◌+◌, ◌*◌, ◌/◌, ◌%◌, ◌^◌, ◌≤◌, ◌<◌, ◌≡◌, refl, ◌≢◌, inl, inr, List, [], ◌∷◌, ◌++◌, length,
  length-append, length-drop, slice-append, slice-middle, drop-middle, get_or-append,
  drop-append_le, arith, ltb, le→ltb, lt→ltb, ltb→lt, Bool-cases,
}
use cpp_gram.Common.Bytes.{byte_at, le24-byte_at}
use cpp_gram.Transport.{packet, failed, take_frame, abridged_frame, abridged_encode, Failure}
use cpp_gram.Transport.Scan.{Framing}

take_frame_shrinks :
    (h n : ℕ) (s p rest : List ℕ)
    → 0 < h
    → take_frame h n s ≡ packet p rest
    → length rest < length s
take_frame_shrinks h n s p rest pos e = ground (arith, length-drop (h + n) s)

take_frame_extends :
    (h n : ℕ) (s t p rest : List ℕ)
    → take_frame h n s ≡ packet p rest
    → take_frame h n (s ++ t) ≡ packet p (rest ++ t)
take_frame_extends h n s t p rest e =
    ground (arith, length-append s t, slice-append h n s t, drop-append_le (h + n) s t)

take_frame_append :
    (head p t : List ℕ) → take_frame (length head) (length p) (head ++ (p ++ t)) ≡ packet p t
take_frame_append head p t = ground (
  arith,
  length-append head (p ++ t),
  length-append p t,
  slice-middle head p t,
  drop-middle head p t,
)

never_fails : (s : List ℕ) (e : Failure) → abridged_frame s ≢ failed e
unfolding abridged_frame
never_fails [] e q = cc
never_fails (b ∷ s) e q = ground arith

shrinks : (s p rest : List ℕ) → abridged_frame s ≡ packet p rest → length rest < length s
unfolding abridged_frame
shrinks [] p rest e = cc
shrinks (b ∷ s) p rest e = elim (Bool-cases (ltb b 0x7f)) [
  | inl short ↦ take_frame_shrinks 1 (b * 4) (b ∷ s) p rest (omega arith) (rw short at e)
  | inr long ↦ elim (Bool-cases (ltb (length (b ∷ s)) 4)) [
    | inl few ↦ ground arith
    | inr enough ↦ take_frame_shrinks 4 _ (b ∷ s) p rest (omega arith) (rw (long, enough) at e)
  ]
]

extends :
    (s t p rest : List ℕ)
    → abridged_frame s ≡ packet p rest
    → abridged_frame (s ++ t) ≡ packet p (rest ++ t)
unfolding abridged_frame
extends [] t p rest e = cc
extends (b ∷ s) t p rest e = elim (Bool-cases (ltb b 0x7f)) [
  | inl short ↦ rw short (take_frame_extends 1 (b * 4) (b ∷ s) t p rest (rw short at e))
  | inr long ↦ elim (Bool-cases (ltb (length (b ∷ s)) 4)) [
    | inl few ↦ ground arith
    | inr enough ↦
        let room : 3 ≤ length s = ground arith in
        rw
          (
            long,
            le→ltb (length (b ∷ (s ++ t))) 4 (omega (arith, length-append s t)),
            get_or-append s t 0 0 (omega arith),
            get_or-append s t 1 0 (omega arith),
            get_or-append s t 2 0 (omega arith),
          )
          (take_frame_extends 4 _ (b ∷ s) t p rest (rw (long, enough) at e))
  ]
]

pub abridged-Framing : Framing abridged_frame
abridged-Framing = record {
  nothing = unfold abridged_frame in refl;
  shrinks = λ s p rest small e. shrinks s p rest e;
  extends = λ s t p rest small e. extends s t p rest e;
  fails = λ s t e small q. absurd (never_fails s e q);
}

-- A payload whose length the format can express.
abbrev pub AbridgedFits : List ℕ → Type 0
AbridgedFits p = (length p % 4 ≡ 0) × (length p < 2 ^ 26)

pub short_reads :
    (w : ℕ) (p t : List ℕ)
    → w < 127
    → w * 4 ≡ length p
    → abridged_frame ((w % 256) ∷ (p ++ t)) ≡ packet p t
unfolding abridged_frame
short_reads w p t h e = rw (byte, lt→ltb w 0x7f h, e) (take_frame_append (w ∷ []) p t)
  where
    byte : w % 256 ≡ w
    byte = omega arith

pub long_reads :
    (w : ℕ) (p t : List ℕ)
    → w < 2 ^ 24
    → w * 4 ≡ length p
    → abridged_frame (0x7f ∷ byte_at w 0 ∷ byte_at w 1 ∷ byte_at w 2 ∷ (p ++ t)) ≡ packet p t
unfolding abridged_frame
long_reads w p t h e =
    rw
      (
        le→ltb (length (0x7f ∷ byte_at w 0 ∷ byte_at w 1 ∷ byte_at w 2 ∷ (p ++ t))) 4 (omega arith),
        le24-byte_at w h,
        e,
      )
      (take_frame_append (0x7f ∷ byte_at w 0 ∷ byte_at w 1 ∷ byte_at w 2 ∷ []) p t)

-- The encoder's frame in front of anything is taken off as the payload.
pub abridged-reads :
    (p t : List ℕ) → AbridgedFits p → abridged_frame (abridged_encode p ++ t) ≡ packet p t
unfolding abridged_encode
abridged-reads p t h = elim (Bool-cases (ltb ((length p + 3) / 4) 127)) [
  | inl short ↦ rw short (short_reads ((length p + 3) / 4) p t (ltb→lt _ _ short) (omega arith))
  | inr long ↦ rw long (long_reads ((length p + 3) / 4) p t (omega arith) (omega arith))
]
