-- ===== src/Transport/Intermediate.antt =====
-- The intermediate format.
use cpp_gram.Common.{
  ℕ, ◌+◌, ◌-◌, ◌%◌, ◌^◌, ◌≤◌, ◌<◌, ◌≡◌, refl, ◌∙◌, ◌⊎◌, inl, inr, List, [], ◌++◌, length, take,
  drop, length-append, length-drop, slice-append, slice-middle, drop-middle, get_or-append,
  drop-append_le, arith, ltb, lt→ltb, ltb→lt, ltb→le, Bool-cases, if◌then◌else◌,
}
use cpp_gram.Common.Bytes.{le32-byte_at}
use cpp_gram.Transport.{
  Frame, wait, packet, failed, intermediate_frame, intermediate_encode, length_field, word_bytes,
  Failure, out_of_bounds,
}
use cpp_gram.Transport.Scan.{Framing}

-- The length field does not move when more bytes follow.
pub length_field-append : (s t : List ℕ) → 4 ≤ length s → length_field (s ++ t) ≡ length_field s
length_field-append s t h = rw (
  get_or-append s t 0 0 (omega arith),
  get_or-append s t 1 0 (omega arith),
  get_or-append s t 2 0 (omega arith),
  get_or-append s t 3 0 (omega arith),
)

-- One turn over the length `n` that the field holds.
abbrev sized : ℕ → List ℕ → Frame
sized n s =
    if ltb (length s) 4
    then wait
    else if ltb (length s) ((4 + n) % 2 ^ 32)
    then wait
    else if ltb (length s) (4 + n)
    then failed out_of_bounds
    else packet (take n (drop 4 s)) (drop ((4 + n) % 2 ^ 32) s)

sized_shrinks :
    (n : ℕ) (s p rest : List ℕ)
    → length s < 2 ^ 32
    → sized n s ≡ packet p rest
    → length rest < length s
sized_shrinks n s p rest small e = ground (arith, length-drop ((4 + n) % 2 ^ 32) s)

sized_extends :
    (n : ℕ) (s t p rest : List ℕ)
    → sized n s ≡ packet p rest
    → sized n (s ++ t) ≡ packet p (rest ++ t)
sized_extends n s t p rest e =
    ground (arith, length-append s t, slice-append 4 n s t, drop-append_le ((4 + n) % 2 ^ 32) s t)

sized_fails :
    (n : ℕ) (s t : List ℕ) (x : Failure)
    → length (s ++ t) < 2 ^ 32
    → sized n s ≡ failed x
    → sized n (s ++ t) ≡ failed x
sized_fails n s t x small e = ground (arith, length-append s t)

four : (s : List ℕ) → (length s < 4) ⊎ (4 ≤ length s)
four s = elim (Bool-cases (ltb (length s) 4)) [
  | inl h ↦ inl (ltb→lt _ _ h)
  | inr h ↦ inr (ltb→le _ _ h)
]

few : (s : List ℕ) → length s < 4 → intermediate_frame s ≡ wait
unfolding intermediate_frame
few s h = rw (lt→ltb _ _ h)

pub intermediate-Framing : Framing intermediate_frame
intermediate-Framing = record {
  nothing = few [] (omega arith);
  shrinks = λ s p rest small e.
      unfold intermediate_frame in sized_shrinks (length_field s) s p rest small e;
  extends = λ s t p rest small e. extends s t p rest (four s) e;
  fails = λ s t x small e. fails s t x small (four s) e;
}
  where
    extends :
        (s t p rest : List ℕ)
        → (length s < 4) ⊎ (4 ≤ length s)
        → intermediate_frame s ≡ packet p rest
        → intermediate_frame (s ++ t) ≡ packet p (rest ++ t)
    extends s t p rest (inl h) e = cc (few s h)
    extends s t p rest (inr h) e =
        unfold intermediate_frame in
        rw (length_field-append s t h) (sized_extends (length_field s) s t p rest e)

    fails :
        (s t : List ℕ) (x : Failure)
        → length (s ++ t) < 2 ^ 32
        → (length s < 4) ⊎ (4 ≤ length s)
        → intermediate_frame s ≡ failed x
        → intermediate_frame (s ++ t) ≡ failed x
    fails s t x small (inl h) e = cc (few s h)
    fails s t x small (inr h) e =
        unfold intermediate_frame in
        rw (length_field-append s t h) (sized_fails (length_field s) s t x small e)

abbrev pub IntermediateFits : List ℕ → Type 0
IntermediateFits p = length p < 2 ^ 32 - 4

sized_append :
    (head p t : List ℕ)
    → length head ≡ 4
    → IntermediateFits p
    → sized (length p) (head ++ (p ++ t)) ≡ packet p t
sized_append head p t e h = ground (
  arith,
  length-append head (p ++ t),
  length-append p t,
  slice-middle head p t,
  drop-middle head p t,
  e,
)

-- The encoder's frame in front of anything is taken off as the payload.
pub intermediate-reads :
    (p t : List ℕ)
    → IntermediateFits p
    → intermediate_frame (intermediate_encode p ++ t) ≡ packet p t
unfolding intermediate_encode intermediate_frame
intermediate-reads p t h = rw field (sized_append (word_bytes (length p % 2 ^ 32)) p t refl h)
  where
    small : length p % 2 ^ 32 ≡ length p
    small = omega arith

    field : length_field (word_bytes (length p % 2 ^ 32) ++ (p ++ t)) ≡ length p
    field = le32-byte_at (length p % 2 ^ 32) (omega arith) ∙ small
