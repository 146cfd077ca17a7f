-- ===== src/Transport/Full.antt =====
-- The full format: sequence number and checksum.
use cpp_gram.Common.{
  ℕ, ◌+◌, ◌-◌, ◌*◌, ◌%◌, ◌^◌, ◌≤◌, ◌<◌, ◌≡◌, refl, ap, ◌∙◌, ◌⊎◌, inl, inr, List, [], ◌++◌, length,
  take, drop, get_or, length-append, length-drop, slice-append, drop-middle, get_or-append,
  get_or-append_right, take-append, take-append_le, drop-append_le, arith, ltb, ◌==◌, not, ◌||◌,
  lt→ltb, ltb→lt, ltb→le, Bool-cases, if◌then◌else◌, append_assoc,
}
use cpp_gram.Common.Bytes.{le32-byte_at}
use cpp_gram.Transport.{
  Frame, wait, packet, failed, full_frame, full_encode, length_field, crc_field, word_bytes,
  unchecked, Failure, invalid_length, crc_mismatch,
}
use cpp_gram.Transport.Crc.{compute_crc32, compute_crc32-lt}
use cpp_gram.Transport.Scan.{Framing}
use cpp_gram.Transport.Intermediate.{length_field-append}

-- One turn over the length `n` that the field holds.
abbrev sized : ℕ → List ℕ → Frame
sized n s =
    if ltb (length s) 12
    then wait
    else if ltb n 12 || ltb (16 * 1024 * 1024) n
    then failed invalid_length
    else if ltb (length s) n
    then wait
    else if not (crc_field n s == compute_crc32 (take (n - 4) s))
    then failed crc_mismatch
    else packet (take (n - 12) (drop 8 s)) (drop n s)

crc_field-append :
    (n : ℕ) (s t : List ℕ) → 12 ≤ n → n ≤ length s → crc_field n (s ++ t) ≡ crc_field n s
crc_field-append n s t low h = rw (
  get_or-append s t (n - 4) 0 (omega arith),
  get_or-append s t (n - 3) 0 (omega arith),
  get_or-append s t (n - 2) 0 (omega arith),
  get_or-append s t (n - 1) 0 (omega arith),
)

checksum-append :
    (n : ℕ) (s t : List ℕ)
    → n ≤ length s
    → compute_crc32 (take (n - 4) (s ++ t)) ≡ compute_crc32 (take (n - 4) s)
checksum-append n s t h = ap compute_crc32 (take-append_le (n - 4) s t (omega arith))

sized_shrinks : (n : ℕ) (s p rest : List ℕ) → sized n s ≡ packet p rest → length rest < length s
sized_shrinks n s p rest e = ground (arith, length-drop n s)

sized_extends :
    (n : ℕ) (s t p rest : List ℕ)
    → sized n s ≡ packet p rest
    → sized n (s ++ t) ≡ packet p (rest ++ t)
sized_extends n s t p rest e = ground (
  arith,
  length-append s t,
  crc_field-append n s t,
  checksum-append n s t,
  slice-append 8 (n - 12) s t,
  drop-append_le n s t,
)

sized_fails :
    (n : ℕ) (s t : List ℕ) (x : Failure) → sized n s ≡ failed x → sized n (s ++ t) ≡ failed x
sized_fails n s t x e =
    ground (arith, length-append s t, crc_field-append n s t, checksum-append n s t)

twelve : (s : List ℕ) → (length s < 12) ⊎ (12 ≤ length s)
twelve s = elim (Bool-cases (ltb (length s) 12)) [
  | inl h ↦ inl (ltb→lt _ _ h)
  | inr h ↦ inr (ltb→le _ _ h)
]

few : (s : List ℕ) → length s < 12 → full_frame s ≡ wait
unfolding full_frame
few s h = rw (lt→ltb _ _ h)

pub full-Framing : Framing full_frame
full-Framing = record {
  nothing = few [] (omega arith);
  shrinks = λ s p rest small e. unfold full_frame in sized_shrinks (length_field s) s p rest e;
  extends = λ s t p rest small e. extends s t p rest (twelve s) e;
  fails = λ s t x small e. fails s t x (twelve s) e;
}
  where
    extends :
        (s t p rest : List ℕ)
        → (length s < 12) ⊎ (12 ≤ length s)
        → full_frame s ≡ packet p rest
        → full_frame (s ++ t) ≡ packet p (rest ++ t)
    extends s t p rest (inl h) e = cc (few s h)
    extends s t p rest (inr h) e =
        unfold full_frame in
        rw (length_field-append s t (omega arith)) (sized_extends (length_field s) s t p rest e)

    fails :
        (s t : List ℕ) (x : Failure)
        → (length s < 12) ⊎ (12 ≤ length s)
        → full_frame s ≡ failed x
        → full_frame (s ++ t) ≡ failed x
    fails s t x (inl h) e = cc (few s h)
    fails s t x (inr h) e =
        unfold full_frame in
        rw (length_field-append s t (omega arith)) (sized_fails (length_field s) s t x e)

-- The decoder's limit is 16 MiB for the whole frame.
abbrev pub FullFits : List ℕ → Type 0
FullFits p = length p + 12 ≤ 16 * 1024 * 1024

module _ (seq : ℕ) (p t : List ℕ) (fits : FullFits p) where
  total : ℕ
  total = length p + 12

  head : List ℕ
  head = word_bytes (total % 2 ^ 32) ++ word_bytes seq

  out : List ℕ
  out = head ++ p

  crc : ℕ
  crc = compute_crc32 out

  stream : List ℕ
  stream = out ++ (word_bytes crc ++ t)

  length-out : length out ≡ length p + 8
  unfolding out head
  length-out = omega (arith, length-append head p)

  field : length_field stream ≡ total
  unfolding stream out head total
  field = le32-byte_at ((length p + 12) % 2 ^ 32) (omega arith) ∙ small
    where
      small : (length p + 12) % 2 ^ 32 ≡ length p + 12
      small = omega arith

  byte_behind :
      (i j : ℕ) → j ≡ length out + i → get_or stream j 0 ≡ get_or (word_bytes crc ++ t) i 0
  unfolding stream
  byte_behind i j e = get_or-append_right out (word_bytes crc ++ t) i j 0 e

  crc_read : crc_field total stream ≡ crc
  unfolding total
  crc_read =
      rw
        (
          byte_behind 0 (length p + 12 - 4) (omega (arith, length-out)),
          byte_behind 1 (length p + 12 - 3) (omega (arith, length-out)),
          byte_behind 2 (length p + 12 - 2) (omega (arith, length-out)),
          byte_behind 3 (length p + 12 - 1) (omega (arith, length-out)),
        )
        (le32-byte_at crc (unfold crc in compute_crc32-lt out))

  checksum : compute_crc32 (take (total - 4) stream) ≡ crc
  unfolding crc stream total
  checksum = ap compute_crc32 (
      take-append (length p + 12 - 4) out (word_bytes (compute_crc32 out) ++ t)
        (omega (arith, length-out)))

  payload : take (total - 12) (drop 8 stream) ≡ p
  unfolding stream out head total
  payload =
      ap (λ (k : ℕ). take k (p ++ (word_bytes crc ++ t))) twelve_off
      ∙ take-append (length p) p (word_bytes crc ++ t) refl
    where
      twelve_off : length p + 12 - 12 ≡ length p
      twelve_off = omega arith

  behind : drop total stream ≡ t
  unfolding stream total
  behind = ap (λ (k : ℕ). drop k stream) (sum) ∙ drop-middle out (word_bytes crc) t
    where
      sum : length p + 12 ≡ length out + length (word_bytes crc)
      sum = omega (arith, length-out)

  length-stream : length stream ≡ length p + 12 + length t
  unfolding stream
  length-stream =
      omega (
        arith,
        length-append out (word_bytes crc ++ t),
        length-append (word_bytes crc) t,
        length-out,
      )

  total_lem : total ≡ length p + 12
  unfolding total
  total_lem = refl

  stream-reads : full_frame stream ≡ packet p t
  unfolding full_frame
  stream-reads =
      rw field (ground (arith, crc_read, checksum, payload, behind, length-stream, total_lem))

-- The encoder's frame in front of anything is taken off as the payload, whatever its number.
pub full-reads :
    (seq : ℕ) (p t : List ℕ) → FullFits p → full_frame (full_encode seq p ++ t) ≡ packet p t
unfolding full_encode stream out head crc total
full-reads seq p t fits =
    ap full_frame (append_assoc (unchecked seq p) (word_bytes (compute_crc32 (unchecked seq p))) t)
    ∙ stream-reads seq p t fits
