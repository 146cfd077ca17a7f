-- ===== src/Session/Ids.antt =====
-- Message ids and sequence numbers over a session's life.
use cpp_gram.Common.{
  ℕ, suc, ◌+◌, ◌-◌, ◌*◌, ◌/◌, ◌%◌, ◌^◌, ◌<◌, ◌≡◌, ◌⊎◌, refl, ap, ◌∙◌, Bool, true, false, List, [],
  ◌∷◌, length, All, arith, bit_and, bit_or, inl, inr, leb, Bool-cases, leb→lt,
}
use cpp_gram.Common.Bits.{bit_or_fields, bit_or_comm, bit_and_word, bit_and_not3}
use cpp_gram.Common.Bytes.{IsU32, IsU64}
use cpp_gram.Session.{
  Session, with_session_id, set_time_offset, signed, clock_msg_id, generate_msg_id, generate_seq_no,
}

-- What the clock gives: the seconds above, the fraction below.
clock_msg_id_lem :
    (time_offset epoch_ms : ℕ)
    → let seconds = (epoch_ms / 1000 + time_offset) % 2 ^ 64 in
      clock_msg_id time_offset epoch_ms
      ≡ (epoch_ms % 1000 * 4294967 + seconds % 2 ^ 32 * 2 ^ 32) / 4 * 4
unfolding clock_msg_id
clock_msg_id_lem time_offset epoch_ms =
    ap (λ (t : ℕ). bit_and t (2 ^ 64 - 4)) joined
    ∙ bit_and_not3 (fraction + seconds % 2 ^ 32 * 2 ^ 32) (omega arith)
  where
    seconds : ℕ
    seconds = (epoch_ms / 1000 + time_offset) % 2 ^ 64

    fraction : ℕ
    fraction = epoch_ms % 1000 * 4294967

    small : fraction < 2 ^ 32
    small = omega arith

    word : bit_and fraction 0xffffffff ≡ fraction
    word = omega (arith, bit_and_word fraction)

    shifted : seconds * 2 ^ 32 % 2 ^ 64 ≡ seconds % 2 ^ 32 * 2 ^ 32
    shifted = omega arith

    joined :
        bit_or (seconds * 2 ^ 32 % 2 ^ 64) (bit_and fraction 0xffffffff)
        ≡ fraction + seconds % 2 ^ 32 * 2 ^ 32
    joined =
        rw (word, shifted)
          (bit_or_comm (seconds % 2 ^ 32 * 2 ^ 32) fraction
            ∙ bit_or_fields 32 (seconds % 2 ^ 32) fraction small)

-- A clock reading, in milliseconds, that is before the last second of a 31-bit count once it is
-- shifted by the server's offset.
abbrev pub InRange : ℕ → ℕ → Type 0
InRange time_offset epoch_ms = (epoch_ms / 1000 + time_offset) % 2 ^ 64 < 2 ^ 31 - 1

-- One id: it comes after the last one, in the order of int64_t, and is a multiple of four.
generate_msg_id_step :
    (epoch_ms : ℕ) (s : Session)
    → InRange s.time_offset epoch_ms
    → s.last_msg_id < 2 ^ 63 - 4
    → s.last_msg_id % 4 ≡ 0
    → let (msg_id, s1) = generate_msg_id epoch_ms s in
      (s.last_msg_id < msg_id)
      × (msg_id % 4 ≡ 0)
      × ((msg_id < 2 ^ 63 - 2 ^ 32) ⊎ (msg_id ≡ s.last_msg_id + 4))
      × (s1.last_msg_id ≡ msg_id)
      × (s1.time_offset ≡ s.time_offset)
unfolding generate_msg_id
generate_msg_id_step epoch_ms s h small whole =
    elim (Bool-cases (leb (signed clock) (signed s.last_msg_id))) [
      | inl late ↦ rw (late, bump) (omega arith, omega arith, inr refl, refl, refl)
      | inr early ↦ rw early (
        omega (arith, before early),
        omega (arith, value),
        inl (omega (arith, value)),
        refl,
        refl,
      )
    ]
  where
    clock : ℕ
    clock = clock_msg_id s.time_offset epoch_ms

    value :
        clock
        ≡ (epoch_ms % 1000 * 4294967 + (epoch_ms / 1000 + s.time_offset) % 2 ^ 64 % 2 ^ 32 * 2 ^ 32)
          / 4
          * 4
    value = clock_msg_id_lem s.time_offset epoch_ms

    bump : (s.last_msg_id + 4) % 2 ^ 64 ≡ s.last_msg_id + 4
    bump = omega arith

    before : leb (signed clock) (signed s.last_msg_id) ≡ false → s.last_msg_id < clock
    before e = omega (arith, leb→lt (signed clock) (signed s.last_msg_id) e, value)

pub generate_msg_id-IsU64 : (epoch_ms : ℕ) (s : Session) → IsU64 (generate_msg_id epoch_ms s).0
unfolding generate_msg_id
generate_msg_id-IsU64 epoch_ms s =
    elim (Bool-cases (leb (signed (clock_msg_id s.time_offset epoch_ms)) (signed s.last_msg_id))) [
      | inl e ↦ rw e (omega arith)
      | inr e ↦ rw e (omega (arith, clock_msg_id_lem s.time_offset epoch_ms))
    ]

pub generate_seq_no-IsU32 : (content : Bool) (s : Session) → IsU32 (generate_seq_no content s).0
unfolding generate_seq_no
generate_seq_no-IsU32 true s = omega arith
generate_seq_no-IsU32 false s = omega arith

-- The ids of one call after the other, each at its own time.
unfoldable pub generate_msg_ids : List ℕ → Session → List ℕ
generate_msg_ids [] s = []
generate_msg_ids (epoch_ms ∷ times) s =
    let (msg_id, s1) = generate_msg_id epoch_ms s in msg_id ∷ generate_msg_ids times s1

-- Each is above the one before it, and the first above `last`.
abbrev pub Increasing : ℕ → List ℕ → Type 0
Increasing last [] = Unit
Increasing last (x ∷ xs) = (last < x) × Increasing x xs

abbrev pub IsMsgId : ℕ → Type 0
IsMsgId x = (x % 4 ≡ 0) × (x < 2 ^ 63)

generate_msg_ids_from :
    (times : List ℕ) (s : Session) (k : ℕ)
    → All (InRange s.time_offset) times
    → s.last_msg_id < 2 ^ 63 - 2 ^ 32 + 4 * k
    → k + length times < 2 ^ 30
    → s.last_msg_id % 4 ≡ 0
    → Increasing s.last_msg_id (generate_msg_ids times s) × All IsMsgId (generate_msg_ids times s)
unfolding generate_msg_ids
generate_msg_ids_from [] s k h small few whole = (tt, tt)
generate_msg_ids_from (epoch_ms ∷ times) s k h small few whole =
    let (less, four, bound, last, offset) =
      generate_msg_id_step epoch_ms s h.0 (omega arith) whole in
    let s1 = (generate_msg_id epoch_ms s).1 in
    let near : s1.last_msg_id < 2 ^ 63 - 2 ^ 32 + 4 * suc k = elim bound [
      | inl b ↦ omega (arith, last)
      | inr b ↦ omega (arith, last)
    ] in
    let (rest, ids) =
      generate_msg_ids_from times s1 (suc k) (rw offset h.1) near (omega arith)
        (omega (arith, last)) in
    ((less, rw (← last) rest), ((four, omega (arith, last, near)), ids))

-- Fewer than 2 ^ 30 ids of a session, asked for at any times within the 31-bit count of seconds, in
-- any order and however close together: they grow strictly, as signed numbers too since they are
-- below 2 ^ 63, and each is a multiple of four, as those of a client must be.
pub generate_msg_ids_increase :
    (session_id time_offset : ℕ) (times : List ℕ)
    → let s = set_time_offset time_offset (with_session_id session_id) in
      All (InRange time_offset) times
      → length times < 2 ^ 30
      → Increasing 0 (generate_msg_ids times s) × All IsMsgId (generate_msg_ids times s)
unfolding with_session_id
generate_msg_ids_increase session_id time_offset times h few =
    generate_msg_ids_from times (set_time_offset time_offset (with_session_id session_id)) 0 h
      (omega arith) (omega arith) refl

-- The sequence numbers of one call after the other.
unfoldable pub generate_seq_nos : List Bool → Session → List ℕ
generate_seq_nos [] s = []
generate_seq_nos (content ∷ kinds) s =
    let (seq_no, s1) = generate_seq_no content s in seq_no ∷ generate_seq_nos kinds s1

-- How many content-related messages are among them.
abbrev pub content_count : List Bool → ℕ
content_count [] = 0
content_count (true ∷ kinds) = suc (content_count kinds)
content_count (false ∷ kinds) = content_count kinds

-- What the protocol asks for: twice the number of the content-related messages before, and one more
-- for a content-related message.
abbrev pub expected_seq_nos : ℕ → List Bool → List ℕ
expected_seq_nos before [] = []
expected_seq_nos before (true ∷ kinds) = (2 * before + 1) ∷ expected_seq_nos (suc before) kinds
expected_seq_nos before (false ∷ kinds) = (2 * before) ∷ expected_seq_nos before kinds

-- As long as twice the content-related messages of the session fit 31 bits, its sequence numbers are those that the
-- protocol asks for.
pub generate_seq_nos-expected :
    (kinds : List Bool) (s : Session)
    → s.content_seq_no + content_count kinds < 2 ^ 30
    → generate_seq_nos kinds s ≡ expected_seq_nos s.content_seq_no kinds
unfolding generate_seq_nos generate_seq_no
generate_seq_nos-expected [] s h = refl
generate_seq_nos-expected (true ∷ kinds) s h =
    rw
      (
        generate_seq_nos-expected kinds
            (record s { content_seq_no = (s.content_seq_no + 1) % 2 ^ 32 }) (omega arith),
        now,
        next,
      )
      refl
  where
    now : (s.content_seq_no * 2 + 1) % 2 ^ 32 ≡ 2 * s.content_seq_no + 1
    now = omega arith

    next : (s.content_seq_no + 1) % 2 ^ 32 ≡ suc s.content_seq_no
    next = omega arith
generate_seq_nos-expected (false ∷ kinds) s h = rw (generate_seq_nos-expected kinds s h, now) refl
  where
    now : s.content_seq_no * 2 % 2 ^ 32 ≡ 2 * s.content_seq_no
    now = omega arith
