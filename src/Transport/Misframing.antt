-- ===== src/Transport/Misframing.antt =====
-- Where the codecs do not keep to the protocol.
use cpp_gram.Common.{
  ℕ, ◌+◌, ◌-◌, ◌*◌, ◌/◌, ◌%◌, ◌^◌, ◌≤◌, ◌<◌, ◌≡◌, ◌↔◌, ◌≢◌, List, ◌++◌, take, drop, get_or,
  take-append-drop, length-take, length, length-append, arith, All, ltb, ltb→lt, append_assoc,
  Bool-cases, inl, inr,
}
use cpp_gram.Common.Bytes.{IsByte, get_or-IsByte, le32_lem}
use cpp_gram.Transport.{
  packet, failed, out_of_bounds, length_field, intermediate_frame, abridged_frame, abridged_encode,
}
use cpp_gram.Transport.Abridged.{short_reads, long_reads}

length_field-lt : (s : List ℕ) → All IsByte s → length_field s < 2 ^ 32
length_field-lt s h = omega (
  arith,
  le32_lem (get_or s 0 0) (get_or s 1 0) (get_or s 2 0) (get_or s 3 0) (get_or-IsByte s 0 h)
      (get_or-IsByte s 1 h) (get_or-IsByte s 2 h),
  get_or-IsByte s 0 h,
  get_or-IsByte s 1 h,
  get_or-IsByte s 2 h,
  get_or-IsByte s 3 h,
)

-- The intermediate decoder reads outside its buffer exactly when the peer announces 2 ^ 32 - 4 bytes
-- or more: the sum with the header then wraps to at most 3, and passes the test for enough bytes.
-- (For a buffer of at least four bytes and less than 4 GiB.)
pub intermediate_frame_out_of_bounds :
    (s : List ℕ)
    → All IsByte s
    → 4 ≤ length s
    → length s < 2 ^ 32
    → (intermediate_frame s ≡ failed out_of_bounds) ↔ (2 ^ 32 - 4 ≤ length_field s)
unfolding intermediate_frame
intermediate_frame_out_of_bounds s bytes enough small =
    (λ h. ground (arith, length_field-lt s bytes), λ h. ground (arith, length_field-lt s bytes))

-- The abridged encoder counts whole words, but adds no padding. A payload that is not a whole number
-- of words takes the first bytes of what follows it into its packet, with either form of the length:
-- whenever the number of words fits the three bytes of the long form, and enough bytes follow.
pub abridged_frame_unaligned :
    (p t : List ℕ)
    → length p % 4 ≢ 0
    → length p + 3 < 2 ^ 26
    → 4 - length p % 4 ≤ length t
    → abridged_frame (abridged_encode p ++ t)
      ≡ packet (p ++ take (4 - length p % 4) t) (drop (4 - length p % 4) t)
unfolding abridged_encode
abridged_frame_unaligned p t odd fits enough = elim (Bool-cases (ltb ((length p + 3) / 4) 127)) [
  | inl short ↦
      rw (short, behind)
        (short_reads ((length p + 3) / 4) (p ++ take k t) (drop k t) (ltb→lt _ _ short) words)
  | inr long ↦
      rw (long, behind)
        (long_reads ((length p + 3) / 4) (p ++ take k t) (drop k t) (omega arith) words)
]
  where
    k : ℕ
    k = 4 - length p % 4

    behind : p ++ t ≡ (p ++ take k t) ++ drop k t
    behind = rw (append_assoc p (take k t) (drop k t), take-append-drop k t)

    words : (length p + 3) / 4 * 4 ≡ length (p ++ take k t)
    words = omega (arith, length-append p (take k t), length-take k t, odd)
