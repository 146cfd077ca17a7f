-- ===== src/Session/Plaintext.antt =====
-- The plaintext of a message under an authorisation key: its padding and its fields.
use cpp_gram.Common.{
  ℕ, ◌+◌, ◌-◌, ◌%◌, ◌^◌, ◌≤◌, ◌<◌, ◌≡◌, refl, sym, ap, ◌∙◌, List, ◌++◌, length, take, drop, slice,
  arith, length-append, slice-skip, slice-here, drop-append, drop-drop, append_assoc, All,
  All-append, le→ltb,
}
use cpp_gram.Common.Bytes.{
  to_le, of_le, length-to_le, of_le-to_le, to_le-IsByte, IsByte, IsU32, IsU64,
}
use cpp_gram.Session.{Session, MtprotoMessage, accepted, pad_length, inner_bytes, read_plaintext}
use cpp_gram.Session.Unencrypted.{take_payload_whole}

-- The padding is what the protocol asks for: 12 to 27 bytes, up to a whole number of blocks.
pub pad_length_lem :
    (n : ℕ) → (12 ≤ pad_length n) × (pad_length n ≤ 27) × ((n + pad_length n) % 16 ≡ 0)
unfolding pad_length
pad_length_lem n = (ground arith, ground arith, ground arith)

-- The plaintext's fields are read back, whatever padding follows.
module _ (s : Session) (msg_id seq_no : ℕ) (payload padding : List ℕ) (id : IsU64 msg_id)
    (seq : IsU32 seq_no) (small : 32 + length payload < 2 ^ 32) where
  pub plain : List ℕ
  plain =
      to_le 8 s.server_salt
      ++ (to_le 8 s.session_id
          ++ (to_le 8 msg_id
              ++ (to_le 4 seq_no ++ (to_le 4 (length payload % 2 ^ 32) ++ (payload ++ padding)))))

  header : List ℕ
  header =
      to_le 8 s.server_salt
      ++ (to_le 8 s.session_id
          ++ (to_le 8 msg_id ++ (to_le 4 seq_no ++ to_le 4 (length payload % 2 ^ 32))))

  pub inner-plain : inner_bytes s msg_id seq_no payload ++ padding ≡ plain
  unfolding plain inner_bytes
  inner-plain = simp append_assoc refl

  header-plain : plain ≡ header ++ (payload ++ padding)
  unfolding plain header
  header-plain = simp append_assoc refl

  length-header : length header ≡ 32
  unfolding header
  length-header = simp (length-append, length-to_le) refl

  length-plain : length plain ≡ 32 + (length payload + length padding)
  length-plain = omega (
    arith,
    ap length header-plain,
    length-header,
    length-append header (payload ++ padding),
    length-append payload padding,
  )

  past_ids : (from to : ℕ) → slice (16 + from) (16 + to) plain ≡ slice from to (drop 16 plain)
  past_ids from to =
      ap (λ (k : ℕ). take k (drop (16 + from) plain)) (omega arith)
      ∙ ap (take (to - from)) (sym (drop-drop 16 from plain))

  tail :
      drop 16 plain
      ≡ to_le 8 msg_id
        ++ (to_le 4 seq_no ++ (to_le 4 (length payload % 2 ^ 32) ++ (payload ++ padding)))
  unfolding plain
  tail =
      ap (drop 16) (sym (append_assoc (to_le 8 s.server_salt) (to_le 8 s.session_id) _))
      ∙ drop-append 16 (to_le 8 s.server_salt ++ to_le 8 s.session_id) _
          (simp (length-append, length-to_le) refl)

  msg_id_field : of_le (slice 16 24 plain) ≡ msg_id
  msg_id_field =
      ap of_le
        (past_ids 0 8 ∙ ap (slice 0 8) tail ∙ slice-here 8 (to_le 8 msg_id) _ (length-to_le 8 _))
      ∙ of_le-to_le 8 msg_id id

  seq_no_field : of_le (slice 24 28 plain) ≡ seq_no
  seq_no_field =
      ap of_le (
        past_ids 8 12
        ∙ ap (slice 8 12) tail
        ∙ slice-skip 8 0 4 (to_le 8 msg_id) _ (length-to_le 8 _)
        ∙ slice-here 4 (to_le 4 seq_no) _ (length-to_le 4 _))
      ∙ of_le-to_le 4 seq_no seq

  payload_len_field : of_le (slice 28 32 plain) ≡ length payload
  payload_len_field =
      ap of_le (
        past_ids 12 16
        ∙ ap (slice 12 16) tail
        ∙ slice-skip 8 4 8 (to_le 8 msg_id) _ (length-to_le 8 _)
        ∙ slice-skip 4 0 4 (to_le 4 seq_no) _ (length-to_le 4 _)
        ∙ slice-here 4 (to_le 4 (length payload % 2 ^ 32)) _ (length-to_le 4 _))
      ∙ of_le-to_le 4 (length payload % 2 ^ 32) (omega arith)
      ∙ omega arith

  pub read-plain :
      (out : MtprotoMessage)
      → read_plaintext plain out
        ≡ (accepted, record { msg_id = msg_id; seq_no = seq_no; payload = payload })
  unfolding read_plaintext
  read-plain out =
      rw
        (
          le→ltb (length plain) 32 (omega (arith, length-plain)),
          msg_id_field,
          seq_no_field,
          payload_len_field,
          header-plain,
        )
        (take_payload_whole 32 (length payload) header payload padding
          (record { msg_id = msg_id; seq_no = seq_no; payload = out.payload }) length-header refl
          small)

pub length-inner_bytes :
    (s : Session) (msg_id seq_no : ℕ) (payload : List ℕ)
    → length (inner_bytes s msg_id seq_no payload) ≡ 32 + length payload
unfolding inner_bytes
length-inner_bytes s msg_id seq_no payload = simp (length-append, length-to_le) (omega arith)

pub inner_bytes-IsByte :
    (s : Session) (msg_id seq_no : ℕ) (payload : List ℕ)
    → All IsByte payload
    → All IsByte (inner_bytes s msg_id seq_no payload)
unfolding inner_bytes
inner_bytes-IsByte s msg_id seq_no payload h = prefixed 8 s.server_salt _ (
    prefixed 8 s.session_id _
      (prefixed 8 msg_id _ (prefixed 4 seq_no _ (prefixed 4 (length payload % 2 ^ 32) payload h))))
  where
    prefixed : (n v : ℕ) (rest : List ℕ) → All IsByte rest → All IsByte (to_le n v ++ rest)
    prefixed n v rest hr = All-append IsByte (to_le n v) rest (to_le-IsByte n v) hr
