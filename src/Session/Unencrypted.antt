-- ===== src/Session/Unencrypted.antt =====
-- Messages without encryption, as in the key exchange.
use cpp_gram.Common.{
  ℕ, ◌+◌, ◌-◌, ◌%◌, ◌^◌, ◌≤◌, ◌<◌, ◌≡◌, ◌↔◌, refl, ap, ◌∙◌, List, [], ◌++◌, length, slice, arith,
  length-append, length-take, slice-skip, slice-here, All-take, All-drop, drop, length-drop,
  slice-at, append_assoc, append-nil, All, le→ltb,
}
use cpp_gram.Common.Bytes.{
  to_le, of_le, length-to_le, of_le-to_le, IsByte, of_le-IsU32, IsU32, IsU64,
}
use cpp_gram.Session.{
  Session, generate_msg_id, pack_unencrypted_message, MtprotoMessage, accepted, out_of_bounds,
  take_payload, unpack_unencrypted_message,
}
use cpp_gram.Session.Ids.{generate_msg_id-IsU64}

-- A payload whose length, with its header, a 32-bit word can count is taken whole.
pub take_payload_whole :
    (header payload_len : ℕ) (a payload b : List ℕ) (out : MtprotoMessage)
    → length a ≡ header
    → length payload ≡ payload_len
    → header + payload_len < 2 ^ 32
    → take_payload header payload_len (a ++ (payload ++ b)) out
      ≡ (accepted, record out { payload = payload })
take_payload_whole header payload_len a payload b out ha hp small =
    rw (wrap, le→ltb (length (a ++ (payload ++ b))) (header + payload_len) enough, found) refl
  where
    wrap : (header + payload_len) % 2 ^ 32 ≡ header + payload_len
    wrap = omega arith

    enough : header + payload_len ≤ length (a ++ (payload ++ b))
    enough = omega (arith, length-append a (payload ++ b), length-append payload b)

    found : slice header (header + payload_len) (a ++ (payload ++ b)) ≡ payload
    found = slice-at header (header + payload_len) a payload b ha (omega (arith, hp))

pub take_payload_out_of_bounds :
    (header payload_len : ℕ) (bytes : List ℕ) (out : MtprotoMessage)
    → header ≤ length bytes
    → length bytes < 2 ^ 32
    → IsU32 payload_len
    → ((take_payload header payload_len bytes out).0 ≡ out_of_bounds)
      ↔ (2 ^ 32 - header ≤ payload_len)
take_payload_out_of_bounds header payload_len bytes out long small word = ground arith

-- The header's fields are read back.
module _ (msg_id : ℕ) (payload : List ℕ) (id : IsU64 msg_id) where
  packet : List ℕ
  packet = to_le 8 0 ++ (to_le 8 msg_id ++ (to_le 4 (length payload % 2 ^ 32) ++ payload))

  key_id_field : of_le (slice 0 8 packet) ≡ 0
  unfolding packet
  key_id_field =
      ap of_le (slice-here 8 (to_le 8 0) _ (length-to_le 8 0)) ∙ of_le-to_le 8 0 (omega arith)

  msg_id_field : of_le (slice 8 16 packet) ≡ msg_id
  unfolding packet
  msg_id_field =
      ap of_le (
        slice-skip 8 0 8 (to_le 8 0) _ (length-to_le 8 0)
        ∙ slice-here 8 (to_le 8 msg_id) _ (length-to_le 8 msg_id))
      ∙ of_le-to_le 8 msg_id id

  payload_len_field : of_le (slice 16 20 packet) ≡ length payload % 2 ^ 32
  unfolding packet
  payload_len_field =
      ap of_le (
        slice-skip 8 8 12 (to_le 8 0) _ (length-to_le 8 0)
        ∙ slice-skip 8 0 4 (to_le 8 msg_id) _ (length-to_le 8 msg_id)
        ∙ slice-here 4 (to_le 4 (length payload % 2 ^ 32)) _ (length-to_le 4 _))
      ∙ of_le-to_le 4 (length payload % 2 ^ 32) (omega arith)

  packet_parts :
      packet
      ≡ (to_le 8 0 ++ (to_le 8 msg_id ++ to_le 4 (length payload % 2 ^ 32))) ++ (payload ++ [])
  unfolding packet
  packet_parts = simp (append_assoc, append-nil) refl

  length-packet : length packet ≡ 20 + length payload
  unfolding packet
  length-packet = simp (length-append, length-to_le) (omega arith)

  taken :
      (out : MtprotoMessage)
      → 20 + length payload < 2 ^ 32
      → take_payload 20 (length payload) packet out ≡ (accepted, record out { payload = payload })
  taken out small =
      ap (λ p. take_payload 20 (length payload) p out) packet_parts
      ∙ take_payload_whole 20 (length payload)
          (to_le 8 0 ++ (to_le 8 msg_id ++ to_le 4 (length payload % 2 ^ 32))) payload [] out
          (simp (length-append, length-to_le) refl) refl small

  unpack-packet :
      (out : MtprotoMessage)
      → 20 + length payload < 2 ^ 32
      → unpack_unencrypted_message packet out
        ≡ (accepted, record out { msg_id = msg_id; payload = payload })
  unfolding unpack_unencrypted_message
  unpack-packet out small =
      rw
        (
          le→ltb (length packet) 20 (omega (arith, length-packet)),
          key_id_field,
          msg_id_field,
          payload_len_field,
          word,
        )
        (taken (record out { msg_id = msg_id }) small)
    where
      word : length payload % 2 ^ 32 ≡ length payload
      word = omega arith

-- A payload that a 32-bit length can count with its header arrives, with the id that it was given,
-- whatever the clock says and whatever the receiver's variables held.
pub unpack-pack_unencrypted_message :
    (epoch_ms : ℕ) (payload : List ℕ) (s : Session) (out : MtprotoMessage)
    → 20 + length payload < 2 ^ 32
    → unpack_unencrypted_message (pack_unencrypted_message epoch_ms payload s).0 out
      ≡ (accepted, record out { msg_id = (generate_msg_id epoch_ms s).0; payload = payload })
unfolding pack_unencrypted_message packet
unpack-pack_unencrypted_message epoch_ms payload s out small =
    unpack-packet (generate_msg_id epoch_ms s).0 payload (generate_msg_id-IsU64 epoch_ms s) out
      small

-- The 32-bit sum lets a packet through that is shorter than it says, and the copy reads beyond it.
pub unpack_unencrypted_message_out_of_bounds :
    (bytes : List ℕ) (out : MtprotoMessage)
    → 20 ≤ length bytes
    → length bytes < 2 ^ 32
    → All IsByte bytes
    → of_le (slice 0 8 bytes) ≡ 0
    → ((unpack_unencrypted_message bytes out).0 ≡ out_of_bounds)
      ↔ (2 ^ 32 - 20 ≤ of_le (slice 16 20 bytes))
unfolding unpack_unencrypted_message
unpack_unencrypted_message_out_of_bounds bytes out long small b key =
    rw (le→ltb (length bytes) 20 long, key)
      (take_payload_out_of_bounds 20 (of_le (slice 16 20 bytes)) bytes
        (record out { msg_id = of_le (slice 8 16 bytes) }) long small word)
  where
    word : IsU32 (of_le (slice 16 20 bytes))
    word =
        of_le-IsU32 (slice 16 20 bytes)
          (All-take IsByte 4 (drop 16 bytes) (All-drop IsByte 16 bytes b))
          (omega (arith, length-take 4 (drop 16 bytes), length-drop 16 bytes))
