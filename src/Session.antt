-- ===== src/Session.antt =====
-- include/cppgram/session.hpp and src/core/session.cpp: the ids, sequence numbers and envelopes of
-- MTProto messages. An int64_t or uint64_t is its 64-bit pattern, an int32_t its 32-bit pattern.
pub mod Ids
pub mod Unencrypted
mod Plaintext
pub mod Encrypted
pub mod Authentic
pub mod Tests
use cpp_gram.Common.{
  ℕ, zero, suc, ◌+◌, ◌-◌, ◌*◌, ◌/◌, ◌%◌, ◌^◌, Bool, true, false, ◌||◌, not, List, [], ◌∷◌, ◌++◌,
  Option, none, some, length, drop, slice, equal, ltb, leb, ◌==◌, if◌then◌else◌, Outcome, ok,
  throws, bit_and, bit_or,
}
use cpp_gram.Common.Bytes.{to_le, of_le}
use cpp_gram.Crypto.{
  Openssl, Random, CryptoError, invalid_argument, runtime_error, generate_random_bytes,
  aes_ige_encrypt, aes_ige_decrypt, kdf_mtproto2, compute_msg_key, compute_auth_key_id,
}

pub record Session : Type 0 where
  pub session_id : ℕ
  pub server_salt : ℕ
  pub auth_key : List ℕ
  pub auth_key_id : ℕ
  pub content_seq_no : ℕ
  pub last_msg_id : ℕ
  pub time_offset : ℕ

-- `Session(uint64_t session_id)`
unfoldable pub with_session_id : ℕ → Session
with_session_id session_id = record {
  session_id = session_id;
  server_salt = 0;
  auth_key = [];
  auth_key_id = 0;
  content_seq_no = 0;
  last_msg_id = 0;
  time_offset = 0;
}

-- `Session()`
pub fresh_session : Random → Session
unfolding with_session_id
fresh_session r = with_session_id (of_le (generate_random_bytes r 8))

pub set_auth_key : Openssl → List ℕ → Session → Session
set_auth_key o key s = record s {
  auth_key = key;
  auth_key_id = if length key == 256 then compute_auth_key_id o key else 0;
}

abbrev set_session_id : ℕ → Session → Session
set_session_id id s = record s { session_id = id }

abbrev set_server_salt : ℕ → Session → Session
set_server_salt salt s = record s { server_salt = salt }

-- An offset may be negative: its pattern.
abbrev pub set_time_offset : ℕ → Session → Session
set_time_offset offset_seconds s = record s { time_offset = offset_seconds }

-- The order of int64_t on the patterns.
abbrev pub signed : ℕ → ℕ
signed x = (x + 2 ^ 63) % 2 ^ 64

-- The id that the clock gives, `epoch_ms` milliseconds after 1970.
unfoldable pub clock_msg_id : ℕ → ℕ → ℕ
clock_msg_id time_offset epoch_ms =
    let seconds = (epoch_ms / 1000 + time_offset) % 2 ^ 64 in
    let fraction = epoch_ms % 1000 * 4294967 in
    bit_and (bit_or (seconds * 2 ^ 32 % 2 ^ 64) (bit_and fraction 0xffffffff)) (2 ^ 64 - 4)

unfoldable pub generate_msg_id : ℕ → Session → ℕ × Session
generate_msg_id epoch_ms s =
    let clock = clock_msg_id s.time_offset epoch_ms in
    let msg_id =
      if leb (signed clock) (signed s.last_msg_id) then (s.last_msg_id + 4) % 2 ^ 64 else clock in
    (msg_id, record s { last_msg_id = msg_id })

unfoldable pub generate_seq_no : Bool → Session → ℕ × Session
generate_seq_no true s = (
  (s.content_seq_no * 2 + 1) % 2 ^ 32,
  record s { content_seq_no = (s.content_seq_no + 1) % 2 ^ 32 },
)
generate_seq_no false s = (s.content_seq_no * 2 % 2 ^ 32, s)

unfoldable pub pack_unencrypted_message : ℕ → List ℕ → Session → List ℕ × Session
pack_unencrypted_message epoch_ms payload s =
    let (msg_id, s1) = generate_msg_id epoch_ms s in
    (to_le 8 0 ++ (to_le 8 msg_id ++ (to_le 4 (length payload % 2 ^ 32) ++ payload)), s1)

-- The variables that a caller passes by reference, in the struct that the header has for them.
pub record MtprotoMessage : Type 0 where
  pub msg_id : ℕ
  pub seq_no : ℕ
  pub payload : List ℕ

-- The answers `false` and `true` of an unpack function, or a read beyond its input.
pub data Reply : Type 0 where
  refused accepted out_of_bounds : Reply

-- `header + payload_len` is a sum of 32-bit words, and wraps; the payload is copied by `payload_len`
-- itself.
abbrev pub take_payload : ℕ → ℕ → List ℕ → MtprotoMessage → Reply × MtprotoMessage
take_payload header payload_len bytes out =
    if ltb (length bytes) ((header + payload_len) % 2 ^ 32)
    then (refused, out)
    else if ltb (length bytes) (header + payload_len)
    then (out_of_bounds, out)
    else (accepted, record out { payload = slice header (header + payload_len) bytes })

unfoldable pub unpack_unencrypted_message : List ℕ → MtprotoMessage → Reply × MtprotoMessage
unpack_unencrypted_message bytes out =
    if ltb (length bytes) 20
    then (refused, out)
    else if not (of_le (slice 0 8 bytes) == 0)
    then (refused, out)
    else take_payload 20 (of_le (slice 16 20 bytes)) bytes
        (record out { msg_id = of_le (slice 8 16 bytes) })

unfoldable pub pad_length : ℕ → ℕ
pad_length inner_len =
    let pad_len = 16 - inner_len % 16 in if ltb pad_len 12 then pad_len + 16 else pad_len

-- The plaintext before its padding.
unfoldable pub inner_bytes : Session → ℕ → ℕ → List ℕ → List ℕ
inner_bytes s msg_id seq_no payload =
    to_le 8 s.server_salt
    ++ (to_le 8 s.session_id
        ++ (to_le 8 msg_id ++ (to_le 4 seq_no ++ (to_le 4 (length payload % 2 ^ 32) ++ payload))))

-- What is done with a plaintext that has been found.
unfoldable pub read_plaintext : List ℕ → MtprotoMessage → Reply × MtprotoMessage
read_plaintext plaintext out =
    if ltb (length plaintext) 32
    then (refused, out)
    else take_payload 32 (of_le (slice 28 32 plaintext)) plaintext (record out {
      msg_id = of_le (slice 16 24 plaintext);
      seq_no = of_le (slice 24 28 plaintext);
    })

module _ (o : Openssl) where
  -- The envelope of a plaintext. An answer `false` of the key derivation leaves both vectors empty.
  unfoldable pub seal : Session → List ℕ → Outcome CryptoError (List ℕ)
  seal s plaintext = elim (compute_msg_key o s.auth_key plaintext true) [
    | throws e ↦ throws e
    | ok msg_key ↦
        let keys : List ℕ × List ℕ = elim (kdf_mtproto2 o s.auth_key msg_key true) [
          | none ↦ ([], [])
          | some k ↦ k
        ] in
        elim (aes_ige_encrypt o plaintext keys.0 keys.1) [
          | throws e ↦ throws e
          | ok ciphertext ↦ ok (to_le 8 s.auth_key_id ++ (msg_key ++ ciphertext))
        ]
  ]

  unfoldable pub pack_encrypted_message :
      ℕ → Random → List ℕ → Bool → Session → Outcome CryptoError (List ℕ) × Session
  pack_encrypted_message epoch_ms r payload is_content_related s =
      let (msg_id, s1) = generate_msg_id epoch_ms s in
      let (seq_no, s2) = generate_seq_no is_content_related s1 in
      let inner = inner_bytes s2 msg_id seq_no payload in
      if not (length s.auth_key == 256)
      then (throws runtime_error, s)
      else (seal s2 (inner ++ generate_random_bytes r (pad_length (length inner))), s2)

  -- One round of the loop over the two directions: the plaintext if its message key is the one sent.
  unfoldable pub open_as : Session → List ℕ → List ℕ → Bool → Option (List ℕ)
  open_as s msg_key ciphertext is_client = elim (kdf_mtproto2 o s.auth_key msg_key is_client) [
    | none ↦ none
    | some (aes_key, aes_iv) ↦ elim (aes_ige_decrypt o ciphertext aes_key aes_iv) [
      | throws e ↦ none
      | ok plaintext ↦ elim (compute_msg_key o s.auth_key plaintext is_client) [
        | throws e ↦ none
        | ok expected_msg_key ↦ if equal expected_msg_key msg_key then some plaintext else none
      ]
    ]
  ]

  unfoldable pub open_either : Session → List ℕ → List ℕ → Option (List ℕ)
  open_either s msg_key ciphertext = elim (open_as s msg_key ciphertext true) [
    | some plaintext ↦ some plaintext
    | none ↦ open_as s msg_key ciphertext false
  ]

  unfoldable pub unpack_encrypted_message :
      Session → List ℕ → MtprotoMessage → Reply × MtprotoMessage
  unpack_encrypted_message s bytes out =
      if ltb (length bytes) (24 + 32) || not (length s.auth_key == 256)
      then (refused, out)
      else if not (of_le (slice 0 8 bytes) == s.auth_key_id)
      then (refused, out)
      else if not (length (drop 24 bytes) % 16 == 0)
      then (refused, out)
      else elim (open_either s (slice 8 24 bytes) (drop 24 bytes)) [
        | none ↦ (refused, out)
        | some plaintext ↦ read_plaintext plaintext out
      ]
