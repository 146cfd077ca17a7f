-- ===== src/Session/Tests.antt =====
-- Concrete sessions.
use cpp_gram.Common.{
  ℕ, ◌≡◌, ◌↔◌, ◌≤◌, ◌^◌, ◌-◌, ◌%◌, ◌+◌, refl, Bool, true, false, List, [], ◌∷◌, ◌++◌, length, slice,
  drop, replicate, some, ok, arith, All, All-append,
}
use cpp_gram.Common.Bytes.{of_le, IsByte}
use cpp_gram.Crypto.{kdf_mtproto2, aes_ige_decrypt, compute_msg_key}
use cpp_gram.Crypto.Laws.{zeros-IsByte}
use cpp_gram.Crypto.Tests.{
  plain_openssl, zero_random, plain_openssl-IsOpenssl, zero_random-IsRandom,
}
use cpp_gram.Session.{
  Session, with_session_id, generate_msg_id, generate_seq_no, MtprotoMessage, accepted,
  out_of_bounds, pack_unencrypted_message, unpack_unencrypted_message, pack_encrypted_message,
  unpack_encrypted_message, read_plaintext,
}
use cpp_gram.Session.Ids.{
  generate_msg_ids, Increasing, IsMsgId, generate_msg_ids_increase, generate_seq_nos,
  generate_seq_nos-expected,
}
use cpp_gram.Session.Unencrypted.{
  unpack-pack_unencrypted_message, unpack_unencrypted_message_out_of_bounds,
}
use cpp_gram.Session.Encrypted.{unpack-pack_encrypted_message}
use cpp_gram.Session.Authentic.{unpack_encrypted_message_authentic}

abbrev pub keyed_session : Session
keyed_session = record {
  session_id = 5;
  server_salt = 6;
  auth_key = replicate 256 0;
  auth_key_id = 0;
  content_seq_no = 3;
  last_msg_id = 0;
  time_offset = 0;
}

abbrev pub blank_message : MtprotoMessage
blank_message = record { msg_id = 0; seq_no = 0; payload = [] }

-- Three calls, the second with an earlier clock and the third at the same time as the second.
generate_msg_ids_increase_example :
    Increasing 0
      (generate_msg_ids (1700000000500 ∷ 1700000000000 ∷ 1700000000000 ∷ []) (with_session_id 1))
    × All IsMsgId
        (generate_msg_ids (1700000000500 ∷ 1700000000000 ∷ 1700000000000 ∷ []) (with_session_id 1))
unfolding with_session_id
generate_msg_ids_increase_example =
    generate_msg_ids_increase 1 0 (1700000000500 ∷ 1700000000000 ∷ 1700000000000 ∷ [])
      (omega arith, (omega arith, (omega arith, tt))) (omega arith)

generate_seq_nos-expected_example :
    generate_seq_nos (true ∷ false ∷ true ∷ []) keyed_session ≡ (7 ∷ 8 ∷ 9 ∷ [])
generate_seq_nos-expected_example =
    generate_seq_nos-expected (true ∷ false ∷ true ∷ []) keyed_session (omega arith)

unpack-pack_unencrypted_message_example :
    unpack_unencrypted_message
      (pack_unencrypted_message 1700000000500 (1 ∷ 2 ∷ []) keyed_session).0
      blank_message
    ≡ (
      accepted,
      record {
        msg_id = (generate_msg_id 1700000000500 keyed_session).0;
        seq_no = 0;
        payload = 1 ∷ 2 ∷ [];
      },
    )
unpack-pack_unencrypted_message_example =
    unpack-pack_unencrypted_message 1700000000500 (1 ∷ 2 ∷ []) keyed_session blank_message
      (omega arith)

-- Twenty bytes whose length field is 2 ^ 32 - 1.
abbrev announced : List ℕ
announced = replicate 16 0 ++ (255 ∷ 255 ∷ 255 ∷ 255 ∷ [])

unpack_unencrypted_message_out_of_bounds_example :
    ((unpack_unencrypted_message announced blank_message).0 ≡ out_of_bounds)
    ↔ (2 ^ 32 - 20 ≤ of_le (slice 16 20 announced))
unfolding of_le
unpack_unencrypted_message_out_of_bounds_example =
    unpack_unencrypted_message_out_of_bounds announced blank_message (omega arith) (omega arith)
      (All-append IsByte (replicate 16 0) (255 ∷ 255 ∷ 255 ∷ 255 ∷ []) (zeros-IsByte 16)
        (omega arith, (omega arith, (omega arith, (omega arith, tt)))))
      refl

abbrev delivered :
    (packet : List ℕ) × ((pack_encrypted_message plain_openssl 1700000000500 zero_random
        (1 ∷ 2 ∷ [])
        true
        keyed_session).0
      ≡ ok packet)
    × (length packet % 4 ≡ 0)
    × (length packet ≤ 2 + 83)
    × (unpack_encrypted_message plain_openssl keyed_session packet blank_message ≡ (
      accepted,
      record {
        msg_id = (generate_msg_id 1700000000500 keyed_session).0;
        seq_no = (generate_seq_no true (generate_msg_id 1700000000500 keyed_session).1).0;
        payload = 1 ∷ 2 ∷ [];
      },
    ))
delivered =
    unpack-pack_encrypted_message plain_openssl plain_openssl-IsOpenssl 1700000000500 zero_random
      (1 ∷ 2 ∷ []) true keyed_session keyed_session blank_message zero_random-IsRandom refl refl
      refl (omega arith) (omega arith, (omega arith, tt)) (omega arith)

unpack-pack_encrypted_message_example :
    (packet : List ℕ) × ((pack_encrypted_message plain_openssl 1700000000500 zero_random
        (1 ∷ 2 ∷ [])
        true
        keyed_session).0
      ≡ ok packet)
    × (length packet % 4 ≡ 0)
    × (length packet ≤ 2 + 83)
    × (unpack_encrypted_message plain_openssl keyed_session packet blank_message ≡ (
      accepted,
      record {
        msg_id = (generate_msg_id 1700000000500 keyed_session).0;
        seq_no = (generate_seq_no true (generate_msg_id 1700000000500 keyed_session).1).0;
        payload = 1 ∷ 2 ∷ [];
      },
    ))
unpack-pack_encrypted_message_example =
    unpack-pack_encrypted_message plain_openssl plain_openssl-IsOpenssl 1700000000500 zero_random
      (1 ∷ 2 ∷ []) true keyed_session keyed_session blank_message zero_random-IsRandom refl refl
      refl (omega arith) (omega arith, (omega arith, tt)) (omega arith)

abbrev received : MtprotoMessage
received = record {
  msg_id = (generate_msg_id 1700000000500 keyed_session).0;
  seq_no = (generate_seq_no true (generate_msg_id 1700000000500 keyed_session).1).0;
  payload = 1 ∷ 2 ∷ [];
}

unpack_encrypted_message_authentic_example :
    (of_le (slice 0 8 delivered.0) ≡ 0)
    × ((is_client : Bool) × (key : List ℕ) × (iv : List ℕ) × (plaintext : List ℕ) × (kdf_mtproto2
            plain_openssl
            (replicate 256 0)
            (slice 8 24 delivered.0)
            is_client
          ≡ some (key, iv))
        × (aes_ige_decrypt plain_openssl (drop 24 delivered.0) key iv ≡ ok plaintext)
        × (compute_msg_key plain_openssl (replicate 256 0) plaintext is_client
            ≡ ok (slice 8 24 delivered.0))
        × (read_plaintext plaintext blank_message ≡ (accepted, received)))
unpack_encrypted_message_authentic_example =
    unpack_encrypted_message_authentic plain_openssl keyed_session delivered.0 blank_message
      received delivered.4
