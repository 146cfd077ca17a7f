-- ===== src/MtprotoClient/Tests.antt =====
-- A concrete client.
use cpp_gram.Common.{ℕ, ◌≡◌, refl, true, false, List, [], ◌∷◌, ◌++◌, some, ok, arith}
use cpp_gram.Common.Bytes.{to_le}
use cpp_gram.Tl.{tl_pong}
use cpp_gram.Transport.{TransportProtocol, create_transport_codec, decode_packets}
use cpp_gram.Transport.Exchange.{buffer_of}
use cpp_gram.Crypto.Tests.{
  plain_openssl, zero_random, plain_openssl-IsOpenssl, zero_random-IsRandom,
}
use cpp_gram.Session.{generate_msg_id, generate_seq_no, accepted, unpack_encrypted_message}
use cpp_gram.Session.Tests.{keyed_session, blank_message}
use cpp_gram.Network.{Sending, success, default_manager}
use cpp_gram.Network.Receive.{open_connection}
use cpp_gram.MtprotoClient.{MtprotoClient, send_encrypted, parse_pong_response}
use cpp_gram.MtprotoClient.Delivery.{send_encrypted_delivered}
use cpp_gram.MtprotoClient.Ping.{parse_pong_response_found}

abbrev client : MtprotoClient
client = record {
  test_mode = false;
  dc_mgr = default_manager;
  codec = create_transport_codec TransportProtocol.full;
  connection = open_connection;
  session = keyed_session;
  active_dc_id = 2;
  active_protocol = TransportProtocol.full;
}

send_encrypted_delivered_example :
    (packet : List ℕ) × (result : Sending) × (sent : List ℕ) × ((send_encrypted plain_openssl
        (50 ∷ 50 ∷ 50 ∷ [])
        1700000000500
        zero_random
        (1 ∷ 2 ∷ [])
        true
        client).0
      ≡ ok (result, sent))
    × (result ≡ success
        → ((decode_packets (create_transport_codec TransportProtocol.full) sent).0
            ≡ ok (packet ∷ []))
          × (buffer_of (decode_packets (create_transport_codec TransportProtocol.full) sent).1
              ≡ []))
    × (unpack_encrypted_message plain_openssl keyed_session packet blank_message ≡ (
      accepted,
      record {
        msg_id = (generate_msg_id 1700000000500 keyed_session).0;
        seq_no = (generate_seq_no true (generate_msg_id 1700000000500 keyed_session).1).0;
        payload = 1 ∷ 2 ∷ [];
      },
    ))
send_encrypted_delivered_example =
    send_encrypted_delivered plain_openssl plain_openssl-IsOpenssl (50 ∷ 50 ∷ 50 ∷ []) 1700000000500
      zero_random (1 ∷ 2 ∷ []) true client TransportProtocol.full keyed_session blank_message refl
      refl zero_random-IsRandom refl refl refl (omega arith) (omega arith, (omega arith, tt))
      (omega arith)

parse_pong_response_found_example :
    parse_pong_response (to_le 4 tl_pong ++ (to_le 8 4 ++ (to_le 8 77 ++ (1 ∷ 2 ∷ [])))) ≡ some 77
parse_pong_response_found_example =
    parse_pong_response_found 4 77 (1 ∷ 2 ∷ []) (omega arith) (omega arith)
