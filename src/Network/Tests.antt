-- ===== src/Network/Tests.antt =====
-- Concrete connections and tables.
use cpp_gram.Common.{ℕ, ◌≡◌, ◌≢◌, refl, false, List, [], ◌∷◌, ◌++◌, none, some, ok, arith, Bool}
use cpp_gram.Common.Bytes.{byte_at, le32}
use cpp_gram.Transport.{
  TransportProtocol, Codec, create_transport_codec, encode_packet, intermediate_encode,
  intermediate_frame, scan, scan_all,
}
use cpp_gram.Transport.Exchange.{buffer_of, send_all}
use cpp_gram.Network.{
  success, failure, receive_packet, send_packet, DataCenter, default_manager, get_primary_dc,
  get_dc,
}
use cpp_gram.Network.Receive.{open_connection, receive_packet_together, receive_packet_refeeds}
use cpp_gram.Network.Send.{send_packet_prefix}
use cpp_gram.Network.Datacenters.{register, set_primary, changes, get_dc-changes}

abbrev codec : Codec
codec = create_transport_codec TransportProtocol.intermediate

-- Two frames in one chunk: the second payload is lost.
abbrev two_frames : List ℕ
two_frames = (send_all codec ((7 ∷ 8 ∷ []) ∷ (9 ∷ []) ∷ [])).0

receive_packet_together_example :
    ((receive_packet (two_frames ∷ []) codec open_connection).0 ≡ ok (7 ∷ 8 ∷ []))
    × (buffer_of (receive_packet (two_frames ∷ []) codec open_connection).1 ≡ [])
    × ((receive_packet (two_frames ∷ []) codec open_connection).2 ≡ open_connection)
unfolding create_transport_codec send_all encode_packet intermediate_encode byte_at
receive_packet_together_example =
    receive_packet_together TransportProtocol.intermediate (7 ∷ 8 ∷ []) ((9 ∷ []) ∷ []) []
      (omega arith, (omega arith, tt)) (omega arith)

-- The frame of the payload 7, 8, with its last byte in a second piece: what comes back is 7, 2.
receive_packet_refeeds_example :
    (receive_packet ((2 ∷ 0 ∷ 0 ∷ 0 ∷ 7 ∷ []) ∷ (8 ∷ []) ∷ []) codec open_connection).0
    ≡ ok (7 ∷ 2 ∷ [])
unfolding create_transport_codec scan_all scan intermediate_frame le32
receive_packet_refeeds_example =
    receive_packet_refeeds TransportProtocol.intermediate (2 ∷ 0 ∷ 0 ∷ 0 ∷ 7 ∷ []) (8 ∷ [])
      (7 ∷ 2 ∷ []) [] [] (λ e. cc) (λ e. cc) refl refl refl

-- A socket that takes four bytes and then two.
send_packet_prefix_example :
    ((unsent : List ℕ) × ((send_packet (4 ∷ 2 ∷ []) (7 ∷ 8 ∷ []) codec open_connection).0.1
          ++ unsent
        ≡ (encode_packet codec (7 ∷ 8 ∷ [])).0))
    × ((send_packet (4 ∷ 2 ∷ []) (7 ∷ 8 ∷ []) codec open_connection).0.0 ≡ success
        → (send_packet (4 ∷ 2 ∷ []) (7 ∷ 8 ∷ []) codec open_connection).0.1
          ≡ (encode_packet codec (7 ∷ 8 ∷ [])).0)
    × (open_connection.is_connected ≡ false
        → send_packet (4 ∷ 2 ∷ []) (7 ∷ 8 ∷ []) codec open_connection ≡ ((failure, []), codec))
send_packet_prefix_example = send_packet_prefix (4 ∷ 2 ∷ []) (7 ∷ 8 ∷ []) codec open_connection

abbrev own : DataCenter
own = record { id = 9; ip_v4 = "10.0.0.1"; ip_v6 = ""; port = 443; is_test = false; name = "own" }

get_dc-changes_example :
    (get_primary_dc false (changes (register own ∷ set_primary 9 ∷ []) default_manager) ≢ none)
    × ((id : ℕ) (test : Bool) (dc : DataCenter)
        → get_dc id test (changes (register own ∷ set_primary 9 ∷ []) default_manager) ≡ some dc
        → (dc.id ≡ id) × (dc.is_test ≡ test))
get_dc-changes_example = get_dc-changes (register own ∷ set_primary 9 ∷ [])
