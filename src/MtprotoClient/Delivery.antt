-- ===== src/MtprotoClient/Delivery.antt =====
-- From the payload that one client sends to the payload that its peer gets: session, codec and
-- connection together.
use cpp_gram.Common.{
  ℕ, ◌+◌, ◌*◌, ◌%◌, ◌^◌, ◌≤◌, ◌<◌, ◌≡◌, refl, sym, ap, ◌∙◌, Bool, true, not, ltb, Bool-cases, inl,
  inr, ◌/◌, List, [], ◌∷◌, append-nil, length, length-append, All, ok, arith, subst,
}
use cpp_gram.Common.Bytes.{IsByte, IsU64}
use cpp_gram.Transport.{
  TransportProtocol, Codec, abridged_codec, intermediate_codec, full_codec, abridged_encode,
  intermediate_encode, full_encode, unchecked, word_bytes, create_transport_codec, encode_packet,
  decode_packets,
}
use cpp_gram.Transport.Exchange.{Format, format_of, buffer_of, Fits, send_all}
use cpp_gram.Transport.Stream.{decode_packets-send_all}
use cpp_gram.Transport.Crc.{compute_crc32}
use cpp_gram.Crypto.{Openssl, Random}
use cpp_gram.Crypto.Laws.{IsOpenssl, IsRandom}
use cpp_gram.Session.{
  Session, generate_msg_id, generate_seq_no, MtprotoMessage, accepted, pack_encrypted_message,
  unpack_encrypted_message,
}
use cpp_gram.Session.Encrypted.{unpack-pack_encrypted_message}
use cpp_gram.Network.{TcpConnection, Sending, success, send_packet}
use cpp_gram.Network.Send.{send_packet_prefix}
use cpp_gram.MtprotoClient.{MtprotoClient, send_encrypted}

-- What every format carries.
small-Fits :
    (f : Format) (p : List ℕ) → length p % 4 ≡ 0 → length p + 12 ≤ 16 * 1024 * 1024 → Fits f p
small-Fits Format.abridged p whole h = (whole, omega arith)
small-Fits Format.intermediate p whole h = omega arith
small-Fits Format.full p whole h = h

one_packet : (c : Codec) (p : List ℕ) → (send_all c (p ∷ [])).0 ≡ (encode_packet c p).0
unfolding send_all
one_packet c p = append-nil (encode_packet c p).0

frame_size : (c : Codec) (p : List ℕ) → length (encode_packet c p).0 ≤ length p + 12
unfolding encode_packet abridged_encode intermediate_encode full_encode
frame_size (abridged_codec b) p = elim (Bool-cases (ltb ((length p + 3) / 4) 127)) [
  | inl e ↦ rw e (omega arith)
  | inr e ↦ rw e (omega arith)
]
frame_size (intermediate_codec b) p = omega arith
frame_size (full_codec c) p = omega (
  arith,
  length-append (unchecked c.out_seq_no p) (word_bytes (compute_crc32 (unchecked c.out_seq_no p))),
)

decodes :
    (answers packet : List ℕ) (codec : Codec) (conn : TcpConnection) (proto : TransportProtocol)
    → codec ≡ create_transport_codec proto
    → Fits (format_of (create_transport_codec proto)) packet
    → length packet < 2 ^ 24
    → let (result, sent) = (send_packet answers packet codec conn).0 in
      result ≡ success
      → ((decode_packets (create_transport_codec proto) sent).0 ≡ ok (packet ∷ []))
        × (buffer_of (decode_packets (create_transport_codec proto) sent).1 ≡ [])
decodes answers packet codec conn proto fresh fits small done =
    subst
      (λ (s : List ℕ).
        ((decode_packets (create_transport_codec proto) s).0 ≡ ok (packet ∷ []))
        × (buffer_of (decode_packets (create_transport_codec proto) s).1 ≡ []))
      (one_packet (create_transport_codec proto) packet
        ∙ ap (λ (c : Codec). (encode_packet c packet).0) (sym fresh)
        ∙ sym ((send_packet_prefix answers packet codec conn).1 done))
      (decode_packets-send_all proto (packet ∷ []) (fits, tt)
        (omega (
          arith,
          ap length (one_packet (create_transport_codec proto) packet),
          frame_size (create_transport_codec proto) packet,
        )))

module _ (o : Openssl) (laws : IsOpenssl o) where
  sends :
      (answers : List ℕ) (epoch_ms : ℕ) (r : Random) (payload packet : List ℕ) (content : Bool)
      (c : MtprotoClient)
      → c.connection.is_connected ≡ true
      → (pack_encrypted_message o epoch_ms r payload content c.session).0 ≡ ok packet
      → (send_encrypted o answers epoch_ms r payload content c).0
        ≡ ok (send_packet answers packet c.codec c.connection).0
  unfolding send_encrypted
  sends answers epoch_ms r payload packet content c e f = rw (f, ap not e, send_encrypted) refl

  -- A connected client with a fresh codec of any protocol sends a payload of less than 16 MiB, with
  -- room for the headers. The call throws nothing, whatever the socket does. If the socket's loop
  -- succeeds, the bytes that it has taken are one frame: a fresh codec of the same protocol decodes
  -- them to one packet and keeps nothing, and a session with the same authorisation key accepts that
  -- packet as this payload, with the id and the sequence number that the sender's session gave it.
  pub send_encrypted_delivered :
      (answers : List ℕ) (epoch_ms : ℕ) (r : Random) (payload : List ℕ) (content : Bool)
      (c : MtprotoClient) (proto : TransportProtocol) (t : Session) (out : MtprotoMessage)
      → c.connection.is_connected ≡ true
      → c.codec ≡ create_transport_codec proto
      → IsRandom r
      → length c.session.auth_key ≡ 256
      → t.auth_key ≡ c.session.auth_key
      → t.auth_key_id ≡ c.session.auth_key_id
      → IsU64 c.session.auth_key_id
      → All IsByte payload
      → length payload + 128 < 16 * 1024 * 1024
      → let (msg_id, s1) = generate_msg_id epoch_ms c.session in
        let seq_no = (generate_seq_no content s1).0 in
        (packet : List ℕ) × (result : Sending) × (sent : List ℕ) × ((send_encrypted o answers
            epoch_ms r payload content c).0
          ≡ ok (result, sent))
        × (result ≡ success
            → ((decode_packets (create_transport_codec proto) sent).0 ≡ ok (packet ∷ []))
              × (buffer_of (decode_packets (create_transport_codec proto) sent).1 ≡ []))
        × (unpack_encrypted_message o t packet out
            ≡ (accepted, record { msg_id = msg_id; seq_no = seq_no; payload = payload }))
  send_encrypted_delivered answers epoch_ms r payload content c proto t out connected fresh random h
        same same_id id bytes small =
      let (packet, packed, whole, size, accepts) =
        unpack-pack_encrypted_message o laws epoch_ms r payload content c.session t out random h
          same same_id id bytes (omega arith) in
      let (result, sent) = (send_packet answers packet c.codec c.connection).0 in
      let fits : Fits (format_of (create_transport_codec proto)) packet =
        small-Fits (format_of (create_transport_codec proto)) packet whole (omega arith) in
      let bounded : length packet < 2 ^ 24 = omega arith in
      (
        packet,
        result,
        sent,
        sends answers epoch_ms r payload packet content c connected packed,
        λ e. decodes answers packet c.codec c.connection proto fresh fits bounded e,
        accepts,
      )
