-- ===== src/MtprotoClient.antt =====
-- include/cppgram/mtproto_client.hpp and src/core/mtproto_client.cpp: a session, a codec and a
-- connection put together. The socket's answers and the clock's reading are arguments of the calls.
pub mod Delivery
pub mod Ping
mod Tests
use cpp_gram.Common.{
  ℕ, Bool, true, false, not, List, [], ◌∷◌, Option, none, some, length, ltb, ◌==◌, if◌then◌else◌,
  Outcome, ok, throws,
}
use cpp_gram.Tl.{
  TlWriter, new_writer, take_data, new_reader, write_uint32, write_int64, write_invoke_with_layer,
  TlError, Read, ◌>>=◌, pure, read_uint32, read_int64, tl_ping, tl_pong,
}
use cpp_gram.Transport.{
  TransportProtocol, intermediate, Codec, Failure, create_transport_codec, get_header, reset,
}
use cpp_gram.Crypto.{Openssl, Random, CryptoError}
use cpp_gram.Session.{
  Session, fresh_session, generate_msg_id, pack_unencrypted_message, pack_encrypted_message,
}
use cpp_gram.Network.{
  TcpConnection, DatacenterManager, Sending, failure, success, disconnect, connect, send_bytes,
  send_packet, receive_packet, get_dc, default_manager,
}

pub record MtprotoClient : Type 0 where
  pub test_mode : Bool
  pub dc_mgr : DatacenterManager
  pub codec : Codec
  pub connection : TcpConnection
  pub session : Session
  pub active_dc_id : ℕ
  pub active_protocol : TransportProtocol

-- A client of a configuration: the entries that the model reads are its arguments.
unfoldable new_client : Bool → ℕ → Random → MtprotoClient
new_client test_mode primary_dc r = record {
  test_mode = test_mode;
  dc_mgr = default_manager;
  codec = create_transport_codec intermediate;
  connection = record { is_connected = false; rx_buffer = [] };
  session = fresh_session r;
  active_dc_id = primary_dc;
  active_protocol = intermediate;
}

unfoldable pub disconnect_client : MtprotoClient → MtprotoClient
disconnect_client c = record c { connection = disconnect c.connection; codec = reset c.codec }

-- The transport's header, if it has one, goes out first.
unfoldable pub send_header : List ℕ → MtprotoClient → Bool × MtprotoClient
send_header answers c =
    if length (get_header c.codec) == 0
    then (true, c)
    else elim (send_bytes answers (get_header c.codec) c.connection).0 [
      | success ↦ (true, c)
      | _ ↦ (false, record c { connection = disconnect c.connection })
    ]

unfoldable pub connect_client :
    Bool → List ℕ → ℕ → TransportProtocol → MtprotoClient → Bool × MtprotoClient
connect_client established answers dc_id proto c0 =
    let c = disconnect_client c0 in
    elim (get_dc dc_id c.test_mode c.dc_mgr) [
      | none ↦ (false, c)
      | some dc ↦
          let (connected, connection) = connect established c.connection in
          let c1 = record c {
            codec = create_transport_codec proto;
            active_dc_id = dc_id;
            active_protocol = proto;
            connection = connection;
          } in
          if connected then send_header answers c1 else (false, c1)
    ]

-- What a call has sent, with the answer of the socket's loop.
unfoldable pub send_unencrypted :
    List ℕ → ℕ → List ℕ → MtprotoClient → (Sending × List ℕ) × MtprotoClient
send_unencrypted answers epoch_ms payload c =
    let (packet, session) = pack_unencrypted_message epoch_ms payload c.session in
    let (sent, codec) = send_packet answers packet c.codec c.connection in
    if not c.connection.is_connected
    then ((failure, []), c)
    else (sent, record c { session = session; codec = codec })

module _ (o : Openssl) where
  -- An exception of the envelope leaves the codec and the connection as they were.
  unfoldable pub send_encrypted :
      List ℕ
      → ℕ
      → Random
      → List ℕ
      → Bool
      → MtprotoClient
      → Outcome CryptoError (Sending × List ℕ) × MtprotoClient
  send_encrypted answers epoch_ms r payload is_content_related c =
      let (packed, session) =
        pack_encrypted_message o epoch_ms r payload is_content_related c.session in
      if not c.connection.is_connected then (ok (failure, []), c) else elim packed [
        | throws e ↦ (throws e, record c { session = session })
        | ok packet ↦
            let (sent, codec) = send_packet answers packet c.codec c.connection in
            (ok sent, record c { session = session; codec = codec })
      ]

unfoldable pub receive_response :
    List (List ℕ) → MtprotoClient → Outcome Failure (List ℕ) × MtprotoClient
receive_response chunks c =
    let (outcome, codec, connection) = receive_packet chunks c.codec c.connection in
    if c.connection.is_connected
    then (outcome, record c { codec = codec; connection = connection })
    else (ok [], c)

unfoldable pub build_ping_query : ℕ → List ℕ
build_ping_query ping_id = (take_data (write_int64 (write_uint32 new_writer tl_ping) ping_id)).0

-- The reads of parse_pong_response: the ping id, or `none` for another constructor.
unfoldable pub read_pong : Read (Option ℕ)
read_pong = do
  ctor ← read_uint32
  elim (ctor == tl_pong) [
    | false ↦ pure none
    | true ↦ do msg_id ← read_int64; ping_id ← read_int64; pure (some ping_id)
  ]

-- The ping id, or `none` for the answer `false`.
unfoldable pub parse_pong_response : List ℕ → Option ℕ
parse_pong_response bytes =
    if ltb (length bytes) 20
    then none
    else elim (read_pong (new_reader bytes)).0 [ ok answer ↦ answer | throws e ↦ none ]

module _ (o : Openssl) where
  -- A ping id of 0 is replaced by a message id, drawn at `epoch_ms`; the message is packed at
  -- `later_ms`.
  unfoldable pub ping :
      List ℕ
      → ℕ
      → ℕ
      → Random
      → ℕ
      → MtprotoClient
      → Outcome CryptoError (Sending × List ℕ) × MtprotoClient
  ping answers epoch_ms later_ms r ping_id c =
      let (drawn, session) = generate_msg_id epoch_ms c.session in
      if ping_id == 0
      then send_encrypted o answers later_ms r (build_ping_query drawn) false
          (record c { session = session })
      else send_encrypted o answers later_ms r (build_ping_query ping_id) false c

unfoldable pub build_invoke_with_layer_query : ℕ → List ℕ → List ℕ
build_invoke_with_layer_query layer rpc_query =
    (take_data (write_invoke_with_layer new_writer layer rpc_query)).0

module _ (o : Openssl) where
  unfoldable pub send_with_layer :
      List ℕ
      → ℕ
      → Random
      → ℕ
      → List ℕ
      → Bool
      → MtprotoClient
      → Outcome CryptoError (Sending × List ℕ) × MtprotoClient
  send_with_layer answers epoch_ms r layer rpc_query is_content_related c =
      send_encrypted o answers epoch_ms r (build_invoke_with_layer_query layer rpc_query)
        is_content_related c
