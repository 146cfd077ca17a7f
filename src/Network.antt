-- ===== src/Network.antt =====
-- include/cppgram/network.hpp and src/core/network.cpp: the table of data centers, and the connection
-- over which a codec's frames travel. The socket is what it answers: the numbers of bytes that
-- ::send takes, and the chunks that receive_bytes returns before the time is out.
pub mod Receive
pub mod Send
pub mod Datacenters
mod Tests
use cpp_gram.Common.{
  ℕ, zero, suc, ◌+◌, Bool, true, false, List, [], ◌∷◌, ◌++◌, Option, none, some, length, take, drop,
  if◌then◌else◌, ◌==◌, not, ◌||◌, Outcome, ok, throws,
}
use Prim.Native.String.{String}
use cpp_gram.Common.Maps.{number_key, find, assign, contains}
use cpp_gram.Transport.{Codec, Failure, encode_packet, decode_packets}

pub record TcpConnection : Type 0 where
  -- `socket_fd_ >= 0`
  pub is_connected : Bool
  pub rx_buffer : List ℕ

unfoldable pub disconnect : TcpConnection → TcpConnection
disconnect conn = record { is_connected = false; rx_buffer = [] }

-- `established` is what getaddrinfo, socket, connect and poll come to.
unfoldable pub connect : Bool → TcpConnection → Bool × TcpConnection
connect established conn =
    if established
    then (true, record { is_connected = true; rx_buffer = [] })
    else (false, disconnect conn)

-- What a call of the loop in send_bytes comes to: the answer `false` or `true`, or a ::send that does
-- not return; and the bytes that the socket has taken.
pub data Sending : Type 0 where
  failure success blocked : Sending

unfoldable pub send_loop : List ℕ → List ℕ → Sending × List ℕ
send_loop answers [] = (success, [])
send_loop [] (b ∷ bytes) = (blocked, [])
send_loop (sent ∷ answers) (b ∷ bytes) =
    let (result, taken) = send_loop answers (drop sent (b ∷ bytes)) in
    if sent == 0 then (failure, []) else (result, take sent (b ∷ bytes) ++ taken)

unfoldable pub send_bytes : List ℕ → List ℕ → TcpConnection → Sending × List ℕ
send_bytes answers bytes conn =
    if not conn.is_connected || length bytes == 0 then (failure, []) else send_loop answers bytes

unfoldable pub send_packet : List ℕ → List ℕ → Codec → TcpConnection → (Sending × List ℕ) × Codec
send_packet answers payload codec conn =
    let (frame, codec1) = encode_packet codec payload in
    if not conn.is_connected
    then ((failure, []), codec)
    else (send_bytes answers frame conn, codec1)

-- One look at the buffer: the first packet that the codec finds in it, if any.
unfoldable pub front_packet : Codec → List ℕ → Outcome Failure (Option (List ℕ)) × Codec
front_packet codec [] = (ok none, codec)
front_packet codec (b ∷ rx) =
    let (packets, codec1) = decode_packets codec (b ∷ rx) in
    elim packets [
      | throws e ↦ (throws e, codec1)
      | ok [] ↦ (ok none, codec1)
      | ok (p ∷ ps) ↦ (ok (some p), codec1)
    ]

-- The loop of receive_packet, on the chunks that receive_bytes returns; their end, or an empty chunk,
-- stands for an end of the time, of the data or of the connection. With the outcome, the codec and
-- the receive buffer.
unfoldable pub receive_loop :
    List (List ℕ) → Codec → List ℕ → Outcome Failure (List ℕ) × Codec × List ℕ
receive_loop [] codec rx =
    let (packet, codec1) = front_packet codec rx in
    elim packet [
      | throws e ↦ (throws e, codec1, rx)
      | ok none ↦ (ok [], codec1, rx)
      | ok (some p) ↦ (ok p, codec1, [])
    ]
receive_loop (chunk ∷ chunks) codec rx =
    let (packet, codec1) = front_packet codec rx in
    elim packet [
      | throws e ↦ (throws e, codec1, rx)
      | ok none ↦ elim chunk [
        | [] ↦ (ok [], codec1, rx)
        | b ∷ bytes ↦ receive_loop chunks codec1 (rx ++ (b ∷ bytes))
      ]
      | ok (some p) ↦ (ok p, codec1, [])
    ]

unfoldable pub receive_packet :
    List (List ℕ) → Codec → TcpConnection → Outcome Failure (List ℕ) × Codec × TcpConnection
receive_packet chunks codec conn =
    let (outcome, codec1, rx) = receive_loop chunks codec conn.rx_buffer in
    if conn.is_connected
    then (outcome, codec1, record conn { rx_buffer = rx })
    else (ok [], codec, conn)

pub record DataCenter : Type 0 where
  pub id : ℕ
  pub ip_v4 : String
  pub ip_v6 : String
  pub port : ℕ
  pub is_test : Bool
  pub name : String

pub record DatacenterManager : Type 0 where
  pub prod_dcs : List (ℕ × DataCenter)
  pub test_dcs : List (ℕ × DataCenter)
  pub primary_dc_id : ℕ

abbrev pub standard : ℕ → String → Bool → String → ℕ × DataCenter
standard id ip_v4 is_test name =
    (id, record { id = id; ip_v4 = ip_v4; ip_v6 = ""; port = 443; is_test = is_test; name = name })

-- The constructor, with init_default_dcs.
unfoldable pub default_manager : DatacenterManager
default_manager = record {
  prod_dcs =
      standard 1 "149.154.175.53" false "DC 1 (Miami, US)"
      ∷ standard 2 "149.154.167.51" false "DC 2 (Amsterdam, NL)"
      ∷ standard 3 "149.154.175.100" false "DC 3 (Miami, US)"
      ∷ standard 4 "149.154.167.91" false "DC 4 (Amsterdam, NL)"
      ∷ standard 5 "91.108.56.130" false "DC 5 (Singapore, SG)"
      ∷ [];
  test_dcs =
      standard 1 "149.154.175.10" true "DC 1 Test (Miami, US)"
      ∷ standard 2 "149.154.167.40" true "DC 2 Test (Amsterdam, NL)"
      ∷ standard 3 "149.154.175.117" true "DC 3 Test (Miami, US)"
      ∷ [];
  primary_dc_id = 2;
}

abbrev pub table : Bool → DatacenterManager → List (ℕ × DataCenter)
table test m = if test then m.test_dcs else m.prod_dcs

unfoldable pub get_dc : ℕ → Bool → DatacenterManager → Option DataCenter
get_dc id test m = find id (table test m)

unfoldable pub set_primary_dc : ℕ → DatacenterManager → DatacenterManager
set_primary_dc id m = if contains id m.prod_dcs then record m { primary_dc_id = id } else m

unfoldable pub get_primary_dc : Bool → DatacenterManager → Option DataCenter
get_primary_dc test m = get_dc m.primary_dc_id test m

unfoldable pub register_custom_dc : DataCenter → DatacenterManager → DatacenterManager
register_custom_dc dc m =
    if dc.is_test
    then record m { test_dcs = assign dc.id dc m.test_dcs }
    else record m { prod_dcs = assign dc.id dc m.prod_dcs }
