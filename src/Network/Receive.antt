-- ===== src/Network/Receive.antt =====
-- What receive_packet makes of frames that come together, and of a frame that comes in two pieces.
use cpp_gram.Common.{
  ℕ, ◌^◌, ◌<◌, ◌≡◌, ◌≢◌, refl, sym, ap, ◌∙◌, true, Option, List, [], ◌∷◌, ◌++◌, some, none, length,
  All, Outcome, ok,
}
use cpp_gram.Transport.Scan.{scan_all_wait}
use cpp_gram.Transport.{
  wait, drained, Decoded, scan, scan_all, abridged_frame, intermediate_frame, full_frame,
  TransportProtocol, Codec, create_transport_codec, decode_packets, Failure,
}
use cpp_gram.Transport.Exchange.{format_of, frame_of, buffer_of, Fits, send_all, format-Framing}
use cpp_gram.Transport.Stream.{decode_packets-send_all, decode_packets_as, created_empty}
use cpp_gram.Network.{TcpConnection, front_packet, receive_loop, receive_packet}

abbrev pub open_connection : TcpConnection
open_connection = record { is_connected = true; rx_buffer = [] }

append_filled : (a b : List ℕ) → a ≢ [] → a ++ b ≢ []
append_filled [] b na e = na refl
append_filled (x ∷ a) b na e = absurd (cc e)

front_packet_found :
    (c : Codec) (rx p : List ℕ) (ps : List (List ℕ))
    → rx ≢ []
    → (decode_packets c rx).0 ≡ ok (p ∷ ps)
    → front_packet c rx ≡ (ok (some p), (decode_packets c rx).1)
unfolding front_packet
front_packet_found c [] p ps ne h = absurd (ne refl)
front_packet_found c (b ∷ rx) p ps ne h = rw (h, front_packet) refl

front_packet_missing :
    (c : Codec) (rx : List ℕ)
    → rx ≢ []
    → (decode_packets c rx).0 ≡ ok []
    → front_packet c rx ≡ (ok none, (decode_packets c rx).1)
unfolding front_packet
front_packet_missing c [] ne h = absurd (ne refl)
front_packet_missing c (b ∷ rx) ne h = rw (h, front_packet) refl

receive_loop_found :
    (chunks : List (List ℕ)) (c c1 : Codec) (rx p : List ℕ)
    → front_packet c rx ≡ (ok (some p), c1)
    → receive_loop chunks c rx ≡ (ok p, c1, [])
unfolding receive_loop
receive_loop_found [] c c1 rx p e =
    rw
      (
        ap (λ (r : Outcome Failure (Option (List ℕ)) × Codec). r.0) e,
        ap (λ (r : Outcome Failure (Option (List ℕ)) × Codec). r.1) e,
        receive_loop,
      )
      refl
receive_loop_found (x ∷ chunks) c c1 rx p e =
    rw
      (
        ap (λ (r : Outcome Failure (Option (List ℕ)) × Codec). r.0) e,
        ap (λ (r : Outcome Failure (Option (List ℕ)) × Codec). r.1) e,
        receive_loop,
      )
      refl

receive_loop_missing :
    (chunk : List ℕ) (chunks : List (List ℕ)) (c c1 : Codec) (rx : List ℕ)
    → chunk ≢ []
    → front_packet c rx ≡ (ok none, c1)
    → receive_loop (chunk ∷ chunks) c rx ≡ receive_loop chunks c1 (rx ++ chunk)
unfolding receive_loop
receive_loop_missing [] chunks c c1 rx ne e = absurd (ne refl)
receive_loop_missing (b ∷ bytes) chunks c c1 rx ne e =
    rw
      (
        ap (λ (r : Outcome Failure (Option (List ℕ)) × Codec). r.0) e,
        ap (λ (r : Outcome Failure (Option (List ℕ)) × Codec). r.1) e,
        receive_loop,
      )
      refl

-- One chunk into an empty buffer is looked at by itself.
first_chunk :
    (c : Codec) (chunk : List ℕ) (chunks : List (List ℕ))
    → chunk ≢ []
    → receive_loop (chunk ∷ chunks) c [] ≡ receive_loop chunks c chunk
first_chunk c chunk chunks ne =
    receive_loop_missing chunk chunks c c [] ne (unfold front_packet in refl)

nothing_decoded :
    (proto : TransportProtocol) → (decode_packets (create_transport_codec proto) []).0 ≡ ok []
unfolding create_transport_codec decode_packets scan_all scan abridged_frame intermediate_frame
    full_frame
nothing_decoded TransportProtocol.abridged = refl
nothing_decoded TransportProtocol.intermediate = refl
nothing_decoded TransportProtocol.padded_intermediate = refl
nothing_decoded TransportProtocol.full = refl

-- Frames that arrive together: the first payload is returned, and of the others nothing is left, in
-- the codec or in the connection.
pub receive_packet_together :
    (proto : TransportProtocol) (p : List ℕ) (ps chunks : List (List ℕ))
    → let c = create_transport_codec proto in
      All (Fits (format_of c)) (p ∷ ps)
      → length (send_all c (p ∷ ps)).0 < 2 ^ 32
      → let (outcome, c1, conn) =
          receive_packet ((send_all c (p ∷ ps)).0 ∷ chunks) c open_connection in
        (outcome ≡ ok p) × (buffer_of c1 ≡ []) × (conn ≡ open_connection)
unfolding receive_packet
receive_packet_together proto p ps chunks fits small = (
  ap (λ (r : Outcome Failure (List ℕ) × Codec × List ℕ). r.0) looped,
  ap (λ (r : Outcome Failure (List ℕ) × Codec × List ℕ). buffer_of r.1) looped ∙ decoded.1,
  ap (λ (r : Outcome Failure (List ℕ) × Codec × List ℕ). record open_connection { rx_buffer = r.2 })
      looped,
)
  where
    c : Codec
    c = create_transport_codec proto

    sent : List ℕ
    sent = (send_all c (p ∷ ps)).0

    decoded : ((decode_packets c sent).0 ≡ ok (p ∷ ps)) × (buffer_of (decode_packets c sent).1 ≡ [])
    decoded = decode_packets-send_all proto (p ∷ ps) fits small

    filled : sent ≢ []
    filled e =
        absurd (cc (sym (ap (λ s. (decode_packets c s).0) e ∙ nothing_decoded proto) ∙ decoded.0))

    looped : receive_loop (sent ∷ chunks) c [] ≡ (ok p, (decode_packets c sent).1, [])
    looped =
        first_chunk c sent chunks filled
        ∙ receive_loop_found chunks c (decode_packets c sent).1 sent p
            (front_packet_found c sent p ps filled decoded.0)

-- A frame that arrives in two pieces, `a` and `b`: the codec keeps `a`, and the connection, which has
-- kept `a` too, gives it `a` once more before `b`. What is returned is the first packet of the bytes
-- `a`, `a`, `b`.
pub receive_packet_refeeds :
    (proto : TransportProtocol) (a b q : List ℕ) (qs chunks : List (List ℕ))
    → let c = create_transport_codec proto in
      let twice = scan_all (frame_of (format_of c)) (a ++ (a ++ b)) in
      a ≢ []
      → b ≢ []
      → frame_of (format_of c) a ≡ wait
      → twice.packets ≡ q ∷ qs
      → twice.ending ≡ drained
      → (receive_packet (a ∷ b ∷ chunks) c open_connection).0 ≡ ok q
unfolding receive_packet
receive_packet_refeeds proto a b q qs chunks na nb w found ends =
    ap (λ (r : Outcome Failure (List ℕ) × Codec × List ℕ). r.0)
      (first_chunk c a (b ∷ chunks) na
        ∙ receive_loop_missing b chunks c c1 a nb
            (front_packet_missing c a na (first.0 ∙ ap (λ (d : Decoded). ok d.packets) waits))
        ∙ receive_loop_found chunks c1 (decode_packets c1 (a ++ b)).1 (a ++ b) q
            (front_packet_found c1 (a ++ b) q qs filled (second.0 ∙ ap ok found)))
  where
    c : Codec
    c = create_transport_codec proto

    c1 : Codec
    c1 = (decode_packets c a).1

    waits :
        scan_all (frame_of (format_of c)) a ≡ record { packets = []; rest = a; ending = drained }
    waits = scan_all_wait (frame_of (format_of c)) (format-Framing (format_of c)) a w

    first :
        ((decode_packets c a).0 ≡ ok (scan_all (frame_of (format_of c)) a).packets)
        × (buffer_of c1 ≡ (scan_all (frame_of (format_of c)) a).rest)
        × (format_of c1 ≡ format_of c)
    first =
        decode_packets_as (format_of c) c [] a refl (created_empty proto)
          (ap (λ (d : Decoded). d.ending) waits)

    second :
        ((decode_packets c1 (a ++ b)).0
          ≡ ok (scan_all (frame_of (format_of c)) (a ++ (a ++ b))).packets)
        × (buffer_of (decode_packets c1 (a ++ b)).1
            ≡ (scan_all (frame_of (format_of c)) (a ++ (a ++ b))).rest)
        × (format_of (decode_packets c1 (a ++ b)).1 ≡ format_of c)
    second =
        decode_packets_as (format_of c) c1 a (a ++ b) first.2
          (first.1 ∙ ap (λ (d : Decoded). d.rest) waits) ends

    filled : a ++ b ≢ []
    filled e = append_filled a b na e
