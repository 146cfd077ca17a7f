-- ===== src/Transport/Stream.antt =====
-- Packets sent through one codec and received by another over a stream that arrives in pieces.
use cpp_gram.Common.{
  ℕ, zero, suc, ◌^◌, ◌<◌, ◌≡◌, refl, sym, ap, ◌∙◌, List, [], ◌∷◌, ◌++◌, append-nil, append_assoc,
  length, length-append, arith, All, ok, resume, resume_ok, subst,
}
use mathlib.Core.List.{flatten}
use cpp_gram.Transport.{
  wait, packet, drained, Decoded, prepend, scan, scan_all, TransportProtocol, Codec, abridged_codec,
  intermediate_codec, full_codec, create_transport_codec, encode_packet, decode_packets,
}
use cpp_gram.Transport.Scan.{
  scan_wait, scan-packet, scan_all_wait, scan_all_prefix, scan_all_append, scan_all_rest,
  scan_all_settled,
}
use cpp_gram.Transport.Exchange.{
  Format, format_of, frame_of, buffer_of, Fits, send_all, receive_all, format-Framing,
  encode_packet-reads, encode_packet-format,
}

-- The decoder's loop over all that was sent.
scan-send_all :
    (f : Format) (ps : List (List ℕ)) (c : Codec) (n : ℕ)
    → format_of c ≡ f
    → All (Fits f) ps
    → length (send_all c ps).0 < 2 ^ 32
    → length (send_all c ps).0 < n
    → scan (frame_of f) n (send_all c ps).0 ≡ record { packets = ps; rest = []; ending = drained }
unfolding send_all
scan-send_all f [] c zero e h small hn = absurd (omega arith)
scan-send_all f [] c (suc n) e h small hn = scan_wait (frame_of f) n [] (format-Framing f).nothing
scan-send_all f (p ∷ ps) c zero e h small hn = absurd (omega arith)
scan-send_all f (p ∷ ps) c (suc n) e h small hn =
    scan-packet (frame_of f) n (out ++ rest) p rest first
    ∙ ap (prepend p) (
        scan-send_all f ps (encode_packet c p).1 n (encode_packet-format c p ∙ e) h.1
          (omega (arith, less)) (omega (arith, less)))
  where
    out : List ℕ
    out = (encode_packet c p).0

    rest : List ℕ
    rest = (send_all (encode_packet c p).1 ps).0

    first : frame_of f (out ++ rest) ≡ packet p rest
    first =
        subst (λ g. Fits g p → frame_of g (out ++ rest) ≡ packet p rest) e
          (encode_packet-reads c p rest) h.0

    less : length rest < length (out ++ rest)
    less = (format-Framing f).shrinks (out ++ rest) p rest small first

-- A call whose loop ends by itself answers the packets, and keeps what is left for the next call.
decode_packets_drained :
    (c : Codec) (x : List ℕ)
    → (scan_all (frame_of (format_of c)) (buffer_of c ++ x)).ending ≡ drained
    → let d = scan_all (frame_of (format_of c)) (buffer_of c ++ x) in
      ((decode_packets c x).0 ≡ ok d.packets)
      × (buffer_of (decode_packets c x).1 ≡ d.rest)
      × (format_of (decode_packets c x).1 ≡ format_of c)
unfolding decode_packets
decode_packets_drained (abridged_codec b) x h = (rw h, rw h, refl)
decode_packets_drained (intermediate_codec b) x h = (rw h, rw h, refl)
decode_packets_drained (full_codec c) x h = (rw h, rw h, refl)

receive_all_step :
    (c : Codec) (x : List ℕ) (chunks ps qs : List (List ℕ))
    → (decode_packets c x).0 ≡ ok ps
    → (receive_all (decode_packets c x).1 chunks).0 ≡ ok qs
    → receive_all c (x ∷ chunks) ≡ (ok (ps ++ qs), (receive_all (decode_packets c x).1 chunks).1)
unfolding receive_all
receive_all_step c x chunks ps qs e1 e2 =
    resume_ok (decode_packets c x)
      (λ ps c1. resume (receive_all c1 chunks) (λ qs c2. (ok (ps ++ qs), c2))) ps e1
    ∙ resume_ok (receive_all (decode_packets c x).1 chunks) (λ qs c2. (ok (ps ++ qs), c2)) qs e2

pub decode_packets_as :
    (f : Format) (c : Codec) (buf x : List ℕ)
    → format_of c ≡ f
    → buffer_of c ≡ buf
    → (scan_all (frame_of f) (buf ++ x)).ending ≡ drained
    → ((decode_packets c x).0 ≡ ok (scan_all (frame_of f) (buf ++ x)).packets)
      × (buffer_of (decode_packets c x).1 ≡ (scan_all (frame_of f) (buf ++ x)).rest)
      × (format_of (decode_packets c x).1 ≡ f)
decode_packets_as f c buf x e b h = rw (← e, ← b) (decode_packets_drained c x (rw (e, b) h))

-- The first piece `x` of an input whose remaining pieces are `b` together.
module _ (f : Format) (buf x b : List ℕ) (small : length (buf ++ (x ++ b)) < 2 ^ 32)
    (h : (scan_all (frame_of f) (buf ++ (x ++ b))).ending ≡ drained) where
  first : Decoded
  first = scan_all (frame_of f) (buf ++ x)

  later : Decoded
  unfolding first
  later = scan_all (frame_of f) (first.rest ++ b)

  regroup : buf ++ (x ++ b) ≡ (buf ++ x) ++ b
  regroup = sym (append_assoc buf x b)

  small_all : length ((buf ++ x) ++ b) < 2 ^ 32
  small_all = rw (← regroup) small

  first_drains : first.ending ≡ drained
  unfolding first
  first_drains =
      scan_all_prefix (frame_of f) (format-Framing f) (buf ++ x) b small_all (rw (← regroup) h)

  split :
      scan_all (frame_of f) (buf ++ (x ++ b))
      ≡ record later { packets = first.packets ++ later.packets }
  unfolding first later
  split =
      ap (scan_all (frame_of f)) regroup
      ∙ scan_all_append (frame_of f) (format-Framing f) (buf ++ x) b small_all first_drains

  first_settled : frame_of f first.rest ≡ wait
  unfolding first
  first_settled = scan_all_settled (frame_of f) (format-Framing f) (buf ++ x) first_drains

  later_small : length (first.rest ++ b) < 2 ^ 32
  unfolding first
  later_small = omega (
    arith,
    scan_all_rest (frame_of f) (format-Framing f) (buf ++ x)
        (omega (arith, small_all, length-append (buf ++ x) b)),
    small_all,
    length-append (buf ++ x) b,
    length-append first.rest b,
  )

  later_drains : later.ending ≡ drained
  later_drains = sym (ap (λ (z : Decoded). z.ending) split) ∙ h

-- If the loop drains all that is buffered and still to come, then the pieces give the same packets.
receive_all-scan :
    (f : Format) (chunks : List (List ℕ)) (c : Codec) (buf : List ℕ)
    → format_of c ≡ f
    → buffer_of c ≡ buf
    → frame_of f buf ≡ wait
    → length (buf ++ flatten chunks) < 2 ^ 32
    → (scan_all (frame_of f) (buf ++ flatten chunks)).ending ≡ drained
    → let d = scan_all (frame_of f) (buf ++ flatten chunks) in
      ((receive_all c chunks).0 ≡ ok d.packets) × (buffer_of (receive_all c chunks).1 ≡ d.rest)
unfolding flatten first later
receive_all-scan f [] c buf e eb w small h =
    rw (append-nil buf, scan_all_wait (frame_of f) (format-Framing f) buf w)
      (unfold receive_all in (refl, eb))
receive_all-scan f (x ∷ chunks) c buf e eb w small h =
    let b = flatten chunks in
    let now = decode_packets_as f c buf x e eb (first_drains f buf x b small h) in
    let ih =
      receive_all-scan f chunks (decode_packets c x).1 (first f buf x b small h).rest now.2 now.1
        (first_settled f buf x b small h) (later_small f buf x b small h)
        (later_drains f buf x b small h) in
    rw (receive_all_step c x chunks _ _ now.0 ih.0, split f buf x b small h) (refl, ih.1)

pub created_empty : (proto : TransportProtocol) → buffer_of (create_transport_codec proto) ≡ []
unfolding create_transport_codec
created_empty TransportProtocol.abridged = refl
created_empty TransportProtocol.intermediate = refl
created_empty TransportProtocol.padded_intermediate = refl
created_empty TransportProtocol.full = refl

-- One call on all that was sent returns all payloads, and leaves nothing in the buffer.
pub decode_packets-send_all :
    (proto : TransportProtocol) (payloads : List (List ℕ))
    → let c = create_transport_codec proto in
      All (Fits (format_of c)) payloads
      → length (send_all c payloads).0 < 2 ^ 32
      → ((decode_packets c (send_all c payloads).0).0 ≡ ok payloads)
        × (buffer_of (decode_packets c (send_all c payloads).0).1 ≡ [])
decode_packets-send_all proto payloads fits small =
    let found =
      decode_packets_as (format_of c) c [] (send_all c payloads).0 refl (created_empty proto)
        (ap (λ (d : Decoded). d.ending) whole) in
    (
      found.0 ∙ ap (λ (d : Decoded). ok d.packets) whole,
      found.1 ∙ ap (λ (d : Decoded). d.rest) whole,
    )
  where
    c : Codec
    c = create_transport_codec proto

    whole :
        scan_all (frame_of (format_of c)) (send_all c payloads).0
        ≡ record { packets = payloads; rest = []; ending = drained }
    whole =
        unfold scan_all in
        scan-send_all (format_of c) payloads c (suc (length (send_all c payloads).0)) refl fits
          small (omega arith)

-- Whatever the protocol, however the stream is cut into pieces: two codecs made alike, one sending
-- payloads that its format carries, the other given pieces that make up what was sent. The receiver
-- throws nothing, returns exactly the payloads in their order, and has nothing left in its buffer.
-- The stream is below 4 GiB, so that a buffer's length is a 32-bit word.
pub receive_all-send_all :
    (proto : TransportProtocol) (payloads chunks : List (List ℕ))
    → let c = create_transport_codec proto in
      All (Fits (format_of c)) payloads
      → flatten chunks ≡ (send_all c payloads).0
      → length (flatten chunks) < 2 ^ 32
      → ((receive_all c chunks).0 ≡ ok payloads) × (buffer_of (receive_all c chunks).1 ≡ [])
receive_all-send_all proto payloads chunks fits e small =
    let found =
      receive_all-scan f chunks c [] refl (created_empty proto) (format-Framing f).nothing small
        (ap (λ (d : Decoded). d.ending) whole) in
    (
      found.0 ∙ ap (λ (d : Decoded). ok d.packets) whole,
      found.1 ∙ ap (λ (d : Decoded). d.rest) whole,
    )
  where
    c : Codec
    c = create_transport_codec proto

    f : Format
    f = format_of c

    whole :
        scan_all (frame_of f) (flatten chunks)
        ≡ record { packets = payloads; rest = []; ending = drained }
    whole =
        ap (scan_all (frame_of f)) e
        ∙ unfold scan_all in
          scan-send_all f payloads c (suc (length (send_all c payloads).0)) refl fits
            (rw (← e) small) (omega arith)
