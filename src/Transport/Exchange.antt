-- ===== src/Transport/Exchange.antt =====
-- The codecs by their format, and whole exchanges: what is sent by one call after the other, and what
-- the calls on the pieces of a stream return together.
use cpp_gram.Common.{ℕ, ◌≡◌, refl, List, [], ◌∷◌, ◌++◌, Outcome, ok, resume}
use cpp_gram.Transport.{
  Frame, packet, Failure, Codec, abridged_codec, intermediate_codec, full_codec, abridged_frame,
  intermediate_frame, full_frame, encode_packet, decode_packets,
}
use cpp_gram.Transport.Scan.{Framing}
use cpp_gram.Transport.Abridged.{abridged-Framing, AbridgedFits, abridged-reads}
use cpp_gram.Transport.Intermediate.{intermediate-Framing, IntermediateFits, intermediate-reads}
use cpp_gram.Transport.Full.{full-Framing, FullFits, full-reads}

-- The class of a codec, and the format that it speaks.
pub data Format : Type 0 where
  abridged intermediate full : Format

abbrev pub format_of : Codec → Format
format_of (abridged_codec b) = Format.abridged
format_of (intermediate_codec b) = Format.intermediate
format_of (full_codec c) = Format.full

abbrev pub frame_of : Format → List ℕ → Frame
frame_of Format.abridged = abridged_frame
frame_of Format.intermediate = intermediate_frame
frame_of Format.full = full_frame

abbrev pub buffer_of : Codec → List ℕ
buffer_of (abridged_codec b) = b
buffer_of (intermediate_codec b) = b
buffer_of (full_codec c) = c.buffer

-- The payloads that a format carries: whole words up to 2 ^ 24 of them; what a 32-bit length and
-- its header can count; frames up to 16 MiB.
abbrev pub Fits : Format → List ℕ → Type 0
Fits Format.abridged = AbridgedFits
Fits Format.intermediate = IntermediateFits
Fits Format.full = FullFits

-- A sequence of `encode_packet` calls, and one of `decode_packets` calls.
unfoldable pub send_all : Codec → List (List ℕ) → List ℕ × Codec
send_all c [] = ([], c)
send_all c (p ∷ ps) =
    let (out, c1) = encode_packet c p in let (outs, c2) = send_all c1 ps in (out ++ outs, c2)

unfoldable pub receive_all : Codec → List (List ℕ) → Outcome Failure (List (List ℕ)) × Codec
receive_all c [] = (ok [], c)
receive_all c (chunk ∷ chunks) =
    resume (decode_packets c chunk)
      (λ ps c1. resume (receive_all c1 chunks) (λ qs c2. (ok (ps ++ qs), c2)))

pub format-Framing : (f : Format) → Framing (frame_of f)
format-Framing Format.abridged = abridged-Framing
format-Framing Format.intermediate = intermediate-Framing
format-Framing Format.full = full-Framing

pub encode_packet-reads :
    (c : Codec) (p t : List ℕ)
    → Fits (format_of c) p
    → frame_of (format_of c) ((encode_packet c p).0 ++ t) ≡ packet p t
unfolding encode_packet
encode_packet-reads (abridged_codec b) p t h = abridged-reads p t h
encode_packet-reads (intermediate_codec b) p t h = intermediate-reads p t h
encode_packet-reads (full_codec c) p t h = full-reads c.out_seq_no p t h

pub encode_packet-format : (c : Codec) (p : List ℕ) → format_of (encode_packet c p).1 ≡ format_of c
unfolding encode_packet
encode_packet-format (abridged_codec b) p = refl
encode_packet-format (intermediate_codec b) p = refl
encode_packet-format (full_codec c) p = refl
