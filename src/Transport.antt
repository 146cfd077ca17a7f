-- ===== src/Transport.antt =====
-- include/cppgram/transport.hpp and src/core/transport.cpp: the codecs that cut a TCP stream into
-- packets. A decoder's `buffer_.data() + offset` is the list of the bytes that it has not passed;
-- erasing the bytes before `offset` at the end leaves that list.
pub mod Crc
pub mod Scan
mod Abridged
mod Intermediate
mod Full
pub mod Exchange
pub mod Stream
pub mod Misframing
pub mod Failures
mod Tests
use cpp_gram.Common.{
  ℕ, zero, suc, ◌+◌, ◌-◌, ◌*◌, ◌/◌, ◌%◌, ◌^◌, Bool, ◌||◌, not, List, [], ◌∷◌, ◌++◌, length, get_or,
  take, drop, ltb, ◌==◌, if◌then◌else◌, Outcome, ok, throws,
}
use cpp_gram.Common.Bytes.{le24, le32, byte_at}
use Crc.{compute_crc32}

pub data TransportProtocol : Type 0 where
  abridged intermediate padded_intermediate full : TransportProtocol

-- How a call of `decode_packets` can go wrong. The first two are `std::runtime_error`s;
-- `out_of_bounds` is undefined behaviour, a read past the end of the buffer; `no_progress` is no
-- behaviour of a call that returns: the loop of the model has run out of fuel.
pub data Failure : Type 0 where
  invalid_length crc_mismatch out_of_bounds no_progress : Failure

-- One turn of a decoder's loop: leave it by `break` or its test, take a packet off the front, or
-- fail.
pub data Frame : Type 0 where
  wait : Frame
  packet : List ℕ → List ℕ → Frame
  failed : Failure → Frame

pub data Ending : Type 0 where
  drained : Ending
  stopped : Failure → Ending

pub record Decoded : Type 0 where
  pub packets : List (List ℕ)
  pub rest : List ℕ
  pub ending : Ending

abbrev pub prepend : List ℕ → Decoded → Decoded
prepend p d = record d { packets = p ∷ d.packets }

-- The decoder's loop over its turns.
unfoldable pub scan : (List ℕ → Frame) → ℕ → List ℕ → Decoded
scan frame zero s = record { packets = []; rest = s; ending = stopped no_progress }
scan frame (suc fuel) s = elim (frame s) [
  | wait ↦ record { packets = []; rest = s; ending = drained }
  | packet p rest ↦ prepend p (scan frame fuel rest)
  | failed e ↦ record { packets = []; rest = s; ending = stopped e }
]

unfoldable pub scan_all : (List ℕ → Frame) → List ℕ → Decoded
unfolding scan
scan_all frame s = scan frame (suc (length s)) s

-- `buffer_.size() - offset < header_len + payload_len`, then the packet.
abbrev take_frame : ℕ → ℕ → List ℕ → Frame
take_frame header_len payload_len s =
    if ltb (length s) (header_len + payload_len)
    then wait
    else packet (take payload_len (drop header_len s)) (drop (header_len + payload_len) s)

unfoldable pub abridged_frame : List ℕ → Frame
abridged_frame [] = wait
abridged_frame (first ∷ s) =
    if ltb first 0x7f
    then take_frame 1 (first * 4) (first ∷ s)
    else if ltb (length (first ∷ s)) 4
    then wait
    else take_frame 4 (le24 (get_or s 0 0) (get_or s 1 0) (get_or s 2 0) * 4) (first ∷ s)

-- The length field of the intermediate and the full transport.
abbrev pub length_field : List ℕ → ℕ
length_field s = le32 (get_or s 0 0) (get_or s 1 0) (get_or s 2 0) (get_or s 3 0)

-- `4 + payload_len` is a sum of 32-bit words, and wraps; the packet is read by `payload_len` itself.
unfoldable pub intermediate_frame : List ℕ → Frame
intermediate_frame s =
    if ltb (length s) 4
    then wait
    else if ltb (length s) ((4 + length_field s) % 2 ^ 32)
    then wait
    else if ltb (length s) (4 + length_field s)
    then failed out_of_bounds
    else packet (take (length_field s) (drop 4 s)) (drop ((4 + length_field s) % 2 ^ 32) s)

-- The checksum field of a full frame of `total_len` bytes.
abbrev pub crc_field : ℕ → List ℕ → ℕ
crc_field total_len s =
    le32 (get_or s (total_len - 4) 0) (get_or s (total_len - 3) 0) (get_or s (total_len - 2) 0)
      (get_or s (total_len - 1) 0)

unfoldable pub full_frame : List ℕ → Frame
full_frame s =
    if ltb (length s) 12
    then wait
    else if ltb (length_field s) 12 || ltb (16 * 1024 * 1024) (length_field s)
    then failed invalid_length
    else if ltb (length s) (length_field s)
    then wait
    else if not (crc_field (length_field s) s == compute_crc32 (take (length_field s - 4) s))
    then failed crc_mismatch
    else packet (take (length_field s - 12) (drop 8 s)) (drop (length_field s) s)

-- The codec classes.
pub record FullCodec : Type 0 where
  pub out_seq_no : ℕ
  pub in_seq_no : ℕ
  pub buffer : List ℕ

-- An `ITransportCodec` behind a pointer; the first two classes have the buffer alone.
pub data Codec : Type 0 where
  abridged_codec intermediate_codec : List ℕ → Codec
  full_codec : FullCodec → Codec

unfoldable pub create_transport_codec : TransportProtocol → Codec
create_transport_codec abridged = abridged_codec []
create_transport_codec intermediate = intermediate_codec []
create_transport_codec padded_intermediate = intermediate_codec []
create_transport_codec full = full_codec (record { out_seq_no = 0; in_seq_no = 0; buffer = [] })

unfoldable pub get_header : Codec → List ℕ
get_header (abridged_codec b) = 0xef ∷ []
get_header (intermediate_codec b) = 0xee ∷ 0xee ∷ 0xee ∷ 0xee ∷ []
get_header (full_codec c) = []

unfoldable pub abridged_encode : List ℕ → List ℕ
abridged_encode bytes =
    let words = (length bytes + 3) / 4 in
    if ltb words 127
    then (words % 256) ∷ bytes
    else 0x7f ∷ byte_at words 0 ∷ byte_at words 1 ∷ byte_at words 2 ∷ bytes

-- Four bytes, lowest first.
abbrev pub word_bytes : ℕ → List ℕ
word_bytes v = byte_at v 0 ∷ byte_at v 1 ∷ byte_at v 2 ∷ byte_at v 3 ∷ []

unfoldable pub intermediate_encode : List ℕ → List ℕ
intermediate_encode bytes = word_bytes (length bytes % 2 ^ 32) ++ bytes

-- The frame before its checksum.
abbrev pub unchecked : ℕ → List ℕ → List ℕ
unchecked seq bytes = word_bytes ((length bytes + 12) % 2 ^ 32) ++ (word_bytes seq ++ bytes)

unfoldable pub full_encode : ℕ → List ℕ → List ℕ
full_encode seq bytes = let out = unchecked seq bytes in out ++ word_bytes (compute_crc32 out)

unfoldable pub encode_packet : Codec → List ℕ → List ℕ × Codec
unfolding abridged_encode intermediate_encode full_encode
encode_packet (abridged_codec b) bytes = (abridged_encode bytes, abridged_codec b)
encode_packet (intermediate_codec b) bytes = (intermediate_encode bytes, intermediate_codec b)
encode_packet (full_codec c) bytes = (
  full_encode c.out_seq_no bytes,
  full_codec (record c { out_seq_no = (c.out_seq_no + 1) % 2 ^ 32 }),
)

-- What the loop has left behind: the unread bytes if it ended, all bytes if an exception left it.
abbrev pub left_over : List ℕ → Decoded → List ℕ
left_over s d = elim d.ending [ drained ↦ d.rest | stopped e ↦ s ]

abbrev pub answer : Decoded → Outcome Failure (List (List ℕ))
answer d = elim d.ending [ drained ↦ ok d.packets | stopped e ↦ throws e ]

unfoldable pub decode_packets : Codec → List ℕ → Outcome Failure (List (List ℕ)) × Codec
decode_packets (abridged_codec b) bytes =
    let d = scan_all abridged_frame (b ++ bytes) in
    (answer d, abridged_codec (left_over (b ++ bytes) d))
decode_packets (intermediate_codec b) bytes =
    let d = scan_all intermediate_frame (b ++ bytes) in
    (answer d, intermediate_codec (left_over (b ++ bytes) d))
decode_packets (full_codec c) bytes =
    let d = scan_all full_frame (c.buffer ++ bytes) in
    (
      answer d,
      full_codec (record c {
        in_seq_no = (c.in_seq_no + length d.packets) % 2 ^ 32;
        buffer = left_over (c.buffer ++ bytes) d;
      }),
    )

unfoldable pub reset : Codec → Codec
reset (abridged_codec b) = abridged_codec []
reset (intermediate_codec b) = intermediate_codec []
reset (full_codec c) = full_codec (record { out_seq_no = 0; in_seq_no = 0; buffer = [] })
