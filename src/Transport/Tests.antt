-- ===== src/Transport/Tests.antt =====
-- Concrete inputs for the codecs.
use cpp_gram.Common.{ℕ, ◌≡◌, ◌≢◌, ◌↔◌, ◌≤◌, refl, List, [], ◌∷◌, ◌++◌, ok, throws, arith, ◌-◌, ◌^◌}
use mathlib.Core.List.{flatten}
use cpp_gram.Common.Bytes.{byte_at, le32}
use cpp_gram.Transport.{
  TransportProtocol, Codec, full_codec, create_transport_codec, encode_packet, decode_packets,
  invalid_length, no_progress, out_of_bounds, failed, packet, length_field, intermediate_frame,
  abridged_frame, scan, scan_all, intermediate_encode, abridged_encode, full_frame,
}
use cpp_gram.Transport.Crc.{compute_crc32}
use cpp_gram.Transport.Exchange.{buffer_of, send_all, receive_all}
use cpp_gram.Transport.Stream.{receive_all-send_all}
use cpp_gram.Transport.Failures.{decode_packets_ends, decode_packets_poisoned}
use cpp_gram.Transport.Misframing.{intermediate_frame_out_of_bounds, abridged_frame_unaligned}

-- Two payloads, whose frames come in three pieces.
abbrev sender : Codec
sender = create_transport_codec TransportProtocol.intermediate

receive_all-send_all_example :
    ((receive_all sender ((2 ∷ 0 ∷ 0 ∷ []) ∷ (0 ∷ 7 ∷ 8 ∷ 1 ∷ 0 ∷ []) ∷ (0 ∷ 0 ∷ 9 ∷ []) ∷ [])).0
      ≡ ok ((7 ∷ 8 ∷ []) ∷ (9 ∷ []) ∷ []))
    × (buffer_of
          (receive_all sender
            ((2 ∷ 0 ∷ 0 ∷ []) ∷ (0 ∷ 7 ∷ 8 ∷ 1 ∷ 0 ∷ []) ∷ (0 ∷ 0 ∷ 9 ∷ []) ∷ [])).1
        ≡ [])
unfolding create_transport_codec encode_packet intermediate_encode send_all flatten byte_at
receive_all-send_all_example =
    receive_all-send_all TransportProtocol.intermediate ((7 ∷ 8 ∷ []) ∷ (9 ∷ []) ∷ [])
      ((2 ∷ 0 ∷ 0 ∷ []) ∷ (0 ∷ 7 ∷ 8 ∷ 1 ∷ 0 ∷ []) ∷ (0 ∷ 0 ∷ 9 ∷ []) ∷ [])
      (omega arith, (omega arith, tt)) refl (omega arith)

-- Twelve bytes that announce a frame of no length.
abbrev zeros : List ℕ
zeros = 0 ∷ 0 ∷ 0 ∷ 0 ∷ 0 ∷ 0 ∷ 0 ∷ 0 ∷ 0 ∷ 0 ∷ 0 ∷ 0 ∷ []

abbrev receiver : Codec
receiver = full_codec (record { out_seq_no = 0; in_seq_no = 0; buffer = [] })

zeros_fail : (decode_packets receiver zeros).0 ≡ throws invalid_length
unfolding decode_packets scan_all scan full_frame le32
zeros_fail = refl

decode_packets_ends_example : (decode_packets receiver zeros).0 ≢ throws no_progress
decode_packets_ends_example = decode_packets_ends receiver zeros (omega arith)

decode_packets_poisoned_example :
    (decode_packets (decode_packets receiver zeros).1 (1 ∷ 2 ∷ [])).0 ≡ throws invalid_length
decode_packets_poisoned_example =
    decode_packets_poisoned receiver zeros (1 ∷ 2 ∷ []) invalid_length (omega arith) zeros_fail

-- A length field of 2 ^ 32 - 1.
abbrev all_ones : List ℕ
all_ones = 255 ∷ 255 ∷ 255 ∷ 255 ∷ []

intermediate_frame_out_of_bounds_example :
    (intermediate_frame all_ones ≡ failed out_of_bounds) ↔ (2 ^ 32 - 4 ≤ length_field all_ones)
intermediate_frame_out_of_bounds_example =
    intermediate_frame_out_of_bounds all_ones
      (omega arith, (omega arith, (omega arith, (omega arith, tt)))) (omega arith) (omega arith)

abridged_frame_unaligned_example :
    abridged_frame (abridged_encode (1 ∷ 2 ∷ 3 ∷ []) ++ (239 ∷ 5 ∷ []))
    ≡ packet (1 ∷ 2 ∷ 3 ∷ 239 ∷ []) (5 ∷ [])
abridged_frame_unaligned_example =
    abridged_frame_unaligned (1 ∷ 2 ∷ 3 ∷ []) (239 ∷ 5 ∷ []) (λ e. omega (arith, e)) (omega arith)
      (omega arith)

-- The checksum of the text "123456789" is the published check value of CRC-32.
compute_crc32_check : compute_crc32 (49 ∷ 50 ∷ 51 ∷ 52 ∷ 53 ∷ 54 ∷ 55 ∷ 56 ∷ 57 ∷ []) ≡ 0xcbf43926
unfolding compute_crc32
compute_crc32_check = refl
