-- ===== src/Obfuscated.antt =====
-- include/cppgram/obfuscated.hpp and src/core/obfuscated.cpp: the obfuscated codec over AES in CTR mode,
-- and the TLS records of FakeTls. Random bytes are arguments.
pub mod Header
pub mod Handshake
mod Tests
use cpp_gram.Common.{
  ℕ, ◌+◌, ◌%◌, ◌/◌, Bool, true, false, not, ◌&&◌, ◌||◌, ◌⊎◌, inl, inr, List, [], ◌∷◌, ◌++◌, Option,
  none, some, length, take, drop, slice, get_or, replicate, min, equal, ltb, ◌==◌, if◌then◌else◌,
  Outcome, ok, throws, resume,
}
use mathlib.Core.List.{reverse}
use cpp_gram.Common.Text.{codes}
use cpp_gram.Common.Bytes.{of_le}
use cpp_gram.Crypto.{Openssl, CryptoError, aes_ctr_encrypt, aes_ctr_decrypt}
use cpp_gram.Transport.{
  TransportProtocol, abridged, padded_intermediate, Codec, Failure, encode_packet, decode_packets,
  reset,
}

-- The draws that `continue` the loop of generate_keys.
unfoldable pub is_rejected : List ℕ → Bool
is_rejected p =
    (get_or p 0 0 == 0xef)
    || equal (take 4 p) (codes "GET ")
    || equal (take 4 p) (codes "POST")
    || equal (take 4 p) (codes "HEAD")
    || equal (take 4 p) (replicate 4 0xee)
    || (of_le (slice 4 8 p) == 0)

-- The loop, on the results of `generate_random_bytes(64)` one after the other; `none` while it still
-- draws.
unfoldable pub draw : List (List ℕ) → Option (List ℕ)
unfolding is_rejected
draw [] = none
draw (p ∷ draws) = let later = draw draws in if is_rejected p then later else some p

unfoldable pub proto_tag : TransportProtocol → ℕ
proto_tag abridged = 0xef
proto_tag padded_intermediate = 0xdd
proto_tag _ = 0xee

pub record ObfuscatedCodec : Type 0 where
  pub inner_codec : Codec
  pub init_payload : List ℕ
  pub enc_key : List ℕ
  pub enc_iv : List ℕ
  pub dec_key : List ℕ
  pub dec_iv : List ℕ
  pub handshake_header : List ℕ
  pub handshake_sent : Bool

-- The payload with the tag in its bytes 56 to 59.
unfoldable pub tagged : TransportProtocol → List ℕ → List ℕ
unfolding proto_tag
tagged proto p = take 56 p ++ (replicate 4 (proto_tag proto) ++ drop 60 p)

-- The codec of a payload and the encrypted tail of its header.
abbrev pub keyed : Codec → List ℕ → List ℕ → ObfuscatedCodec
keyed inner p enc_tail = record {
  inner_codec = inner;
  init_payload = p;
  enc_key = slice 8 40 p;
  enc_iv = slice 40 56 p;
  dec_key = slice 8 40 (reverse p);
  dec_iv = slice 40 56 (reverse p);
  handshake_header = take 56 p ++ take 8 enc_tail;
  handshake_sent = false;
}

abbrev pub with_tail :
    Codec → List ℕ → Outcome CryptoError (List ℕ) → Outcome CryptoError ObfuscatedCodec
with_tail inner p (throws e) = throws e
with_tail inner p (ok enc_tail) = ok (keyed inner p enc_tail)

module _ (o : Openssl) where
  -- generate_keys behind its loop, on the payload that has been drawn.
  unfoldable pub set_keys : Codec → TransportProtocol → List ℕ → Outcome CryptoError ObfuscatedCodec
  unfolding tagged aes_ctr_encrypt
  set_keys inner proto drawn =
      let p = tagged proto drawn in
      with_tail inner p (aes_ctr_encrypt o (drop 56 p) (slice 8 40 p) (slice 40 56 p))

  abbrev sealed :
      Codec
      → ObfuscatedCodec
      → Outcome CryptoError (List ℕ)
      → Outcome CryptoError (List ℕ) × ObfuscatedCodec
  sealed inner c (throws e) = (throws e, record c { inner_codec = inner })
  sealed inner c (ok enc) =
      if c.handshake_sent
      then (ok enc, record c { inner_codec = inner })
      else (ok (c.handshake_header ++ enc), record c { inner_codec = inner; handshake_sent = true })

  -- encode_packet, with an inner codec.
  unfoldable pub encode_obfuscated :
      ObfuscatedCodec → List ℕ → Outcome CryptoError (List ℕ) × ObfuscatedCodec
  unfolding encode_packet aes_ctr_encrypt
  encode_obfuscated c bytes =
      let (framed, inner) = encode_packet c.inner_codec bytes in
      sealed inner c (aes_ctr_encrypt o framed c.enc_key c.enc_iv)

  abbrev pub DecodeError : Type 0
  DecodeError = CryptoError ⊎ Failure

  abbrev decoded :
      ObfuscatedCodec
      → Outcome Failure (List (List ℕ)) × Codec
      → Outcome DecodeError (List (List ℕ)) × ObfuscatedCodec
  decoded c (ok packets, inner) = (ok packets, record c { inner_codec = inner })
  decoded c (throws e, inner) = (throws (inr e), record c { inner_codec = inner })

  abbrev opened :
      ObfuscatedCodec
      → Outcome CryptoError (List ℕ)
      → Outcome DecodeError (List (List ℕ)) × ObfuscatedCodec
  unfolding decode_packets
  opened c (throws e) = (throws (inl e), c)
  opened c (ok dec) = decoded c (decode_packets c.inner_codec dec)

  -- decode_packets, with an inner codec.
  unfoldable pub decode_obfuscated :
      ObfuscatedCodec → List ℕ → Outcome DecodeError (List (List ℕ)) × ObfuscatedCodec
  unfolding opened aes_ctr_decrypt
  decode_obfuscated c [] = (ok [], c)
  decode_obfuscated c (b ∷ bytes) = opened c (aes_ctr_decrypt o (b ∷ bytes) c.dec_key c.dec_iv)

unfoldable pub reset_obfuscated : ObfuscatedCodec → ObfuscatedCodec
unfolding reset
reset_obfuscated c = record c { inner_codec = reset c.inner_codec; handshake_sent = false }

-- Two and three bytes, the most significant first.
abbrev pub be16 : ℕ → List ℕ
be16 n = (n / 256 % 256) ∷ (n % 256) ∷ []

abbrev pub be24 : ℕ → List ℕ
be24 n = (n / 65536 % 256) ∷ (n / 256 % 256) ∷ (n % 256) ∷ []

-- The extensions of create_client_hello; a uint16_t wraps.
unfoldable pub sni_extension : List ℕ → List ℕ
sni_extension sni_domain =
    0
    ∷ 0
    ∷ (be16 ((length sni_domain + 5) % 65536)
        ++ (be16 ((length sni_domain + 3) % 65536)
            ++ (0 ∷ (be16 (length sni_domain % 65536) ++ sni_domain))))

-- What follows the length of the handshake. The payload, or its first 32 bytes, covers random bytes.
unfoldable pub hello_body : List ℕ → List ℕ → List ℕ → List ℕ → List ℕ
unfolding sni_extension
hello_body rand_bytes session_id sni_domain payload =
    3
    ∷ 3
    ∷ (take 32 payload
        ++ drop (min (length payload) 32) rand_bytes
        ++ (32
            ∷ (session_id
                ++ (0
                    ∷ 4
                    ∷ 0x13
                    ∷ 1
                    ∷ 0x13
                    ∷ 3
                    ∷ 1
                    ∷ 0
                    ∷ (be16 (length (sni_extension sni_domain)) ++ sni_extension sni_domain)))))

-- create_client_hello, with the two draws of 32 random bytes. The length of the record is measured from
-- `record_len_pos + 2`, behind the field.
unfoldable pub create_client_hello : List ℕ → List ℕ → List ℕ → List ℕ → List ℕ
unfolding hello_body
create_client_hello rand_bytes session_id sni_domain payload =
    let body = hello_body rand_bytes session_id sni_domain payload in
    let handshake = 1 ∷ (be24 (length body) ++ body) in
    0x16 ∷ 3 ∷ 1 ∷ (be16 (length handshake) ++ handshake)

unfoldable pub is_valid_tls_record : List ℕ → Bool
is_valid_tls_record s =
    not (ltb (length s) 5)
    && ((get_or s 0 0 == 0x16)
        && ((get_or s 1 0 == 3)
            && ((get_or s 2 0 == 1) || (get_or s 2 0 == 2) || (get_or s 2 0 == 3))))
