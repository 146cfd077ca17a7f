-- ===== src/Obfuscated/Tests.antt =====
-- A draw that is refused and one that is taken, with a cipher that changes nothing.
use cpp_gram.Common.{
  ℕ, zero, suc, ◌≡◌, refl, true, false, List, [], ◌∷◌, ◌++◌, some, length, take, drop, slice,
  replicate, ok, arith, All,
}
use cpp_gram.Common.Bytes.{IsByte, of_le}
use cpp_gram.Common.Text.{codes}
use cpp_gram.Crypto.{aes_ctr_decrypt}
use cpp_gram.Crypto.Tests.{plain_openssl, plain_openssl-IsOpenssl}
use cpp_gram.Transport.{abridged, create_transport_codec, Codec, encode_packet}
use cpp_gram.Obfuscated.{
  ObfuscatedCodec, draw, is_rejected, set_keys, create_client_hello, is_valid_tls_record,
  encode_obfuscated,
}
use cpp_gram.Obfuscated.Handshake.{draw-handshake}
use cpp_gram.Obfuscated.Header.{tail}

abbrev draws : List (List ℕ)
draws = replicate 64 0xef ∷ replicate 64 7 ∷ replicate 64 9 ∷ []

drawn : draw draws ≡ some (replicate 64 7)
unfolding draw of_le
drawn = refl

sevens-IsByte : (n : ℕ) → All IsByte (replicate n 7)
sevens-IsByte zero = tt
sevens-IsByte (suc n) = (omega arith, sevens-IsByte n)

hello :
    is_valid_tls_record (create_client_hello (replicate 32 1) (replicate 32 2) (codes "x.org") [])
    ≡ true
unfolding is_valid_tls_record create_client_hello
hello = refl

abbrev inner : Codec
unfolding create_transport_codec
inner = create_transport_codec abridged

abbrev first : List ℕ
first = 1 ∷ 2 ∷ 3 ∷ 4 ∷ []

abbrev second : List ℕ
second = 5 ∷ 6 ∷ 7 ∷ 8 ∷ []

draw-handshake_example :
    (c : ObfuscatedCodec) × ((set_keys plain_openssl inner abridged (replicate 64 7) ≡ ok c)
      × (((length c.handshake_header ≡ 64)
            × ((take 56 c.handshake_header ≡ replicate 56 7)
                × ((is_rejected c.handshake_header ≡ false)
                    × (aes_ctr_decrypt plain_openssl
                          (drop 56 c.handshake_header)
                          (slice 8 40 c.handshake_header)
                          (slice 40 56 c.handshake_header)
                        ≡ ok (tail abridged (replicate 64 7))))))
          × ((enc1 : List ℕ) × (enc2 : List ℕ) × (((encode_obfuscated plain_openssl c first).0
                  ≡ ok (c.handshake_header ++ enc1))
                × ((aes_ctr_decrypt plain_openssl enc1
                        (slice 8 40 c.handshake_header)
                        (slice 40 56 c.handshake_header)
                      ≡ ok (1 ∷ first))
                    × (((encode_obfuscated plain_openssl
                            (encode_obfuscated plain_openssl c first).1
                            second).0
                          ≡ ok enc2)
                        × (aes_ctr_decrypt plain_openssl enc2
                              (slice 8 40 c.handshake_header)
                              (slice 40 56 c.handshake_header)
                            ≡ ok (1 ∷ second))))))))
unfolding encode_packet create_transport_codec
draw-handshake_example =
    draw-handshake plain_openssl plain_openssl-IsOpenssl inner abridged draws (replicate 64 7) first
      second drawn (refl, sevens-IsByte 64)
      (omega arith, (omega arith, (omega arith, (omega arith, (omega arith, tt))))) (omega arith)
      (omega arith, (omega arith, (omega arith, (omega arith, (omega arith, tt))))) (omega arith)
