-- ===== src/Obfuscated/Handshake.antt =====
-- The first packets of an obfuscated connection, and what the other side finds in them.
use cpp_gram.Common.{
  true, All, ◌<◌, ◌^◌, if◌then◌else◌, ℕ, ◌≤◌, ◌≡◌, refl, sym, ap, subst, ◌∙◌, false, List, ◌++◌,
  some, length, take, drop, slice, length-append, length-take, length-drop, Bool-cases, inl, inr,
  arith, ok,
}
use cpp_gram.Common.Bytes.{IsByte}
use cpp_gram.Crypto.{Openssl, aes_ctr_decrypt}
use cpp_gram.Crypto.Laws.{IsOpenssl, IsBytes}
use cpp_gram.Crypto.Ctr.{aes_ctr_decrypt-aes_ctr_encrypt}
use cpp_gram.Transport.{TransportProtocol, Codec, encode_packet}
use cpp_gram.Obfuscated.{
  is_rejected, draw, tagged, keyed, ObfuscatedCodec, set_keys, encode_obfuscated,
}
use cpp_gram.Obfuscated.Header.{
  draw_sound, slice-front, rejected_same, header_lem, tail, tail-IsBytes, set_keys_lem, opening,
  IsOpening,
}

module _ (o : Openssl) (laws : IsOpenssl o) where
  -- One packet, under a key and a counter block of the right sizes.
  seals :
      (c : ObfuscatedCodec) (payload : List ℕ)
      → length c.enc_key ≡ 32
      → 16 ≤ length c.enc_iv
      → All IsByte (encode_packet c.inner_codec payload).0
      → length (encode_packet c.inner_codec payload).0 < 2 ^ 31
      → (enc : List ℕ) × ((encode_obfuscated o c payload ≡ (
        ok (if c.handshake_sent then enc else (c.handshake_header ++ enc)),
        record c { inner_codec = (encode_packet c.inner_codec payload).1; handshake_sent = true },
      ))
          × (aes_ctr_decrypt o enc c.enc_key c.enc_iv ≡ ok (encode_packet c.inner_codec payload).0))
  unfolding encode_obfuscated
  seals c payload hkey hiv bytes small =
      let frame = (encode_packet c.inner_codec payload).0 in
      let (enc, sealing, len, opening) =
        aes_ctr_decrypt-aes_ctr_encrypt o laws c.enc_key c.enc_iv hkey hiv frame bytes small in
      (
        enc,
        (
          (elim (Bool-cases c.handshake_sent) [
            | inl e ↦ rw (sealing, e) refl
            | inr e ↦ rw (sealing, e) refl
          ]),
          opening,
        ),
      )

  key_same :
      (from to : ℕ) (a t e : List ℕ)
      → length a ≡ 56
      → length e ≡ 8
      → from ≤ to
      → to ≤ 56
      → slice from to (take 56 (a ++ t) ++ take 8 e) ≡ slice from to (a ++ t)
  key_same from to a t e front len h k =
      ap (slice from to) (header_lem a t e front len)
      ∙ slice-front from to a e h (omega (arith, front))
      ∙ sym (slice-front from to a t h (omega (arith, front)))

  -- What the first two packets of a connection look like, whose payload `p` has been made by the loop and
  -- whose codec is `c`.
  abbrev IsConnection : Codec → List ℕ → List ℕ → ObfuscatedCodec → Type 0
  IsConnection inner first second c =
      let header = c.handshake_header in
      let (sent1, c1) = encode_obfuscated o c first in
      let (frame1, inner1) = encode_packet inner first in
      (enc1 : List ℕ) × (enc2 : List ℕ) × ((sent1 ≡ ok (header ++ enc1))
        × ((aes_ctr_decrypt o enc1 (slice 8 40 header) (slice 40 56 header) ≡ ok frame1)
            × (((encode_obfuscated o c1 second).0 ≡ ok enc2)
                × (aes_ctr_decrypt o enc2 (slice 8 40 header) (slice 40 56 header)
                    ≡ ok (encode_packet inner1 second).0))))

  connection :
      (inner : Codec) (a t e first second : List ℕ)
      → length a ≡ 56
      → length e ≡ 8
      → All IsByte (encode_packet inner first).0
      → length (encode_packet inner first).0 < 2 ^ 31
      → All IsByte (encode_packet (encode_packet inner first).1 second).0
      → length (encode_packet (encode_packet inner first).1 second).0 < 2 ^ 31
      → IsConnection inner first second (keyed inner (a ++ t) e)
  connection inner a t e first second front len b1 s1 b2 s2 =
      let c = keyed inner (a ++ t) e in
      let c1 = record c { inner_codec = (encode_packet inner first).1; handshake_sent = true } in
      let hkey : length (slice 8 40 (a ++ t)) ≡ 32 =
        omega
          (arith, length-take 32 (drop 8 (a ++ t)), length-drop 8 (a ++ t), length-append a t) in
      let hiv : 16 ≤ length (slice 40 56 (a ++ t)) =
        omega
          (arith, length-take 16 (drop 40 (a ++ t)), length-drop 40 (a ++ t), length-append a t) in
      let (enc1, (sends1, opens1)) = seals c first hkey hiv b1 s1 in
      let (enc2, (sends2, opens2)) = seals c1 second hkey hiv b2 s2 in
      (
        enc1,
        enc2,
        rw
            (
              sends1,
              sends2,
              key_same 8 40 a t e front len (omega arith) (omega arith),
              key_same 40 56 a t e front len (omega arith) (omega arith),
            )
            (refl, (opens1, (refl, opens2))),
      )

  -- What the first draw that is not rejected makes of a connection's beginning. The first packet is sent
  -- behind a header of 64 bytes, of which 56 are those drawn; none of the patterns that the loop
  -- avoids stands at their front; and whoever takes bytes 8 to 39 as a key and 40 to 55 as a counter
  -- block decrypts the last eight to the tag of the protocol, four times, and the last four bytes drawn.
  -- Under the same key and counter block he decrypts what follows the header to the frame that the inner
  -- codec makes of the packet; and the second packet, which is sent without a header, to the next frame
  -- of the inner codec. The frames are of bytes, fewer than 2 ^ 31.
  pub draw-handshake :
      (inner : Codec) (proto : TransportProtocol) (draws : List (List ℕ)) (p first second : List ℕ)
      → draw draws ≡ some p
      → IsBytes 64 p
      → All IsByte (encode_packet inner first).0
      → length (encode_packet inner first).0 < 2 ^ 31
      → All IsByte (encode_packet (encode_packet inner first).1 second).0
      → length (encode_packet (encode_packet inner first).1 second).0 < 2 ^ 31
      → (c : ObfuscatedCodec) × ((set_keys o inner proto p ≡ ok c)
          × (((length c.handshake_header ≡ 64)
                × ((take 56 c.handshake_header ≡ take 56 p)
                    × ((is_rejected c.handshake_header ≡ false)
                        × (aes_ctr_decrypt o
                              (drop 56 c.handshake_header)
                              (slice 8 40 c.handshake_header)
                              (slice 40 56 c.handshake_header)
                            ≡ ok (tail proto p)))))
              × IsConnection inner first second c))
  unfolding set_keys tagged
  draw-handshake inner proto draws p first second d (size, bytes) b1 s1 b2 s2 =
      let a = take 56 p in
      let t = tail proto p in
      let front : length (take 56 p) ≡ 56 = omega (arith, length-take 56 p) in
      let (e, (made, (len, dec))) =
        set_keys_lem o laws inner proto a p refl front (tail-IsBytes proto p (size, bytes)) in
      (
        keyed inner (tagged proto p) e,
        (
          made,
          (
            subst (IsOpening o laws (take 56 p) t) (sym (header_lem a t e front len)) (
                opening o laws a t e front len (rejected_same p a refl front (draw_sound draws p d))
                  dec),
            connection inner a t e first second front len b1 s1 b2 s2,
          ),
        ),
      )
