-- ===== src/Crypto/Ige.antt =====
-- The IGE chaining mode of src/core/crypto.cpp.
use cpp_gram.Common.{
  ℕ, zero, suc, ◌*◌, ◌/◌, ◌%◌, ◌≡◌, refl, sym, ap, ◌∙◌, List, [], ◌∷◌, ◌++◌, some, length, take,
  drop, slice, ok, arith, length-append, length-drop, All, All-drop, take-append, drop-append,
  take-append-drop,
}
use cpp_gram.Common.Bytes.{IsByte}
use cpp_gram.Crypto.{
  Openssl, xor_block, ige_encrypt_blocks, ige_decrypt_blocks, aes_ige_encrypt, aes_ige_decrypt,
}
use cpp_gram.Crypto.Laws.{
  IsBytes, IsOpenssl, xor_block_cancel, xor_block-IsBytes, take-IsBytes, slice-IsBytes,
  append-IsBytes,
}

module _ (o : Openssl) (laws : IsOpenssl o) (key : List ℕ) (hkey : length key ≡ 32) where
  -- One block there and back, under the two blocks before it.
  block_inverse :
      (iv1 iv2 p : List ℕ)
      → IsBytes 16 iv1
      → IsBytes 16 iv2
      → IsBytes 16 p
      → (out : List ℕ) × (o.ecb_encrypt key (xor_block p iv1) ≡ some out)
        × IsBytes 16 (xor_block out iv2)
        × (o.ecb_decrypt key (xor_block (xor_block out iv2) iv2) ≡ some (xor_block p iv1))
        × (xor_block (xor_block p iv1) iv1 ≡ p)
  block_inverse iv1 iv2 p h1 h2 hp =
      let (out, enc, hout, dec) =
        laws.ecb_inverse key (xor_block p iv1) hkey (xor_block-IsBytes p iv1 hp h1) in
      (
        out,
        enc,
        xor_block-IsBytes out iv2 hout h2,
        rw (xor_block_cancel out iv2 (hout.0 ∙ sym h2.0)) dec,
        xor_block_cancel p iv1 (hp.0 ∙ sym h1.0),
      )

  blocks_inverse :
      (blocks : ℕ) (iv1 iv2 p : List ℕ)
      → IsBytes 16 iv1
      → IsBytes 16 iv2
      → IsBytes (blocks * 16) p
      → (c : List ℕ) × (ige_encrypt_blocks o blocks key iv1 iv2 p ≡ some c)
        × IsBytes (blocks * 16) c
        × (ige_decrypt_blocks o blocks key iv1 iv2 c ≡ some p)
  unfolding ige_encrypt_blocks ige_decrypt_blocks
  blocks_inverse zero iv1 iv2 [] h1 h2 hp = ([], refl, (refl, tt), refl)
  blocks_inverse zero iv1 iv2 (b ∷ p) h1 h2 hp = absurd (omega (arith, hp.0))
  blocks_inverse (suc blocks) iv1 iv2 p h1 h2 hp =
      let first = take-IsBytes 16 p (omega (arith, hp.0)) hp.1 in
      let (out, enc, hc, dec, back) = block_inverse iv1 iv2 (take 16 p) h1 h2 first in
      let c = xor_block out iv2 in
      let (cs, encs, hcs, decs) =
        blocks_inverse blocks c (take 16 p) (drop 16 p) hc first
          (omega (arith, hp.0, length-drop 16 p), All-drop IsByte 16 p hp.1) in
      (
        c ++ cs,
        rw (enc, encs) refl,
        (
          omega (arith, length-append c cs, hc.0, hcs.0),
          (append-IsBytes 16 (blocks * 16) c cs hc hcs).1,
        ),
        rw (take-append 16 c cs hc.0, drop-append 16 c cs hc.0, dec, back, decs)
            (ap some (take-append-drop 16 p)),
      )

  -- Under a 32-byte key and vector, a plaintext of whole blocks is encrypted without an exception, to
  -- bytes of the same number, and decrypting those gives the plaintext back.
  pub aes_ige_decrypt-aes_ige_encrypt :
      (plaintext iv : List ℕ)
      → length plaintext % 16 ≡ 0
      → All IsByte plaintext
      → IsBytes 32 iv
      → (ciphertext : List ℕ) × (aes_ige_encrypt o plaintext key iv ≡ ok ciphertext)
        × IsBytes (length plaintext) ciphertext
        × (aes_ige_decrypt o ciphertext key iv ≡ ok plaintext)
  unfolding aes_ige_encrypt aes_ige_decrypt
  aes_ige_decrypt-aes_ige_encrypt plaintext iv whole bytes hiv =
      let n = length plaintext / 16 in
      let (c, enc, hc, dec) =
        blocks_inverse n (take 16 iv) (slice 16 32 iv) plaintext
          (take-IsBytes 16 iv (omega (arith, hiv.0)) hiv.1)
          (slice-IsBytes 16 16 iv (omega (arith, hiv.0)) hiv.1) (omega arith, bytes) in
      let same : length c ≡ length plaintext = omega (arith, hc.0) in
      (
        c,
        rw (hkey, hiv.0, whole, enc, laws.encrypt_inits key hkey, laws.allocates) refl,
        (same, hc.1),
        rw (hkey, hiv.0, same, whole, dec, laws.decrypt_inits key hkey, laws.allocates) refl,
      )
