-- ===== src/Crypto/Ctr.antt =====
-- The CTR mode of src/core/crypto.cpp.
use cpp_gram.Common.{
  ap, sym, ◌<◌, ◌%◌, ◌^◌, ◌-◌, ◌∷◌, take-all, append-nil, ℕ, some, ◌≤◌, ◌≡◌, refl, ◌∙◌, List, [],
  length, ok, arith, All, le→ltb,
}
use cpp_gram.Common.Bytes.{IsByte}
use cpp_gram.Crypto.{Openssl, ctr_update, aes_ctr_encrypt, aes_ctr_decrypt}
use cpp_gram.Crypto.Laws.{IsOpenssl}

module _ (o : Openssl) (laws : IsOpenssl o) (key iv : List ℕ) (hkey : length key ≡ 32)
    (hiv : 16 ≤ length iv) where
  set_up : (b : List ℕ) → aes_ctr_encrypt o b key iv ≡ ctr_update o b key iv
  unfolding aes_ctr_encrypt
  set_up b =
      rw (hkey, le→ltb (length iv) 16 hiv, laws.ctr_inits key iv hkey hiv, laws.allocates) refl

  update_some :
      (c b : List ℕ)
      → length c ≡ length b
      → length b < 2 ^ 31
      → o.ctr_encrypt key iv (length b) c ≡ some b
      → ctr_update o c key iv ≡ ok b
  unfolding ctr_update
  update_some [] [] same small e = refl
  update_some [] (x ∷ b) same small e = absurd (omega arith)
  update_some (x ∷ c) b same small e =
      rw (fits, same, e, take-all (length b) b (omega arith), none_left) (ap ok (append-nil b))
    where
      fits : length (x ∷ c) % 2 ^ 32 ≡ length (x ∷ c)
      fits = omega arith

      none_left : length b - length b ≡ 0
      none_left = omega arith

  -- Under a 32-byte key and a counter block of at least 16 bytes, a plaintext of fewer than 2 ^ 31 bytes is encrypted
  -- without an exception to as many bytes, and decrypting those gives it back.
  pub aes_ctr_decrypt-aes_ctr_encrypt :
      (plaintext : List ℕ)
      → All IsByte plaintext
      → length plaintext < 2 ^ 31
      → (ciphertext : List ℕ) × (aes_ctr_encrypt o plaintext key iv ≡ ok ciphertext)
        × (length ciphertext ≡ length plaintext)
        × (aes_ctr_decrypt o ciphertext key iv ≡ ok plaintext)
  unfolding aes_ctr_decrypt
  aes_ctr_decrypt-aes_ctr_encrypt b h small =
      let (c, enc, same, dec) = laws.ctr_inverse key iv b hkey hiv h small in
      (
        c,
        set_up b ∙ update_some b c (sym same) (omega (arith, same)) (rw same enc),
        same,
        set_up c ∙ update_some c b same small dec,
      )
