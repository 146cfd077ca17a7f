-- ===== src/Crypto/Tests.antt =====
-- A concrete OpenSSL, with a constant digest and ciphers that change nothing, and the modes with it.
use cpp_gram.Common.{
  ℕ, ◌≡◌, refl, subst, true, List, some, replicate, length-replicate, zero, suc, ok, arith, All,
}
use cpp_gram.Common.Bytes.{IsByte}
use cpp_gram.Crypto.{Openssl, Random, aes_ige_encrypt, aes_ige_decrypt}
use cpp_gram.Crypto.Laws.{IsBytes, IsOpenssl, IsRandom, zeros-IsByte}
use cpp_gram.Crypto.Ige.{aes_ige_decrypt-aes_ige_encrypt}

abbrev pub plain_openssl : Openssl
plain_openssl = record {
  sha256_digest = λ b. some (replicate 32 0);
  sha1_digest = λ b. some (replicate 20 0);
  ctx_new = true;
  ecb_encrypt_init = λ key. true;
  ecb_decrypt_init = λ key. true;
  ecb_encrypt = λ key b. some b;
  ecb_decrypt = λ key b. some b;
  ctr_init = λ key iv. true;
  ctr_encrypt = λ key iv n b. some b;
}

abbrev pub zero_random : Random
zero_random = record { rand_bytes = λ n. some (replicate n 0); rand = λ n. 0 }

some_injective : {a b : List ℕ} → some a ≡ some b → a ≡ b
some_injective e = cc

pub plain_openssl-IsOpenssl : IsOpenssl plain_openssl
plain_openssl-IsOpenssl = record {
  sha256_length = λ b h e. subst (IsBytes 32) (some_injective e) (refl, zeros-IsByte 32);
  allocates = refl;
  encrypt_inits = λ key h. refl;
  decrypt_inits = λ key h. refl;
  ctr_inits = λ key iv h k. refl;
  ecb_inverse = λ key b h k. (b, refl, k, refl);
  ctr_inverse = λ key iv b h k l small. (b, refl, refl, refl);
}

pub zero_random-IsRandom : IsRandom zero_random
zero_random-IsRandom n b e =
    subst (IsBytes n) (some_injective e) (length-replicate n 0, zeros-IsByte n)

abbrev block : List ℕ
block = replicate 16 9

nines-IsByte : (n : ℕ) → All IsByte (replicate n 9)
nines-IsByte zero = tt
nines-IsByte (suc n) = (omega arith, nines-IsByte n)

aes_ige_decrypt-aes_ige_encrypt_example :
    (ciphertext : List ℕ) × (aes_ige_encrypt plain_openssl block (replicate 32 1) (replicate 32 0)
      ≡ ok ciphertext)
    × IsBytes 16 ciphertext
    × (aes_ige_decrypt plain_openssl ciphertext (replicate 32 1) (replicate 32 0) ≡ ok block)
aes_ige_decrypt-aes_ige_encrypt_example =
    aes_ige_decrypt-aes_ige_encrypt plain_openssl plain_openssl-IsOpenssl (replicate 32 1) refl
      block (replicate 32 0) refl (nines-IsByte 16) (refl, zeros-IsByte 32)
