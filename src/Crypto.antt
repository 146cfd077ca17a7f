-- ===== src/Crypto.antt =====
-- include/cppgram/crypto.hpp and src/core/crypto.cpp. OpenSSL is the record `Openssl`, a parameter of
-- the definitions. A call of OpenSSL that reports an
-- error is a `none` or a `false`.
pub mod Laws
pub mod Ige
pub mod Ctr
pub mod Tests
use cpp_gram.Common.{
  ℕ, zero, suc, ◌+◌, ◌-◌, ◌*◌, ◌/◌, ◌%◌, ◌^◌, ◌≡◌, Bool, true, false, ◌||◌, not, List, [], ◌∷◌,
  ◌++◌, Option, none, some, length, take, drop, slice, get_or, replicate, ltb, ◌==◌, if◌then◌else◌,
  Outcome, ok, throws, bit_and, bit_or, bit_xor,
}

pub record Openssl : Type 0 where
  -- EVP_Digest…, `none` if no context can be allocated
  pub sha256_digest : List ℕ → Option (List ℕ)
  pub sha1_digest : List ℕ → Option (List ℕ)
  -- EVP_CIPHER_CTX_new
  pub ctx_new : Bool
  -- EVP_…Init_ex with EVP_aes_256_ecb and a key
  pub ecb_encrypt_init : List ℕ → Bool
  pub ecb_decrypt_init : List ℕ → Bool
  -- EVP_…Update on one block under a key
  pub ecb_encrypt : List ℕ → List ℕ → Option (List ℕ)
  pub ecb_decrypt : List ℕ → List ℕ → Option (List ℕ)
  -- EVP_EncryptInit_ex and EVP_EncryptUpdate with EVP_aes_256_ctr, a key and an initial counter. The
  -- length is an int, given by its 32 bits; the answer is what is written.
  pub ctr_init : List ℕ → List ℕ → Bool
  pub ctr_encrypt : List ℕ → List ℕ → ℕ → List ℕ → Option (List ℕ)

pub data CryptoError : Type 0 where
  invalid_argument runtime_error : CryptoError

abbrev pub digest_or : ℕ → Option (List ℕ) → List ℕ
digest_or n none = replicate n 0
digest_or n (some h) = h

abbrev pub or_throw : Option (List ℕ) → Outcome CryptoError (List ℕ)
or_throw none = throws runtime_error
or_throw (some a) = ok a

-- What has been written at the beginning of a vector of zeros.
abbrev pub over_zeros : ℕ → Option (List ℕ) → Outcome CryptoError (List ℕ)
over_zeros size none = throws runtime_error
over_zeros size (some w) = ok (take size w ++ replicate (size - length w) 0)

-- `for (i < 16) out[i] = a[i] ^ b[i]`
unfoldable pub xor_block : List ℕ → List ℕ → List ℕ
xor_block [] b = []
xor_block (x ∷ a) [] = []
xor_block (x ∷ a) (y ∷ b) = bit_xor x y ∷ xor_block a b

abbrev pub and_then : Option (List ℕ) → (List ℕ → Option (List ℕ)) → Option (List ℕ)
and_then none f = none
and_then (some a) f = f a

module _ (o : Openssl) where
  unfoldable pub compute_sha256 : List ℕ → List ℕ
  compute_sha256 bytes = digest_or 32 (o.sha256_digest bytes)

  unfoldable pub compute_sha1 : List ℕ → List ℕ
  compute_sha1 bytes = digest_or 20 (o.sha1_digest bytes)

  -- The loop over the blocks; `iv1` is the last ciphertext block and `iv2` the last plaintext block.
  unfoldable pub ige_encrypt_blocks : ℕ → List ℕ → List ℕ → List ℕ → List ℕ → Option (List ℕ)
  ige_encrypt_blocks zero key iv1 iv2 plaintext = some []
  ige_encrypt_blocks (suc blocks) key iv1 iv2 plaintext =
      let p = take 16 plaintext in
      and_then (o.ecb_encrypt key (xor_block p iv1)) λ block_out.
        let c = xor_block block_out iv2 in
        and_then (ige_encrypt_blocks blocks key c p (drop 16 plaintext)) λ rest. some (c ++ rest)

  unfoldable pub ige_decrypt_blocks : ℕ → List ℕ → List ℕ → List ℕ → List ℕ → Option (List ℕ)
  ige_decrypt_blocks zero key iv1 iv2 ciphertext = some []
  ige_decrypt_blocks (suc blocks) key iv1 iv2 ciphertext =
      let c = take 16 ciphertext in
      and_then (o.ecb_decrypt key (xor_block c iv2)) λ block_out.
        let p = xor_block block_out iv1 in
        and_then (ige_decrypt_blocks blocks key c p (drop 16 ciphertext)) λ rest. some (p ++ rest)

  unfoldable pub aes_ige_encrypt : List ℕ → List ℕ → List ℕ → Outcome CryptoError (List ℕ)
  aes_ige_encrypt plaintext key iv =
      if not (length key == 32) || not (length iv == 32)
      then throws invalid_argument
      else if not (length plaintext % 16 == 0)
      then throws invalid_argument
      else if not o.ctx_new || not (o.ecb_encrypt_init key)
      then throws runtime_error
      else or_throw
          (ige_encrypt_blocks (length plaintext / 16) key (take 16 iv) (slice 16 32 iv) plaintext)

  unfoldable pub aes_ige_decrypt : List ℕ → List ℕ → List ℕ → Outcome CryptoError (List ℕ)
  aes_ige_decrypt ciphertext key iv =
      if not (length key == 32) || not (length iv == 32)
      then throws invalid_argument
      else if not (length ciphertext % 16 == 0)
      then throws invalid_argument
      else if not o.ctx_new || not (o.ecb_decrypt_init key)
      then throws runtime_error
      else or_throw
          (ige_decrypt_blocks (length ciphertext / 16) key (take 16 iv) (slice 16 32 iv) ciphertext)

  -- The update is not called on an empty plaintext, and is told `static_cast<int>(plaintext.size())`.
  unfoldable pub ctr_update : List ℕ → List ℕ → List ℕ → Outcome CryptoError (List ℕ)
  ctr_update [] key iv = ok []
  ctr_update (b ∷ bs) key iv =
      over_zeros (length (b ∷ bs)) (o.ctr_encrypt key iv (length (b ∷ bs) % 2 ^ 32) (b ∷ bs))

  unfoldable pub aes_ctr_encrypt : List ℕ → List ℕ → List ℕ → Outcome CryptoError (List ℕ)
  unfolding ctr_update
  aes_ctr_encrypt plaintext key iv =
      if not (length key == 32) || ltb (length iv) 16
      then throws invalid_argument
      else if not o.ctx_new || not (o.ctr_init key iv)
      then throws runtime_error
      else ctr_update plaintext key iv

  unfoldable pub aes_ctr_decrypt : List ℕ → List ℕ → List ℕ → Outcome CryptoError (List ℕ)
  aes_ctr_decrypt ciphertext key iv = aes_ctr_encrypt ciphertext key iv

  -- The key and the initialisation vector, or `none` for the answer `false`.
  unfoldable pub kdf_mtproto2 : List ℕ → List ℕ → Bool → Option (List ℕ × List ℕ)
  kdf_mtproto2 auth_key msg_key is_client =
      let x : ℕ = if is_client then 0 else 8 in
      let a = compute_sha256 (msg_key ++ slice x (x + 36) auth_key) in
      let b = compute_sha256 (slice (x + 40) (x + 76) auth_key ++ msg_key) in
      if not (length auth_key == 256) || not (length msg_key == 16)
      then none
      else some
          (take 8 a ++ (slice 8 24 b ++ slice 24 32 a), take 8 b ++ (slice 8 24 a ++ slice 24 32 b))

  unfoldable pub compute_msg_key : List ℕ → List ℕ → Bool → Outcome CryptoError (List ℕ)
  compute_msg_key auth_key plaintext is_client =
      let offset : ℕ = if is_client then 88 else 96 in
      let hash = compute_sha256 (slice offset (offset + 32) auth_key ++ plaintext) in
      if not (length auth_key == 256) then throws invalid_argument else ok (slice 8 24 hash)

  -- `for (i < 8) key_id |= sha1_hash[12 + i] << (i * 8)`, on the bytes from 12 on.
  key_id_loop : ℕ → ℕ → ℕ → List ℕ → ℕ
  key_id_loop zero i key_id bytes = key_id
  key_id_loop (suc rounds) i key_id bytes =
      key_id_loop rounds (i + 1) (bit_or key_id (get_or bytes i 0 * 2 ^ (i * 8))) bytes

  unfoldable pub compute_auth_key_id : List ℕ → ℕ
  unfolding key_id_loop
  compute_auth_key_id auth_key =
      if not (length auth_key == 256)
      then 0
      else key_id_loop 8 0 0 (drop 12 (compute_sha1 auth_key))

-- What one call of `generate_random_bytes` draws: the answer of RAND_bytes, `none` for a failure, and
-- the values of rand().
pub record Random : Type 0 where
  pub rand_bytes : ℕ → Option (List ℕ)
  pub rand : ℕ → ℕ

-- `for (i < count) buf[i] = static_cast<uint8_t>(rand() & 0xFF)`
unfoldable pub rand_loop : (ℕ → ℕ) → ℕ → ℕ → List ℕ
rand_loop rand i zero = []
rand_loop rand i (suc rounds) = bit_and (rand i) 0xff ∷ rand_loop rand (i + 1) rounds

unfoldable pub generate_random_bytes : Random → ℕ → List ℕ
generate_random_bytes r count = elim (r.rand_bytes count) [
  | some buf ↦ buf
  | none ↦ rand_loop r.rand 0 count
]
