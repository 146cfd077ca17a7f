-- ===== src/Crypto/Laws.antt =====
-- What the code relies on of OpenSSL, and the lengths of the values that are derived with it.
use cpp_gram.Common.{
  ◌<◌, ◌^◌, ℕ, zero, suc, ◌+◌, ◌≤◌, ◌≡◌, refl, ap, ◌∙◌, Bool, true, List, [], ◌∷◌, ◌++◌, some,
  length, take, drop, slice, if◌then◌else◌, ok, arith, length-append, replicate, length-take,
  length-drop, All, All-append, All-take, All-drop, Option-cases, inl, inr,
}
use cpp_gram.Common.Bytes.{IsByte}
use cpp_gram.Common.Bits.{bit_and_byte, xor_cancel, xor-lt}
use cpp_gram.Crypto.{
  Openssl, xor_block, compute_sha256, kdf_mtproto2, compute_msg_key, Random, rand_loop,
  generate_random_bytes,
}

-- Bytes, so many of them.
abbrev pub IsBytes : ℕ → List ℕ → Type 0
IsBytes n b = (length b ≡ n) × All IsByte b

-- The documented behaviour of OpenSSL where memory suffices: contexts and keys are set up, SHA-256
-- gives 32 bytes, AES-256 in ECB mode without padding is a permutation of the blocks under each key,
-- and in CTR mode the stream is added to the input, so that adding it again gives the input back.
pub record IsOpenssl (o : Openssl) : Type 0 where
  pub sha256_length : (b h : List ℕ) → o.sha256_digest b ≡ some h → IsBytes 32 h
  pub allocates : o.ctx_new ≡ true
  pub encrypt_inits : (key : List ℕ) → length key ≡ 32 → o.ecb_encrypt_init key ≡ true
  pub decrypt_inits : (key : List ℕ) → length key ≡ 32 → o.ecb_decrypt_init key ≡ true
  pub ctr_inits : (key iv : List ℕ) → length key ≡ 32 → 16 ≤ length iv → o.ctr_init key iv ≡ true
  pub ecb_inverse :
      (key b : List ℕ)
      → length key ≡ 32
      → IsBytes 16 b
      → (c : List ℕ) × (o.ecb_encrypt key b ≡ some c)
        × IsBytes 16 c
        × (o.ecb_decrypt key c ≡ some b)
  pub ctr_inverse :
      (key iv b : List ℕ)
      → length key ≡ 32
      → 16 ≤ length iv
      → All IsByte b
      → length b < 2 ^ 31
      → (c : List ℕ) × (o.ctr_encrypt key iv (length b) b ≡ some c)
        × (length c ≡ length b)
        × (o.ctr_encrypt key iv (length b) c ≡ some b)

pub length-xor_block : (a b : List ℕ) → length a ≡ length b → length (xor_block a b) ≡ length a
unfolding xor_block
length-xor_block [] b h = refl
length-xor_block (x ∷ a) [] h = absurd (omega arith)
length-xor_block (x ∷ a) (y ∷ b) h = ap suc (length-xor_block a b (omega arith))

pub xor_block-IsByte : (a b : List ℕ) → All IsByte a → All IsByte b → All IsByte (xor_block a b)
unfolding xor_block
xor_block-IsByte [] b ha hb = tt
xor_block-IsByte (x ∷ a) [] ha hb = tt
xor_block-IsByte (x ∷ a) (y ∷ b) ha hb = (xor-lt 8 x y ha.0 hb.0, xor_block-IsByte a b ha.1 hb.1)

pub xor_block_cancel : (a b : List ℕ) → length a ≡ length b → xor_block (xor_block a b) b ≡ a
unfolding xor_block
xor_block_cancel [] b h = refl
xor_block_cancel (x ∷ a) [] h = absurd (omega arith)
xor_block_cancel (x ∷ a) (y ∷ b) h =
    ap (λ (t : ℕ). t ∷ xor_block (xor_block a b) b) (xor_cancel x y)
    ∙ ap (◌∷◌ x) (xor_block_cancel a b (omega arith))

pub xor_block-IsBytes : (a b : List ℕ) → IsBytes 16 a → IsBytes 16 b → IsBytes 16 (xor_block a b)
xor_block-IsBytes a b ha hb =
    (length-xor_block a b (ha.0 ∙ omega (arith, hb.0)) ∙ ha.0, xor_block-IsByte a b ha.1 hb.1)

pub take-IsBytes : (n : ℕ) (l : List ℕ) → n ≤ length l → All IsByte l → IsBytes n (take n l)
take-IsBytes n l h bytes = (omega (arith, length-take n l), All-take IsByte n l bytes)

pub slice-IsBytes :
    (from n : ℕ) (l : List ℕ)
    → from + n ≤ length l
    → All IsByte l
    → IsBytes n (take n (drop from l))
slice-IsBytes from n l h bytes =
    take-IsBytes n (drop from l) (omega (arith, length-drop from l)) (All-drop IsByte from l bytes)

pub append-IsBytes : (m n : ℕ) (a b : List ℕ) → IsBytes m a → IsBytes n b → IsBytes (m + n) (a ++ b)
append-IsBytes m n a b ha hb =
    (omega (arith, length-append a b, ha.0, hb.0), All-append IsByte a b ha.1 hb.1)

pub zeros-IsByte : (n : ℕ) → All IsByte (replicate n 0)
zeros-IsByte zero = tt
zeros-IsByte (suc n) = (omega arith, zeros-IsByte n)

-- The derived key and initialisation vector have the sizes that AES-256-IGE asks for.
module _ (o : Openssl) (laws : IsOpenssl o) where
  sha256-IsBytes : (b : List ℕ) → IsBytes 32 (compute_sha256 o b)
  unfolding compute_sha256
  sha256-IsBytes b = elim (Option-cases (o.sha256_digest b)) [
    | inl e ↦ rw e (refl, zeros-IsByte 32)
    | inr (h, e) ↦ rw e (laws.sha256_length b h e)
  ]

  slice_key :
      (a b : List ℕ)
      → IsBytes 32 a
      → IsBytes 32 b
      → IsBytes 32 (take 8 a ++ (slice 8 24 b ++ slice 24 32 a))
  slice_key a b ha hb =
      append-IsBytes 8 24 (take 8 a) (slice 8 24 b ++ slice 24 32 a)
        (take-IsBytes 8 a (omega (arith, ha.0)) ha.1)
        (append-IsBytes 16 8 (slice 8 24 b) (slice 24 32 a)
          (slice-IsBytes 8 16 b (omega (arith, hb.0)) hb.1)
          (slice-IsBytes 24 8 a (omega (arith, ha.0)) ha.1))

  -- A 256-byte authorisation key and a 16-byte message key give a key and a vector.
  pub kdf_mtproto2_total :
      (auth_key msg_key : List ℕ) (is_client : Bool)
      → length auth_key ≡ 256
      → length msg_key ≡ 16
      → (key : List ℕ) × (iv : List ℕ) × (kdf_mtproto2 o auth_key msg_key is_client
          ≡ some (key, iv))
        × IsBytes 32 key
        × IsBytes 32 iv
  unfolding kdf_mtproto2
  kdf_mtproto2_total auth_key msg_key is_client h k = (
    key,
    iv,
    rw (h, k) refl,
    slice_key a b (sha256-IsBytes _) (sha256-IsBytes _),
    slice_key b a (sha256-IsBytes _) (sha256-IsBytes _),
  )
    where
      x : ℕ
      x = if is_client then 0 else 8

      a : List ℕ
      a = compute_sha256 o (msg_key ++ slice x (x + 36) auth_key)

      b : List ℕ
      b = compute_sha256 o (slice (x + 40) (x + 76) auth_key ++ msg_key)

      key : List ℕ
      key = take 8 a ++ (slice 8 24 b ++ slice 24 32 a)

      iv : List ℕ
      iv = take 8 b ++ (slice 8 24 a ++ slice 24 32 b)

  pub compute_msg_key_total :
      (auth_key plaintext : List ℕ) (is_client : Bool)
      → length auth_key ≡ 256
      → (msg_key : List ℕ) × (compute_msg_key o auth_key plaintext is_client ≡ ok msg_key)
        × IsBytes 16 msg_key
  unfolding compute_msg_key
  compute_msg_key_total auth_key plaintext is_client h = (
    slice 8 24 hash,
    rw h refl,
    slice-IsBytes 8 16 hash
        (omega (arith, (sha256-IsBytes (slice offset (offset + 32) auth_key ++ plaintext)).0))
        (sha256-IsBytes (slice offset (offset + 32) auth_key ++ plaintext)).1,
  )
    where
      offset : ℕ
      offset = if is_client then 88 else 96

      hash : List ℕ
      hash = compute_sha256 o (slice offset (offset + 32) auth_key ++ plaintext)

-- RAND_bytes fills the buffer, or fails.
abbrev pub IsRandom : Random → Type 0
IsRandom r = (n : ℕ) (b : List ℕ) → r.rand_bytes n ≡ some b → IsBytes n b

rand_loop-IsBytes : (rand : ℕ → ℕ) (i n : ℕ) → IsBytes n (rand_loop rand i n)
unfolding rand_loop
rand_loop-IsBytes rand i zero = (refl, tt)
rand_loop-IsBytes rand i (suc n) =
    let (e, bytes) = rand_loop-IsBytes rand (i + 1) n in
    (ap suc e, (omega (arith, bit_and_byte (rand i)), bytes))

-- Whether or not RAND_bytes fails, there are as many bytes as were asked for.
pub generate_random_bytes-IsBytes :
    (r : Random) (n : ℕ) → IsRandom r → IsBytes n (generate_random_bytes r n)
unfolding generate_random_bytes
generate_random_bytes-IsBytes r n h = elim (Option-cases (r.rand_bytes n)) [
  | inl e ↦ rw (e, generate_random_bytes) (rand_loop-IsBytes r.rand 0 n)
  | inr (b, e) ↦ rw (e, generate_random_bytes) (h n b e)
]
