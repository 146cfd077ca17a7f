-- ===== src/Session/Authentic.antt =====
-- What a session accepts as a message under its authorisation key.
use cpp_gram.Common.{
  ℕ, ◌+◌, ◌%◌, ◌≡◌, ap, ◌∙◌, Bool, true, false, List, some, length, drop, slice, Outcome-cases, ok,
  ==_iff, equal, equal→≡, Bool-cases, Option-cases, inl, inr, ltb, ◌||◌, not, ◌==◌,
}
use cpp_gram.Common.Bytes.{of_le}
use cpp_gram.Crypto.{Openssl, kdf_mtproto2, compute_msg_key, aes_ige_decrypt}
use cpp_gram.Session.{
  Session, MtprotoMessage, accepted, open_as, open_either, read_plaintext, unpack_encrypted_message,
}

module _ (o : Openssl) where
  -- What one round of the loop gives.
  Opened : Session → List ℕ → List ℕ → Bool → List ℕ → Type 0
  Opened t msg_key ciphertext is_client plaintext =
      (key : List ℕ) × (iv : List ℕ) × (kdf_mtproto2 o t.auth_key msg_key is_client
        ≡ some (key, iv))
      × (aes_ige_decrypt o ciphertext key iv ≡ ok plaintext)
      × (compute_msg_key o t.auth_key plaintext is_client ≡ ok msg_key)

  open_as_found :
      (t : Session) (msg_key ciphertext plaintext : List ℕ) (is_client : Bool)
      → open_as o t msg_key ciphertext is_client ≡ some plaintext
      → Opened t msg_key ciphertext is_client plaintext
  unfolding open_as Opened
  open_as_found t msg_key ciphertext plaintext is_client h =
      elim (Option-cases (kdf_mtproto2 o t.auth_key msg_key is_client)) [
        | inl e ↦ absurd (cc (rw (e, open_as) at h))
        | inr ((key, iv), e1) ↦ elim (Outcome-cases (aes_ige_decrypt o ciphertext key iv)) [
          | inl (x, e) ↦ absurd (cc (rw (e1, e, open_as) at h))
          | inr (p, e2) ↦ elim (Outcome-cases (compute_msg_key o t.auth_key p is_client)) [
            | inl (x, e) ↦ absurd (cc (rw (e1, e2, e, open_as) at h))
            | inr (k, e3) ↦ elim (Bool-cases (equal k msg_key)) [
              | inl e4 ↦
                  let found : some p ≡ some plaintext = rw (e1, e2, e3, e4, open_as) at h in
                  let same : p ≡ plaintext = cc in
                  (key, iv, e1, e2 ∙ ap ok same, rw (← same) (e3 ∙ ap ok (equal→≡ k msg_key e4)))
              | inr e4 ↦ absurd (cc (rw (e1, e2, e3, e4, open_as) at h))
            ]
          ]
        ]
      ]

  open_either_found :
      (t : Session) (msg_key ciphertext plaintext : List ℕ)
      → open_either o t msg_key ciphertext ≡ some plaintext
      → (is_client : Bool) × Opened t msg_key ciphertext is_client plaintext
  unfolding open_either
  open_either_found t msg_key ciphertext plaintext h =
      elim (Option-cases (open_as o t msg_key ciphertext true)) [
        | inl e ↦
            (false, open_as_found t msg_key ciphertext plaintext false (rw (e, open_either) at h))
        | inr (p, e) ↦ (
          true,
          open_as_found t msg_key ciphertext plaintext true (e ∙ (rw (e, open_either) at h)),
        )
      ]

  -- What a session accepts has been sealed under its key: the bytes after the key id are a ciphertext
  -- that decrypts, by the keys of one of the two directions, to a plaintext whose message key is the
  -- one in the packet, and what the caller gets is read from that plaintext.
  pub unpack_encrypted_message_authentic :
      (t : Session) (bytes : List ℕ) (out got : MtprotoMessage)
      → unpack_encrypted_message o t bytes out ≡ (accepted, got)
      → (of_le (slice 0 8 bytes) ≡ t.auth_key_id)
        × ((is_client : Bool) × (key : List ℕ) × (iv : List ℕ) × (plaintext : List ℕ)
            × (kdf_mtproto2 o t.auth_key (slice 8 24 bytes) is_client ≡ some (key, iv))
            × (aes_ige_decrypt o (drop 24 bytes) key iv ≡ ok plaintext)
            × (compute_msg_key o t.auth_key plaintext is_client ≡ ok (slice 8 24 bytes))
            × (read_plaintext plaintext out ≡ (accepted, got)))
  unfolding unpack_encrypted_message Opened
  unpack_encrypted_message_authentic t bytes out got h =
      elim (Bool-cases (ltb (length bytes) (24 + 32) || not (length t.auth_key == 256))) [
        | inl e ↦ absurd (cc (rw (e, unpack_encrypted_message) at h))
        | inr e1 ↦ elim (Bool-cases (of_le (slice 0 8 bytes) == t.auth_key_id)) [
          | inr e ↦ absurd (cc (rw (e1, e, unpack_encrypted_message) at h))
          | inl e2 ↦ elim (Bool-cases (length (drop 24 bytes) % 16 == 0)) [
            | inr e ↦ absurd (cc (rw (e1, e2, e, unpack_encrypted_message) at h))
            | inl e3 ↦ elim (Option-cases (open_either o t (slice 8 24 bytes) (drop 24 bytes))) [
              | inl e ↦ absurd (cc (rw (e1, e2, e3, e, unpack_encrypted_message) at h))
              | inr (plaintext, e) ↦
                  let (is_client, (key, iv, d1, d2, d3)) =
                    open_either_found t (slice 8 24 bytes) (drop 24 bytes) plaintext e in
                  (
                    (==_iff (of_le (slice 0 8 bytes)) t.auth_key_id).0 e2,
                    (
                      is_client,
                      key,
                      iv,
                      plaintext,
                      d1,
                      d2,
                      d3,
                      rw (e1, e2, e3, e, unpack_encrypted_message) at h,
                    ),
                  )
            ]
          ]
        ]
      ]
