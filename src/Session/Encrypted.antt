-- ===== src/Session/Encrypted.antt =====
-- The envelope of a message under an authorisation key, sealed by one session and opened by another.
use cpp_gram.Common.{
  ℕ, ◌+◌, ◌%◌, ◌^◌, ◌≤◌, ◌<◌, ◌≡◌, refl, sym, ap, ◌∙◌, Bool, true, false, List, ◌++◌, some, length,
  drop, slice, arith, length-append, slice-skip, slice-here, drop-append, append_assoc, All,
  All-append, ok, le→ltb, ==_refl, equal_refl, ltb,
}
use cpp_gram.Common.Bytes.{to_le, of_le, length-to_le, of_le-to_le, IsByte, IsU64}
use cpp_gram.Crypto.{
  Openssl, Random, generate_random_bytes, kdf_mtproto2, compute_msg_key, aes_ige_encrypt,
  aes_ige_decrypt,
}
use cpp_gram.Crypto.Laws.{
  IsBytes, IsOpenssl, IsRandom, kdf_mtproto2_total, compute_msg_key_total,
  generate_random_bytes-IsBytes,
}
use cpp_gram.Crypto.Ige.{aes_ige_decrypt-aes_ige_encrypt}
use cpp_gram.Session.{
  Session, generate_msg_id, generate_seq_no, MtprotoMessage, accepted, pad_length, seal,
  inner_bytes, pack_encrypted_message, open_as, open_either, read_plaintext,
  unpack_encrypted_message,
}
use cpp_gram.Session.Ids.{generate_msg_id-IsU64, generate_seq_no-IsU32}
use cpp_gram.Session.Plaintext.{
  pad_length_lem, inner-plain, read-plain, length-inner_bytes, inner_bytes-IsByte,
}

kept_by_ids :
    (epoch_ms : ℕ) (content : Bool) (s : Session)
    → let s2 = (generate_seq_no content (generate_msg_id epoch_ms s).1).1 in
      (s2.auth_key ≡ s.auth_key) × (s2.auth_key_id ≡ s.auth_key_id)
unfolding generate_msg_id generate_seq_no
kept_by_ids epoch_ms true s = (refl, refl)
kept_by_ids epoch_ms false s = (refl, refl)

envelope_size :
    (t : Session) (msg_key ciphertext : List ℕ)
    → length msg_key ≡ 16
    → length (to_le 8 t.auth_key_id ++ (msg_key ++ ciphertext)) ≡ 24 + length ciphertext
envelope_size t msg_key ciphertext h = omega (
  arith,
  length-append (to_le 8 t.auth_key_id) (msg_key ++ ciphertext),
  length-append msg_key ciphertext,
  length-to_le 8 t.auth_key_id,
)

module _ (o : Openssl) (laws : IsOpenssl o) where
  seal_as :
      (s : Session) (plaintext msg_key key iv ciphertext : List ℕ)
      → compute_msg_key o s.auth_key plaintext true ≡ ok msg_key
      → kdf_mtproto2 o s.auth_key msg_key true ≡ some (key, iv)
      → aes_ige_encrypt o plaintext key iv ≡ ok ciphertext
      → seal o s plaintext ≡ ok (to_le 8 s.auth_key_id ++ (msg_key ++ ciphertext))
  unfolding seal to_le
  seal_as s plaintext msg_key key iv ciphertext e1 e2 e3 = rw (e1, e2, e3, seal) refl

  open_as_client :
      (t : Session) (plaintext msg_key key iv ciphertext : List ℕ)
      → kdf_mtproto2 o t.auth_key msg_key true ≡ some (key, iv)
      → aes_ige_decrypt o ciphertext key iv ≡ ok plaintext
      → compute_msg_key o t.auth_key plaintext true ≡ ok msg_key
      → open_either o t msg_key ciphertext ≡ some plaintext
  unfolding open_as open_either
  open_as_client t plaintext msg_key key iv ciphertext e1 e2 e3 = rw (opened, open_either) refl
    where
      opened : open_as o t msg_key ciphertext true ≡ some plaintext
      opened = rw (e1, e2, e3, equal_refl msg_key, open_as) refl

  -- Sealed bytes are opened by whoever has the same key.
  open-seal :
      (s t : Session) (plaintext : List ℕ)
      → length s.auth_key ≡ 256
      → t.auth_key ≡ s.auth_key
      → length plaintext % 16 ≡ 0
      → All IsByte plaintext
      → (msg_key : List ℕ) × (ciphertext : List ℕ) × (seal o s plaintext
          ≡ ok (to_le 8 s.auth_key_id ++ (msg_key ++ ciphertext)))
        × IsBytes 16 msg_key
        × IsBytes (length plaintext) ciphertext
        × (open_either o t msg_key ciphertext ≡ some plaintext)
  open-seal s t plaintext h same whole bytes =
      let (msg_key, e1, h1) = compute_msg_key_total o laws s.auth_key plaintext true h in
      let (key, iv, e2, hk, hiv) = kdf_mtproto2_total o laws s.auth_key msg_key true h h1.0 in
      let (ciphertext, e3, h3, e4) =
        aes_ige_decrypt-aes_ige_encrypt o laws key hk.0 plaintext iv whole bytes hiv in
      (
        msg_key,
        ciphertext,
        seal_as s plaintext msg_key key iv ciphertext e1 e2 e3,
        h1,
        h3,
        open_as_client t plaintext msg_key key iv ciphertext (rw same e2) e4 (rw same e1),
      )

  -- The envelope is taken apart.
  unpack-envelope :
      (t : Session) (msg_key ciphertext plaintext : List ℕ) (out : MtprotoMessage)
      → length t.auth_key ≡ 256
      → IsU64 t.auth_key_id
      → length msg_key ≡ 16
      → 32 ≤ length ciphertext
      → length ciphertext % 16 ≡ 0
      → open_either o t msg_key ciphertext ≡ some plaintext
      → unpack_encrypted_message o t (to_le 8 t.auth_key_id ++ (msg_key ++ ciphertext)) out
        ≡ read_plaintext plaintext out
  unfolding unpack_encrypted_message
  unpack-envelope t msg_key ciphertext plaintext out h id h1 h2 whole e =
      rw (long, h, key_id, ==_refl t.auth_key_id, msg_key_part, ciphertext_part, whole, e) refl
    where
      id_part : List ℕ
      id_part = to_le 8 t.auth_key_id

      long : ltb (length (to_le 8 t.auth_key_id ++ (msg_key ++ ciphertext))) (24 + 32) ≡ false
      long =
          le→ltb (length (to_le 8 t.auth_key_id ++ (msg_key ++ ciphertext))) 56
            (simp (length-append, length-to_le) (omega (arith)))

      key_id : of_le (slice 0 8 (to_le 8 t.auth_key_id ++ (msg_key ++ ciphertext))) ≡ t.auth_key_id
      key_id =
          ap of_le (slice-here 8 (to_le 8 t.auth_key_id) _ (length-to_le 8 _))
          ∙ of_le-to_le 8 t.auth_key_id id

      msg_key_part : slice 8 24 (to_le 8 t.auth_key_id ++ (msg_key ++ ciphertext)) ≡ msg_key
      msg_key_part =
          slice-skip 8 0 16 (to_le 8 t.auth_key_id) _ (length-to_le 8 _)
          ∙ slice-here 16 msg_key ciphertext h1

      ciphertext_part : drop 24 (to_le 8 t.auth_key_id ++ (msg_key ++ ciphertext)) ≡ ciphertext
      ciphertext_part =
          ap (drop 24) (sym (append_assoc (to_le 8 t.auth_key_id) msg_key ciphertext))
          ∙ drop-append 24 (to_le 8 t.auth_key_id ++ msg_key) ciphertext
              (simp (length-append, length-to_le) (omega arith))

  pack_opened :
      (epoch_ms : ℕ) (r : Random) (payload : List ℕ) (content : Bool) (s : Session)
      → length s.auth_key ≡ 256
      → let (msg_id, s1) = generate_msg_id epoch_ms s in
        let (seq_no, s2) = generate_seq_no content s1 in
        let inner = inner_bytes s2 msg_id seq_no payload in
        (pack_encrypted_message o epoch_ms r payload content s).0
        ≡ seal o s2 (inner ++ generate_random_bytes r (pad_length (length inner)))
  unfolding pack_encrypted_message
  pack_opened epoch_ms r payload content s h = rw h refl

  -- A message that one session packs is accepted by any session with the same authorisation key, with
  -- its id, its sequence number and its payload, whatever the clock says, the padding drawn and the
  -- receiver's variables held; neither the salt nor the session id of the receiver matters.
  pub unpack-pack_encrypted_message :
      (epoch_ms : ℕ) (r : Random) (payload : List ℕ) (content : Bool) (s t : Session)
      (out : MtprotoMessage)
      → IsRandom r
      → length s.auth_key ≡ 256
      → t.auth_key ≡ s.auth_key
      → t.auth_key_id ≡ s.auth_key_id
      → IsU64 s.auth_key_id
      → All IsByte payload
      → 32 + length payload < 2 ^ 32
      → let (msg_id, s1) = generate_msg_id epoch_ms s in
        let seq_no = (generate_seq_no content s1).0 in
        (packet : List ℕ) × ((pack_encrypted_message o epoch_ms r payload content s).0 ≡ ok packet)
        × (length packet % 4 ≡ 0)
        × (length packet ≤ length payload + 83)
        × (unpack_encrypted_message o t packet out
            ≡ (accepted, record { msg_id = msg_id; seq_no = seq_no; payload = payload }))
  unpack-pack_encrypted_message epoch_ms r payload content s t out random h same same_id id bytes
        small =
      let (msg_key, ciphertext, e1, hk, hc, e2) =
        open-seal s2 t plaintext (rw kept.0 h) (same ∙ sym kept.0) whole all_bytes in
      (
        to_le 8 t.auth_key_id ++ (msg_key ++ ciphertext),
        packed
            ∙ e1
            ∙ ap (λ (k : ℕ). ok (to_le 8 k ++ (msg_key ++ ciphertext))) (kept.1 ∙ sym same_id),
        omega (arith, envelope_size t msg_key ciphertext hk.0, hc.0, whole),
        omega (
          arith,
          envelope_size t msg_key ciphertext hk.0,
          hc.0,
          total,
          length-inner_bytes s2 msg_id seq_no payload,
          (pad_length_lem (length inner)).1,
        ),
        unpack-envelope t msg_key ciphertext plaintext out (rw same h) (rw same_id id) hk.0
              (omega (arith, hc.0, long)) (omega (arith, hc.0, whole)) e2
            ∙ ap (λ (p : List ℕ). read_plaintext p out)
                (inner-plain s2 msg_id seq_no payload padding (generate_msg_id-IsU64 epoch_ms s)
                  (generate_seq_no-IsU32 content s1) small)
            ∙ read-plain s2 msg_id seq_no payload padding (generate_msg_id-IsU64 epoch_ms s)
                (generate_seq_no-IsU32 content s1) small out,
      )
    where
      s1 : Session
      s1 = (generate_msg_id epoch_ms s).1

      msg_id : ℕ
      msg_id = (generate_msg_id epoch_ms s).0

      s2 : Session
      s2 = (generate_seq_no content s1).1

      seq_no : ℕ
      seq_no = (generate_seq_no content s1).0

      kept : (s2.auth_key ≡ s.auth_key) × (s2.auth_key_id ≡ s.auth_key_id)
      kept = kept_by_ids epoch_ms content s

      inner : List ℕ
      inner = inner_bytes s2 msg_id seq_no payload

      padding : List ℕ
      padding = generate_random_bytes r (pad_length (length inner))

      plaintext : List ℕ
      plaintext = inner ++ padding

      packed : (pack_encrypted_message o epoch_ms r payload content s).0 ≡ seal o s2 plaintext
      packed = pack_opened epoch_ms r payload content s h

      sizes : (length padding ≡ pad_length (length inner)) × All IsByte padding
      sizes = generate_random_bytes-IsBytes r (pad_length (length inner)) random

      total : length plaintext ≡ length inner + pad_length (length inner)
      total = omega (arith, length-append inner padding, sizes.0)

      whole : length plaintext % 16 ≡ 0
      whole = omega (arith, total, (pad_length_lem (length inner)).2)

      long : 32 ≤ length plaintext
      long = omega (arith, total, length-inner_bytes s2 msg_id seq_no payload)

      all_bytes : All IsByte plaintext
      all_bytes =
          All-append IsByte inner padding (inner_bytes-IsByte s2 msg_id seq_no payload bytes)
            sizes.1
