-- ===== src/Obfuscated/Header.antt =====
-- The header that generate_keys makes of a draw, and what the other side finds in it.
use cpp_gram.Common.{
  ℕ, ◌-◌, ◌≤◌, ◌≡◌, refl, sym, ap, subst, ◌∙◌, false, List, [], ◌∷◌, ◌++◌, some, length, take, drop,
  slice, replicate, length-append, length-take, length-drop, take-append, drop-append,
  take-append_le, drop-append_le, get_or-append, take-all, take-append-drop, All-append, All-drop,
  Bool-cases, inl, inr, arith, ok,
}
use cpp_gram.Common.Bytes.{IsByte}
use cpp_gram.Crypto.{Openssl, aes_ctr_encrypt, aes_ctr_decrypt}
use cpp_gram.Crypto.Laws.{IsOpenssl, IsBytes}
use cpp_gram.Crypto.Ctr.{aes_ctr_decrypt-aes_ctr_encrypt}
use cpp_gram.Transport.{TransportProtocol, Codec}
use cpp_gram.Obfuscated.{is_rejected, draw, proto_tag, tagged, keyed, with_tail, set_keys}

pub draw_sound : (draws : List (List ℕ)) (p : List ℕ) → draw draws ≡ some p → is_rejected p ≡ false
unfolding draw
draw_sound [] p h = absurd (cc)
draw_sound (q ∷ draws) p h = elim (Bool-cases (is_rejected q)) [
  | inl e ↦ draw_sound draws p (rw e at h)
  | inr e ↦
      let same : some q ≡ some p = rw e at h in
      let eq : q ≡ p = cc in subst (λ z. is_rejected z ≡ false) eq e
]

pub slice-front :
    (from to : ℕ) (a x : List ℕ)
    → from ≤ to
    → to ≤ length a
    → slice from to (a ++ x) ≡ slice from to a
slice-front from to a x h k =
    rw (drop-append_le from a x (omega arith))
      (take-append_le (to - from) (drop from a) x (omega (arith, length-drop from a)))

-- The test looks at the first eight bytes only.
is_rejected-front : (a x : List ℕ) → 8 ≤ length a → is_rejected (a ++ x) ≡ is_rejected a
unfolding is_rejected
is_rejected-front a x h =
    rw
      (
        get_or-append a x 0 0 (omega arith),
        take-append_le 4 a x (omega arith),
        slice-front 4 8 a x (omega arith) h,
      )
      refl

proto_tag-IsByte : (proto : TransportProtocol) → IsByte (proto_tag proto)
unfolding proto_tag
proto_tag-IsByte TransportProtocol.abridged = omega arith
proto_tag-IsByte TransportProtocol.intermediate = omega arith
proto_tag-IsByte TransportProtocol.padded_intermediate = omega arith
proto_tag-IsByte TransportProtocol.full = omega arith

-- What follows the first 56 bytes before it is encrypted: the tag, and the last four bytes drawn.
abbrev pub tail : TransportProtocol → List ℕ → List ℕ
tail proto p = replicate 4 (proto_tag proto) ++ drop 60 p

pub tail-IsBytes :
    (proto : TransportProtocol) (p : List ℕ) → IsBytes 64 p → IsBytes 8 (tail proto p)
tail-IsBytes proto p (size, bytes) =
    let t = proto_tag-IsByte proto in
    (
      omega (arith, length-append (replicate 4 (proto_tag proto)) (drop 60 p), length-drop 60 p),
      All-append IsByte (replicate 4 (proto_tag proto)) (drop 60 p) (t, (t, (t, (t, tt))))
          (All-drop IsByte 60 p bytes),
    )

pub rejected_same :
    (p a : List ℕ) → take 56 p ≡ a → length a ≡ 56 → is_rejected p ≡ false → is_rejected a ≡ false
rejected_same p a same front r =
    sym (is_rejected-front a (drop 56 p) (omega arith))
    ∙ (ap is_rejected (ap (λ z. z ++ drop 56 p) (sym same) ∙ take-append-drop 56 p) ∙ r)

pub header_lem :
    (a t e : List ℕ) → length a ≡ 56 → length e ≡ 8 → take 56 (a ++ t) ++ take 8 e ≡ a ++ e
header_lem a t e front size = rw (take-append 56 a t front, take-all 8 e (omega arith)) refl

module _ (o : Openssl) (laws : IsOpenssl o) where
  tail_encrypted :
      (proto : TransportProtocol) (a p e : List ℕ)
      → take 56 p ≡ a
      → length a ≡ 56
      → aes_ctr_encrypt o (tail proto p) (slice 8 40 a) (slice 40 56 a) ≡ ok e
      → (let t = tagged proto p in
          aes_ctr_encrypt o (drop 56 t) (slice 8 40 t) (slice 40 56 t) ≡ ok e)
  unfolding tagged
  tail_encrypted proto a p e same front enc =
      rw
        (
          same,
          drop-append 56 a (tail proto p) front,
          slice-front 8 40 a (tail proto p) (omega arith) (omega arith),
          slice-front 40 56 a (tail proto p) (omega arith) (omega arith),
        )
        enc

  pub set_keys_lem :
      (inner : Codec) (proto : TransportProtocol) (a p : List ℕ)
      → take 56 p ≡ a
      → length a ≡ 56
      → IsBytes 8 (tail proto p)
      → (e : List ℕ) × ((set_keys o inner proto p ≡ ok (keyed inner (tagged proto p) e))
          × ((length e ≡ 8)
              × (aes_ctr_decrypt o e (slice 8 40 a) (slice 40 56 a) ≡ ok (tail proto p))))
  unfolding set_keys tagged
  set_keys_lem inner proto a p same front (size, bytes) =
      let (e, enc, len, dec) =
        aes_ctr_decrypt-aes_ctr_encrypt o laws (slice 8 40 a) (slice 40 56 a)
          (omega (arith, length-take 32 (drop 8 a), length-drop 8 a))
          (omega (arith, length-take 16 (drop 40 a), length-drop 40 a)) (tail proto p) bytes
          (omega (arith, size)) in
      (
        e,
        (
          ap (with_tail inner (tagged proto p)) (tail_encrypted proto a p e same front enc),
          (len ∙ size, dec),
        ),
      )

  -- What is promised of a header, from the 56 bytes in its front and the tail.
  abbrev pub IsOpening : List ℕ → List ℕ → List ℕ → Type 0
  IsOpening a t header =
      (length header ≡ 64)
      × ((take 56 header ≡ a)
          × ((is_rejected header ≡ false)
              × (aes_ctr_decrypt o (drop 56 header) (slice 8 40 header) (slice 40 56 header)
                  ≡ ok t)))

  pub opening :
      (a t e : List ℕ)
      → length a ≡ 56
      → length e ≡ 8
      → is_rejected a ≡ false
      → aes_ctr_decrypt o e (slice 8 40 a) (slice 40 56 a) ≡ ok t
      → IsOpening a t (a ++ e)
  opening a t e front len r dec = (
    omega (arith, length-append a e),
    (
      take-append 56 a e front,
      (
        is_rejected-front a e (omega arith) ∙ r,
        rw
            (
              drop-append 56 a e front,
              slice-front 8 40 a e (omega arith) (omega arith),
              slice-front 40 56 a e (omega arith) (omega arith),
            )
            dec,
      ),
    ),
  )
