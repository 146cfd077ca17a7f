-- ===== src/Network/Send.antt =====
-- What has been sent when send_bytes returns.
use cpp_gram.Common.{
  ℕ, ◌≡◌, refl, sym, ap, ◌∙◌, false, List, [], ◌∷◌, ◌++◌, append_assoc, append-nil, length, take,
  drop, take-append-drop, ◌==◌, Bool-cases, inl, inr,
}
use cpp_gram.Transport.{Codec, encode_packet}
use cpp_gram.Network.{TcpConnection, success, failure, send_loop, send_bytes, send_packet}

-- What the socket has taken is a beginning of the bytes, and all of them if the loop succeeds.
send_loop_prefix :
    (answers bytes : List ℕ)
    → (unsent : List ℕ) × ((send_loop answers bytes).1 ++ unsent ≡ bytes)
      × ((send_loop answers bytes).0 ≡ success → unsent ≡ [])
unfolding send_loop
send_loop_prefix [] [] = ([], refl, λ e. refl)
send_loop_prefix (sent ∷ answers) [] = ([], refl, λ e. refl)
send_loop_prefix [] (b ∷ bytes) = (b ∷ bytes, refl, λ e. absurd (cc e))
send_loop_prefix (sent ∷ answers) (b ∷ bytes) =
    let (unsent, parts, done) = send_loop_prefix answers (drop sent (b ∷ bytes)) in
    elim (Bool-cases (sent == 0)) [
      | inl e ↦ rw e (b ∷ bytes, refl, λ f. absurd (cc f))
      | inr e ↦ rw e (
        unsent,
        append_assoc (take sent (b ∷ bytes)) (send_loop answers (drop sent (b ∷ bytes))).1 unsent
            ∙ ap (◌++◌ (take sent (b ∷ bytes))) parts
            ∙ take-append-drop sent (b ∷ bytes),
        done,
      )
    ]

-- Whatever the socket takes at each call: when send_packet answers `true`, exactly the codec's frame
-- has gone out, and otherwise a beginning of it. Without a connection the answer is `false`, nothing
-- goes out, and the codec is as it was.
pub send_packet_prefix :
    (answers payload : List ℕ) (codec : Codec) (conn : TcpConnection)
    → let (result, sent) = (send_packet answers payload codec conn).0 in
      ((unsent : List ℕ) × (sent ++ unsent ≡ (encode_packet codec payload).0))
      × (result ≡ success → sent ≡ (encode_packet codec payload).0)
      × (conn.is_connected ≡ false
          → send_packet answers payload codec conn ≡ ((failure, []), codec))
unfolding send_packet send_bytes
send_packet_prefix answers payload codec conn = elim (Bool-cases conn.is_connected) [
  | inr e ↦ rw e ((frame, refl), λ f. absurd (cc f), λ f. refl)
  | inl e ↦ elim (Bool-cases (length frame == 0)) [
    | inl f ↦ rw (e, f) ((frame, refl), λ g. absurd (cc g), λ g. absurd (cc g))
    | inr f ↦
        rw (e, f)
          (
            ((send_loop_prefix answers frame).0, (send_loop_prefix answers frame).1),
            λ g.
                sym (append-nil (send_loop answers frame).1)
                ∙ ap (◌++◌ (send_loop answers frame).1) (sym ((send_loop_prefix answers frame).2 g))
                ∙ (send_loop_prefix answers frame).1,
            λ g. absurd (cc g),
          )
  ]
]
  where
    frame : List ℕ
    frame = (encode_packet codec payload).0
