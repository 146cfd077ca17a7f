-- ===== src/MtprotoClient/Ping.antt =====
-- The answers to a ping that are accepted.
use cpp_gram.Common.{
  ℕ, ◌≡◌, refl, ap, List, [], ◌++◌, some, none, true, false, ◌==◌, Option, Outcome, subst,
  append-nil, length, length-append, append_assoc, arith, le→ltb, ok,
}
use cpp_gram.Common.Bytes.{to_le, length-to_le, IsU64}
use cpp_gram.Tl.{
  TlReader, TlError, Read, new_reader, ◌>>=◌, pure, read_uint32, read_int64, tl_pong, advance,
}
use cpp_gram.Tl.Reads.{Reads, read_uint32-Reads, read_int64-Reads, bind-Reads, pure-Reads}
use cpp_gram.MtprotoClient.{read_pong, parse_pong_response}

abbrev ids : Read (Option ℕ)
ids = do msg_id ← read_int64; ping_id ← read_int64; pure (some ping_id)

ids-Reads :
    (msg_id ping_id : ℕ)
    → IsU64 msg_id
    → IsU64 ping_id
    → Reads ids (to_le 8 msg_id ++ to_le 8 ping_id) (some ping_id)
ids-Reads msg_id ping_id hm hp =
    bind-Reads read_int64 (λ m. read_int64 >>= λ p. pure (some p)) (to_le 8 msg_id)
      (to_le 8 ping_id) msg_id (some ping_id) (read_int64-Reads msg_id hm)
      (subst (λ bs. Reads (read_int64 >>= λ p. pure (some p)) bs (some ping_id))
        (append-nil (to_le 8 ping_id))
        (bind-Reads read_int64 (λ p. pure (some p)) (to_le 8 ping_id) [] ping_id (some ping_id)
          (read_int64-Reads ping_id hp) (pure-Reads (some ping_id))))

read_pong-Reads :
    (msg_id ping_id : ℕ)
    → IsU64 msg_id
    → IsU64 ping_id
    → Reads read_pong (to_le 4 tl_pong ++ (to_le 8 msg_id ++ to_le 8 ping_id)) (some ping_id)
unfolding read_pong
read_pong-Reads msg_id ping_id hm hp =
    bind-Reads read_uint32 (λ ctor. elim (ctor == tl_pong) [ false ↦ pure none | true ↦ ids ])
      (to_le 4 tl_pong) (to_le 8 msg_id ++ to_le 8 ping_id) tl_pong (some ping_id)
      (read_uint32-Reads tl_pong (omega arith)) (ids-Reads msg_id ping_id hm hp)

-- A pong for any message, with any bytes after it, gives the id of the ping back.
pub parse_pong_response_found :
    (msg_id ping_id : ℕ) (rest : List ℕ)
    → IsU64 msg_id
    → IsU64 ping_id
    → parse_pong_response (to_le 4 tl_pong ++ (to_le 8 msg_id ++ (to_le 8 ping_id ++ rest)))
      ≡ some ping_id
unfolding parse_pong_response
parse_pong_response_found msg_id ping_id rest hm hp =
    rw
      (
        le→ltb (length (to_le 4 tl_pong ++ (to_le 8 msg_id ++ (to_le 8 ping_id ++ rest)))) 20
            (simp (length-append, length-to_le) (omega arith)),
        ap (λ (r : Outcome TlError (Option ℕ) × TlReader). r.0) answer,
      )
      refl
  where
    fields : List ℕ
    fields = to_le 4 tl_pong ++ (to_le 8 msg_id ++ to_le 8 ping_id)

    whole : List ℕ
    whole = to_le 4 tl_pong ++ (to_le 8 msg_id ++ (to_le 8 ping_id ++ rest))

    parts : whole ≡ fields ++ rest
    parts = simp append_assoc refl

    answer :
        read_pong (new_reader whole)
        ≡ (ok (some ping_id), advance (new_reader whole) (length fields))
    answer =
        read_pong-Reads msg_id ping_id hm hp (new_reader whole) rest
          (record { within = omega arith; left = parts })
