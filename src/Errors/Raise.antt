-- ===== src/Errors/Raise.antt =====
-- From the RPC's code to the exception's.
use cpp_gram.Common.{
  ℕ, ◌≡◌, ◌⊎◌, refl, sym, ap, ◌∙◌, List, some, ◌==◌, ==_iff, Bool-cases, Option-cases, inl, inr,
}
use cpp_gram.Common.Maps.{is_some}
use cpp_gram.Errors.{
  ErrorCode, Error, phone_migrate_text, file_migrate_text, user_migrate_text, flood_wait_text,
  slowmode_wait_text, behind, migrate_to, flood_of, plain_error, from_rpc, raise_see_other,
  raise_flood, raise, rpc_code_of,
}

raise_see_other-code : (e : Error) → e.rpc_code ≡ 303 → rpc_code_of (raise_see_other e) ≡ some 303
unfolding raise_see_other
raise_see_other-code e h = elim (Bool-cases (is_some (behind phone_migrate_text e.message))) [
  | inl f ↦ rw f refl
  | inr f ↦ elim (Bool-cases (is_some (behind file_migrate_text e.message))) [
    | inl g ↦ rw (f, g) refl
    | inr g ↦ elim (Bool-cases (is_some (behind user_migrate_text e.message))) [
      | inl k ↦ rw (f, g, k) refl
      | inr k ↦ rw (f, g, k) (ap some h)
    ]
  ]
]

raise_flood-code : (e : Error) → e.rpc_code ≡ 420 → rpc_code_of (raise_flood e) ≡ some 420
unfolding raise_flood
raise_flood-code e h = elim (Bool-cases (is_some (behind slowmode_wait_text e.message))) [
  | inl f ↦ rw f refl
  | inr f ↦ rw f (ap some h)
]

flood_of-cases :
    (message : List ℕ)
    → ((flood_of message).0 ≡ ErrorCode.flood_wait) ⊎ ((flood_of message).0 ≡ ErrorCode.flood)
unfolding flood_of
flood_of-cases message = elim (Option-cases (behind flood_wait_text message)) [
  | inr (rest, e) ↦ inl (rw (e, flood_of) refl)
  | inl e ↦ elim (Option-cases (behind slowmode_wait_text message)) [
    | inr (rest, f) ↦ inr (rw (e, f, flood_of) refl)
    | inl f ↦ inr (rw (e, f, flood_of) refl)
  ]
]

raise_waiting-code :
    (code : ErrorCode) (rpc_code retry_after : ℕ) (message : List ℕ)
    → (code ≡ ErrorCode.flood_wait) ⊎ (code ≡ ErrorCode.flood)
    → rpc_code ≡ 420
    → rpc_code_of (raise (record (plain_error code rpc_code message) { retry_after = retry_after }))
      ≡ some 420
unfolding raise plain_error
raise_waiting-code code rpc_code retry_after message (inl e) h = rw e refl
raise_waiting-code code rpc_code retry_after message (inr e) h =
    rw e (
      raise_flood-code (record (plain_error code rpc_code message) { retry_after = retry_after }) h)

flood_code :
    (rpc_code : ℕ) (message : List ℕ)
    → rpc_code ≡ 420
    → rpc_code_of (
        raise (record (plain_error (flood_of message).0 rpc_code message) {
          retry_after = (flood_of message).1;
        }))
      ≡ some rpc_code
flood_code rpc_code message h =
    raise_waiting-code (flood_of message).0 rpc_code (flood_of message).1 message
      (flood_of-cases message) h
    ∙ ap some (sym h)

-- The exception that is raised for an RPC's error is an RPCError with the RPC's code, whatever the
-- code and the message.
pub raise-from_rpc :
    (rpc_code : ℕ) (message : List ℕ)
    → rpc_code_of (raise (from_rpc rpc_code message)) ≡ some rpc_code
unfolding raise from_rpc plain_error
raise-from_rpc rpc_code message = elim (Bool-cases (rpc_code == 303)) [
  | inl e ↦ rw e (
      raise_see_other-code
        (record (plain_error ErrorCode.see_other rpc_code message) {
          migrate_to_dc = migrate_to message;
        })
        ((==_iff rpc_code 303).0 e)
      ∙ ap some (sym ((==_iff rpc_code 303).0 e)))
  | inr e1 ↦ elim (Bool-cases (rpc_code == 400)) [
    | inl e ↦ rw (e1, e) refl
    | inr e2 ↦ elim (Bool-cases (rpc_code == 401)) [
      | inl e ↦ rw (e1, e2, e) refl
      | inr e3 ↦ elim (Bool-cases (rpc_code == 403)) [
        | inl e ↦ rw (e1, e2, e3, e) refl
        | inr e4 ↦ elim (Bool-cases (rpc_code == 404)) [
          | inl e ↦ rw (e1, e2, e3, e4, e) refl
          | inr e5 ↦ elim (Bool-cases (rpc_code == 406)) [
            | inl e ↦ rw (e1, e2, e3, e4, e5, e) refl
            | inr e6 ↦ elim (Bool-cases (rpc_code == 420)) [
              | inl e ↦
                  rw (e1, e2, e3, e4, e5, e6, e)
                    (flood_code rpc_code message ((==_iff rpc_code 420).0 e))
              | inr e7 ↦ elim (Bool-cases (rpc_code == 500)) [
                | inl e ↦ rw (e1, e2, e3, e4, e5, e6, e7, e) refl
                | inr e8 ↦ rw (e1, e2, e3, e4, e5, e6, e7, e8) refl
              ]
            ]
          ]
        ]
      ]
    ]
  ]
]
