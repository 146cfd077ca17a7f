-- ===== src/Storage/Peers.antt =====
-- The peers of a storage and their index by username, over any calls.
use cpp_gram.Common.{
  ℕ, ◌≡◌, ◌≢◌, refl, sym, subst, ap, ◌∙◌, Bool, true, false, List, [], ◌∷◌, none, some, inl, inr,
  Bool-cases, Option-cases, if◌then◌else◌, length, ◌==◌,
}
use cpp_gram.Common.Maps.{
  number_key, string_key, is_some, find, assign, contains, find-assign, find-assign_other,
  contains-assign,
}
use cpp_gram.Storage.{
  PeerInfo, MemorySessionStorage, empty_storage, set_value, delete_value, save_peer, get_peer,
  get_peer_by_username, close,
}

pub data Call : Type 0 where
  setting : List ℕ → List ℕ → Call
  deleting : List ℕ → Call
  saving : PeerInfo → Call
  closing : Call

abbrev pub call : Call → MemorySessionStorage → MemorySessionStorage
call (setting key value) s = set_value key value s
call (deleting key) s = delete_value key s
call (saving peer) s = save_peer peer s
call closing s = close s

abbrev pub calls : List Call → MemorySessionStorage → MemorySessionStorage
calls [] s = s
calls (c ∷ cs) s = calls cs (call c s)

-- Each peer stands under its own id, and each id of the index is that of a peer.
abbrev pub IsValid : MemorySessionStorage → Type 0
IsValid s =
    ((id : ℕ) (p : PeerInfo) → find id s.peers ≡ some p → p.id ≡ id)
    × ((username : List ℕ) (id : ℕ)
        → find username s.username_to_id ≡ some id
        → contains id s.peers ≡ true)

peer_injective : {a b : PeerInfo} → some a ≡ some b → a ≡ b
peer_injective e = cc

id_injective : {a b : ℕ} → some a ≡ some b → a ≡ b
id_injective e = cc

stays_known :
    (peer : PeerInfo) (s : MemorySessionStorage) (id : ℕ)
    → contains id s.peers ≡ true
    → contains id (assign peer.id peer s.peers) ≡ true
stays_known peer s id h =
    contains-assign peer.id id peer s.peers ∙ either_way (number_key.same id peer.id)
  where
    either_way : (b : Bool) → (if b then true else contains id s.peers) ≡ true
    either_way true = refl
    either_way false = h

saved_is_known :
    (peer : PeerInfo) (s : MemorySessionStorage)
    → contains peer.id (assign peer.id peer s.peers) ≡ true
saved_is_known peer s = ap is_some (find-assign peer.id peer s.peers)

save_peer-IsValid :
    (peer : PeerInfo) (s : MemorySessionStorage) → IsValid s → IsValid (save_peer peer s)
unfolding save_peer
save_peer-IsValid peer s h = (own, indexed)
  where
    own : (id : ℕ) (p : PeerInfo) → find id (assign peer.id peer s.peers) ≡ some p → p.id ≡ id
    own id p e = elim (Bool-cases (number_key.same id peer.id)) [
      | inl f ↦
          let same_id : id ≡ peer.id = number_key.same_sound id peer.id f in
          let found : find id (assign peer.id peer s.peers) ≡ some peer =
            subst (λ (k : ℕ). find k (assign peer.id peer s.peers) ≡ some peer) (sym same_id)
              (find-assign peer.id peer s.peers) in
          ap (λ (x : PeerInfo). x.id) (peer_injective (sym e ∙ found)) ∙ sym same_id
      | inr f ↦ h.0 id p (sym (find-assign_other peer.id id peer s.peers f) ∙ e)
    ]

    in_old :
        (username : List ℕ) (id : ℕ)
        → find username s.username_to_id ≡ some id
        → contains id (assign peer.id peer s.peers) ≡ true
    in_old username id e = stays_known peer s id (h.1 username id e)

    in_new :
        (username : List ℕ) (id : ℕ)
        → find username (assign peer.username peer.id s.username_to_id) ≡ some id
        → contains id (assign peer.id peer s.peers) ≡ true
    in_new username id e = elim (Bool-cases (string_key.same username peer.username)) [
      | inl f ↦
          let found : find username (assign peer.username peer.id s.username_to_id) ≡ some peer.id =
            subst
              (λ (k : List ℕ).
                find k (assign peer.username peer.id s.username_to_id) ≡ some peer.id)
              (sym (string_key.same_sound username peer.username f))
              (find-assign peer.username peer.id s.username_to_id) in
          subst (λ (k : ℕ). contains k (assign peer.id peer s.peers) ≡ true)
            (id_injective (sym found ∙ e)) (saved_is_known peer s)
      | inr f ↦
          in_old username id
            (sym (find-assign_other peer.username username peer.id s.username_to_id f) ∙ e)
    ]

    indexed :
        (username : List ℕ) (id : ℕ)
        → find username (
            if length peer.username == 0
            then s.username_to_id
            else assign peer.username peer.id s.username_to_id)
          ≡ some id
        → contains id (assign peer.id peer s.peers) ≡ true
    indexed username id e = elim (Bool-cases (length peer.username == 0)) [
      | inl f ↦ in_old username id (rw f at e)
      | inr f ↦ in_new username id (rw f at e)
    ]

call-IsValid : (c : Call) (s : MemorySessionStorage) → IsValid s → IsValid (call c s)
unfolding set_value delete_value close
call-IsValid (setting key value) s h = h
call-IsValid (deleting key) s h = h
call-IsValid (saving peer) s h = save_peer-IsValid peer s h
call-IsValid closing s h = (λ id p e. absurd (cc e), λ username id e. absurd (cc e))

calls-IsValid : (cs : List Call) (s : MemorySessionStorage) → IsValid s → IsValid (calls cs s)
calls-IsValid [] s h = h
calls-IsValid (c ∷ cs) s h = calls-IsValid cs (call c s) (call-IsValid c s h)

-- After any calls on an empty storage: a peer that get_peer finds has the id that was asked for, and
-- a username that is in the index leads to a peer.
pub get_peer-calls :
    (cs : List Call)
    → let s = calls cs empty_storage in
      ((id : ℕ) (p : PeerInfo) → get_peer id s ≡ some p → p.id ≡ id)
      × ((username : List ℕ)
          → contains username s.username_to_id ≡ true
          → get_peer_by_username username s ≢ none)
unfolding get_peer get_peer_by_username
get_peer-calls cs = (v.0, leads)
  where
    v : IsValid (calls cs empty_storage)
    v = calls-IsValid cs empty_storage (λ id p e. absurd (cc e), λ username id e. absurd (cc e))

    leads :
        (username : List ℕ)
        → contains username (calls cs empty_storage).username_to_id ≡ true
        → get_peer_by_username username (calls cs empty_storage) ≢ none
    leads username h e =
        elim (Option-cases (find username (calls cs empty_storage).username_to_id)) [
          | inl f ↦ absurd (cc (ap is_some f, h))
          | inr (id, f) ↦
              absurd (cc (ap is_some (rw (f, get_peer_by_username) at e), v.1 username id f))
        ]

-- A peer that is saved again under a new username is still found under the old one: the answer has a
-- username that is not the one that was asked for.
pub get_peer_by_username_stale :
    (old new : PeerInfo) (s : MemorySessionStorage)
    → old.id ≡ new.id
    → (length old.username == 0) ≡ false
    → string_key.same old.username new.username ≡ false
    → get_peer_by_username old.username (save_peer new (save_peer old s)) ≡ some new
unfolding get_peer_by_username save_peer
get_peer_by_username_stale old new s same filled differs =
    rw (index, get_peer_by_username)
      (subst (λ (k : ℕ). find k (assign new.id new (save_peer old s).peers) ≡ some new) (sym same)
        (find-assign new.id new (save_peer old s).peers))
  where
    first : find old.username (save_peer old s).username_to_id ≡ some old.id
    first = rw filled (find-assign old.username old.id s.username_to_id)

    index : find old.username (save_peer new (save_peer old s)).username_to_id ≡ some old.id
    index = elim (Bool-cases (length new.username == 0)) [
      | inl e ↦ rw e first
      | inr e ↦ rw e (
          find-assign_other new.username old.username new.id (save_peer old s).username_to_id
            differs
          ∙ first)
    ]
