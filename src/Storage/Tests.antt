-- ===== src/Storage/Tests.antt =====
-- Concrete peers.
use cpp_gram.Common.{ℕ, ◌≡◌, ◌≢◌, refl, true, List, [], ◌∷◌, none, some}
use cpp_gram.Common.Maps.{contains, string_key}
use cpp_gram.Storage.{PeerInfo, empty_storage, save_peer, get_peer, get_peer_by_username}
use cpp_gram.Storage.Peers.{
  Call, saving, setting, calls, get_peer-calls, get_peer_by_username_stale,
}

abbrev peer : List ℕ → PeerInfo
peer username = record {
  id = 7;
  type = 1;
  access_hash = [];
  username = username;
  phone = [];
  title = [];
}

abbrev some_calls : List Call
some_calls = saving (peer (97 ∷ [])) ∷ setting (107 ∷ []) (118 ∷ []) ∷ saving (peer (98 ∷ [])) ∷ []

get_peer-calls_example :
    ((id : ℕ) (p : PeerInfo) → get_peer id (calls some_calls empty_storage) ≡ some p → p.id ≡ id)
    × ((username : List ℕ)
        → contains username (calls some_calls empty_storage).username_to_id ≡ true
        → get_peer_by_username username (calls some_calls empty_storage) ≢ none)
get_peer-calls_example = get_peer-calls some_calls

get_peer_by_username_stale_example :
    get_peer_by_username
      (97 ∷ [])
      (save_peer (peer (98 ∷ [])) (save_peer (peer (97 ∷ [])) empty_storage))
    ≡ some (peer (98 ∷ []))
get_peer_by_username_stale_example =
    get_peer_by_username_stale (peer (97 ∷ [])) (peer (98 ∷ [])) empty_storage refl refl refl
