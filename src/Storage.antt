-- ===== src/Storage.antt =====
-- The in-memory session storage of include/cppgram/storage.hpp. Each method holds the mutex from its
-- first line to its last. A string is the list of its bytes, an int64_t its 64-bit pattern.
pub mod Peers
mod Tests
use cpp_gram.Common.{ℕ, true, false, List, [], ◌∷◌, Option, none, some, length, if◌then◌else◌, ◌==◌}
use cpp_gram.Common.Maps.{number_key, string_key, find, assign, erase}

pub record PeerInfo : Type 0 where
  pub id : ℕ
  pub type : ℕ
  pub access_hash : List ℕ
  pub username : List ℕ
  pub phone : List ℕ
  pub title : List ℕ

pub record MemorySessionStorage : Type 0 where
  pub kv : List (List ℕ × List ℕ)
  pub peers : List (ℕ × PeerInfo)
  pub username_to_id : List (List ℕ × ℕ)

abbrev pub empty_storage : MemorySessionStorage
empty_storage = record { kv = []; peers = []; username_to_id = [] }

unfoldable pub set_value : List ℕ → List ℕ → MemorySessionStorage → MemorySessionStorage
set_value key value s = record s { kv = assign key value s.kv }

unfoldable pub get_value : List ℕ → MemorySessionStorage → Option (List ℕ)
get_value key s = find key s.kv

unfoldable pub delete_value : List ℕ → MemorySessionStorage → MemorySessionStorage
delete_value key s = record s { kv = erase key s.kv }

unfoldable pub save_peer : PeerInfo → MemorySessionStorage → MemorySessionStorage
save_peer peer s = record s {
  peers = assign peer.id peer s.peers;
  username_to_id =
      if length peer.username == 0
      then s.username_to_id
      else assign peer.username peer.id s.username_to_id;
}

unfoldable pub get_peer : ℕ → MemorySessionStorage → Option PeerInfo
get_peer id s = find id s.peers

unfoldable pub get_peer_by_username : List ℕ → MemorySessionStorage → Option PeerInfo
get_peer_by_username username s = elim (find username s.username_to_id) [
  | none ↦ none
  | some id ↦ find id s.peers
]

unfoldable pub close : MemorySessionStorage → MemorySessionStorage
close s = empty_storage
