-- ===== src/Daemon/State/Records.antt =====
-- `StateDB` of daemon/daemon/state/db.py: the files, the known peers and the conflicts.
use peerdup.Prelude.{
  ℕ, suc, max, Text, truthy, Bool, ◌&&◌, Option, none, some, List, [], ◌∷◌, ◌++◌, if◌then◌else◌,
  eqb, ◌==◌, text_eq, pair_eq, select,
}
use peerdup.Prelude.Table
use peerdup.Registry.Models.{PeerAddress}
use peerdup.Daemon.State.{LocalFile, LocalConflict, KnownPeer, StateDb, file_key, known_peer_key}

-- `if sha256: f.sha256 = sha256`
abbrev pub or_old_hash : Option Text → Option Text → Option Text
or_old_hash none old = old
or_old_hash (some t) old = if truthy t then some t else old

abbrev pub restat : ℕ → ℕ → Option Text → LocalFile → LocalFile
restat size mtime_ns sha256 f = record f {
  size = size;
  mtime_ns = mtime_ns;
  sha256 = or_old_hash sha256 f.sha256;
}

unfoldable pub upsert_file : Text → Text → ℕ → ℕ → Option Text → StateDb → StateDb
upsert_file share_id rel_path size mtime_ns sha256 db =
    let row : LocalFile = record {
      share_id = share_id;
      rel_path = rel_path;
      size = size;
      mtime_ns = mtime_ns;
      sha256 = sha256;
    } in
    if Table.has file_key (share_id, rel_path) db.files
    then record db {
      files = Table.update file_key (share_id, rel_path) (restat size mtime_ns sha256) db.files;
    }
    else record db { files = db.files ++ row ∷ [] }

abbrev pub delete_file : Text → Text → StateDb → StateDb
delete_file share_id rel_path db = record db {
  files = Table.delete file_key (share_id, rel_path) db.files;
}

abbrev pub get_files : Text → StateDb → List LocalFile
get_files share_id db = select (λ f. f.share_id == share_id) db.files

-- A peer that goes offline keeps the time when it was last seen, and an empty name is not news.
abbrev pub seen : List PeerAddress → Bool → Text → ℕ → KnownPeer → KnownPeer
seen addresses online name now r = record r {
  addresses = addresses;
  online = online;
  last_seen = if online then some now else r.last_seen;
  name = if truthy name then name else r.name;
}

abbrev pub new_known_peer : Text → Text → List PeerAddress → Bool → Text → ℕ → KnownPeer
new_known_peer share_id peer_id addresses online name now = record {
  share_id = share_id;
  peer_id = peer_id;
  name = name;
  addresses = addresses;
  online = online;
  last_seen = if online then some now else none;
}

unfoldable pub upsert_peer : Text → Text → List PeerAddress → Bool → Text → ℕ → StateDb → StateDb
upsert_peer share_id peer_id addresses online name now db =
    if Table.has known_peer_key (share_id, peer_id) db.known_peers
    then record db {
      known_peers =
          Table.update known_peer_key (share_id, peer_id) (seen addresses online name now)
            db.known_peers;
    }
    else record db {
      known_peers =
          db.known_peers ++ new_known_peer share_id peer_id addresses online name now ∷ [];
    }

abbrev pub get_online_peers : Text → StateDb → List KnownPeer
get_online_peers share_id db = select (λ p. p.share_id == share_id && p.online) db.known_peers

abbrev pub list_all_known_peers : Text → StateDb → List KnownPeer
list_all_known_peers share_id db = select (λ p. p.share_id == share_id) db.known_peers

-- SQLite gives a new row one more than the largest id that is there.
unfoldable pub last_id : List LocalConflict → ℕ
last_id [] = 0
last_id (c ∷ cs) = max c.id (last_id cs)

abbrev pub new_conflict : Text → Text → Text → Option Text → StateDb → LocalConflict
new_conflict share_id remote_peer_id remote_info_hash local_info_hash db = record {
  id = suc (last_id db.conflicts);
  share_id = share_id;
  remote_peer_id = remote_peer_id;
  remote_info_hash = remote_info_hash;
  local_info_hash = local_info_hash;
}

-- The new row has the id that the source returns.
abbrev pub add_conflict : Text → Text → Text → Option Text → StateDb → StateDb
add_conflict share_id remote_peer_id remote_info_hash local_info_hash db = record db {
  conflicts =
      db.conflicts ++ new_conflict share_id remote_peer_id remote_info_hash local_info_hash db ∷ [];
}

abbrev pub list_conflicts : Text → StateDb → List LocalConflict
list_conflicts share_id db = select (λ c. c.share_id == share_id) db.conflicts

unfoldable pub drop_conflict : ℕ → List LocalConflict → List LocalConflict
drop_conflict id [] = []
drop_conflict id (c ∷ cs) = let rest = drop_conflict id cs in if eqb c.id id then cs else c ∷ rest

abbrev pub delete_conflict : ℕ → StateDb → StateDb
delete_conflict conflict_id db = record db { conflicts = drop_conflict conflict_id db.conflicts }
