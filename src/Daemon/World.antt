-- ===== src/Daemon/World.antt =====
-- The daemon's state between two steps of its event loop, and what it takes from elsewhere:
-- daemon/daemon/sync/coordinator.py, with the handles of daemon/daemon/torrent/session.py and the watches of
-- daemon/daemon/watcher/fs.py. A coroutine runs as one step, but the switch to a remote torrent as two.

use peerdup.Prelude.{
  ℕ, suc, ◌+◌, Text, truthy, Bytes, Bool, true, false, Option, none, some, List, [], ◌∷◌, ◌++◌,
  if◌then◌else◌, ◌==◌, text_eq, not, select,
}
use peerdup.Prelude.Table
use peerdup.Registry.Messages.{SharePeer, SharePolicy}
use peerdup.Daemon.State.{StateDb}

-- What a torrent is made from: the cached file of the share, an info hash, or a directory.
pub data Source : Type 0 where
  cached : Text → Source
  magnet : Text → Source
  directory : Text → Source

-- The outer world, by the number of the reading: the clock, the file system, libtorrent and the
-- registry. A torrent that cannot be made or added has no info hash, and a registry that fails gives
-- no peers and no share. `public_key` is the base58 text of the key that a seed makes, `time_stamp` the
-- time in a conflict copy's name, `stat` the size and time of a file that is there, and `scan` every file
-- below a directory. A directory that cannot be made or watched, or not be walked through, raises: that is
-- `watch_fails` and `walk_fails`. The clock counts milliseconds.
pub record World : Type 0 where
  pub own_id : Text
  pub relay_enabled : Bool
  pub clock : ℕ → ℕ
  pub watch_fails : ℕ → Text → Bool
  pub walk_fails : ℕ → Text → Bool
  pub has_files : ℕ → Text → Bool
  pub torrent_cached : ℕ → Text → Bool
  pub torrent_hash : ℕ → Source → Option Text
  pub torrent_error : ℕ → Text
  pub share_peers : ℕ → Text → List SharePeer
  pub share_meta : ℕ → Text → Option (Text × Option SharePolicy)
  pub registry_accepts : ℕ → Bool
  pub fresh_seed : ℕ → Bytes
  pub public_key : Bytes → Text
  pub time_stamp : ℕ → Text
  pub stat : ℕ → Text → Text → Option (ℕ × ℕ)
  pub scan : ℕ → Text → List (Text × (ℕ × ℕ))

-- What the registry is asked to write; `sign_create_share` of Daemon/Identity has the signature.
pub data Request : Type 0 where
  create_share : Text → Text → Request
  add_peer_to_share : Text → Text → Text → Request
  remove_peer_from_share : Text → Text → Request

-- A torrent handle of the session.
pub record Handle : Type 0 where
  pub share_id : Text
  pub info_hash : Text

abbrev pub handle_key : Handle → Text
handle_key h = h.share_id

-- The calls of a handle: `connect_peer`, and the two limits.
pub data Call : Type 0 where
  connect_peer : Text → Text → ℕ → Call
  set_limits : Text → ℕ → ℕ → Call

pub data ControlEvent : Type 0 where
  conflict : Text → ℕ → ControlEvent
  policy_updated : Text → ℕ → ℕ → ControlEvent
  peer_event : Text → Text → Bool → ControlEvent
  sync_progress : Text → ControlEvent

-- The stream that watches a share at the registry: it ends once it is stopped.
pub record Watch : Type 0 where
  pub share_id : Text
  pub stopped : Bool

abbrev pub watch_key : Watch → Text
watch_key w = w.share_id

-- `announced` holds the share and the info hash of each announcement to the registry, `renamed` the
-- files of a share that were renamed and their new names, `relays` the attempts to reach a peer by the
-- relay, `requests` what the registry was asked to write, `pending` the shares with a rebuild that waits
-- for the debounce time, and `rebuilds` the tasks that are to run at once.
pub record Daemon : Type 0 where
  pub db : StateDb
  pub reads : ℕ
  pub handles : List Handle
  pub calls : List Call
  pub watched : List Text
  pub watches : List Watch
  pub announcing : List Text
  pub announced : List (Text × Text)
  pub renamed : List (Text × (Text × Text))
  pub requests : List Request
  pub last_rebuild : List (Text × ℕ)
  pub pending : List Text
  pub rebuilds : List (Text × (Text × Bool))
  pub relays : List (Text × Text)
  pub switching : List Text
  pub events : List ControlEvent

unfoldable pub mem : Text → List Text → Bool
mem t [] = false
mem t (u ∷ us) = let rest = mem t us in if u == t then true else rest

abbrev pub without : Text → List Text → List Text
without t us = select (λ u. not (u == t)) us

unfoldable pub insert : Text → List Text → List Text
insert t us = if mem t us then us else us ++ t ∷ []

abbrev pub on_db : (StateDb → StateDb) → Daemon → Daemon
on_db f d = record d { db = f d.db }

-- `FileWatcher.add_share`, and whether it raises; a share that is watched already is passed over.
abbrev pub watch_files : World → Text → Text → Daemon → Bool × Daemon
watch_files w share_id local_path d =
    if mem share_id d.watched
    then (false, d)
    else if w.watch_fails d.reads local_path
    then (true, d)
    else (false, record d { watched = insert share_id d.watched })

-- `FileWatcher.remove_share`

abbrev pub unwatch_files : Text → Daemon → Daemon
unwatch_files share_id d = record d { watched = without share_id d.watched }

-- `_publish_control_event`
abbrev pub publish : ControlEvent → Daemon → Daemon
publish event d = record d { events = d.events ++ event ∷ [] }

-- A call of the share's handle, if there is one.
unfoldable pub call_handle : Text → Call → Daemon → Daemon
call_handle share_id call d =
    if Table.has handle_key share_id d.handles then record d { calls = d.calls ++ call ∷ [] } else d

-- `LibtorrentSession.add_peer`
abbrev pub add_peer : Text → Text → ℕ → Daemon → Daemon
add_peer share_id host port = call_handle share_id (connect_peer share_id host port)

-- `LibtorrentSession.set_rate_limit` and `set_share_rate_limit`
abbrev pub set_rate_limit : Text → ℕ → ℕ → Daemon → Daemon
set_rate_limit share_id up down = call_handle share_id (set_limits share_id up down)

-- `LibtorrentSession.remove_share`
abbrev pub remove_torrent : Text → Daemon → Daemon
remove_torrent share_id d = record d { handles = Table.delete handle_key share_id d.handles }

abbrev pub source_of : Bool → Text → Text → Bool → Option Text → Source
source_of true share_id local_path seed_mode info_hash = cached share_id
source_of false share_id local_path false (some ih) =
    if truthy ih then magnet ih else directory local_path
source_of false share_id local_path false none = directory local_path
source_of false share_id local_path true info_hash = directory local_path

abbrev pub with_handle : Text → Text → Daemon → Daemon
with_handle share_id ih d = record d {
  handles = d.handles ++ record { share_id = share_id; info_hash = ih } ∷ [];
}

-- The torrent is made first; a share that has a handle keeps it.
unfoldable pub attach : Text → Option Text → Daemon → Option Text × Daemon
attach share_id none d = (none, d)
attach share_id (some ih) d = elim (Table.find handle_key share_id d.handles) [
  | some h ↦ (some h.info_hash, d)
  | none ↦ (some ih, with_handle share_id ih d)
]

-- `LibtorrentSession.add_share`, which answers with the info hash or raises.
unfoldable pub add_torrent :
    World → Text → Text → Bool → Option Text → Daemon → Option Text × Daemon
add_torrent w share_id local_path seed_mode info_hash d =
    let found = w.torrent_cached d.reads share_id in
    let source = source_of found share_id local_path seed_mode info_hash in
    attach share_id (w.torrent_hash (suc d.reads) source) (record d { reads = 2 + d.reads })
