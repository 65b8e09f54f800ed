-- ===== src/Daemon/Torrents.antt =====
-- daemon/daemon/sync/torrent_mgr.py: replacing and rebuilding torrents, and
-- `_switch_to_remote_torrent` of daemon/daemon/sync/coordinator.py.
use mathlib.Core.Option.{get_or}
use mathlib.Core.Option
use peerdup.Prelude.{
  ℕ, suc, ◌-◌, Text, Bool, true, false, Option, none, some, List, [], ◌∷◌, ◌++◌, if◌then◌else◌, ltb,
  text_eq,
}
use peerdup.Prelude.Table
use peerdup.Registry.Models.{PeerAddress}
use peerdup.Daemon.State.{syncing, seeding, paused, LocalShare, KnownPeer}
use peerdup.Daemon.State.Shares.{get_share, set_share_state, increment_share_seq}
use peerdup.Daemon.State.Records.{get_online_peers}
use peerdup.Daemon.World.{
  World, Daemon, mem, without, insert, on_db, unwatch_files, add_peer, remove_torrent, add_torrent,
}

abbrev pub path_of : Option LocalShare → Text
path_of none = []
path_of (some s) = s.local_path

-- The switch up to the call that blocks: the database is first, so that what is broadcast meanwhile
-- has the new info hash.
abbrev pub begin_switch : Text → Text → Daemon → Daemon
begin_switch share_id ih d = remove_torrent share_id (
    unwatch_files share_id (
      on_db (set_share_state share_id syncing none (some ih))
        (record d { switching = d.switching ++ share_id ∷ [] })))

abbrev pub add_peers : Text → List PeerAddress → Daemon → Daemon
add_peers share_id [] d = d
add_peers share_id (a ∷ rest) d = add_peers share_id rest (add_peer share_id a.host a.port d)

-- The addresses of every peer that is online.
abbrev pub add_known : Text → List KnownPeer → Daemon → Daemon
add_known share_id [] d = d
add_known share_id (p ∷ ps) d = add_known share_id ps (add_peers share_id p.addresses d)

abbrev pub hash_of : Option LocalShare → Text
hash_of none = []
hash_of (some s) = get_or s.info_hash []

-- `AnnounceManager.announce_once`, with the info hash that goes out; the registry may fail.
abbrev pub announce_once : Text → Daemon → Daemon
announce_once share_id d = record d {
  announced = d.announced ++ (share_id, hash_of (get_share share_id d.db)) ∷ [];
}

-- `_on_rebuild_complete`
unfoldable pub rebuild_complete : Text → Bool → Daemon → Daemon
rebuild_complete share_id local_only d =
    let e = add_known share_id (get_online_peers share_id d.db) d in
    if local_only then e else announce_once share_id e

abbrev pub stamp_key : Text × ℕ → Text
stamp_key (share_id, at) = share_id

abbrev pub stamp_time : Text × ℕ → ℕ
stamp_time (share_id, at) = at

-- `_last_rebuild.get(share_id, 0.0)`
abbrev pub last_time : Text → Daemon → ℕ
last_time share_id d =
    get_or (Option.map stamp_time (Table.find stamp_key share_id d.last_rebuild)) 0

abbrev pub stamp_rebuild : Text → ℕ → Daemon → Daemon
stamp_rebuild share_id now d =
    if Table.has stamp_key share_id d.last_rebuild
    then record d {
      last_rebuild = Table.update stamp_key share_id (λ r. (share_id, now)) d.last_rebuild;
    }
    else record d { last_rebuild = d.last_rebuild ++ (share_id, now) ∷ [] }

-- `_REBUILD_DEBOUNCE_SECS`
abbrev pub debounce : ℕ
debounce = 2000

-- `_switch_to_remote_torrent` up to the call that blocks; true when there is a rest.
unfoldable pub start_switch : Text → Text → Daemon → Bool × Daemon
start_switch share_id ih d =
    if mem share_id d.switching then (false, d) else elim (get_share share_id d.db) [
      | none ↦ (false, d)
      | some s ↦ (true, begin_switch share_id ih d)
    ]

module _ (w : World) where
  -- The rest: a torrent that cannot be added leaves the share without a handle.
  unfoldable pub finish_switch : Text → Text → Daemon → Daemon
  finish_switch share_id ih d =
      let path = path_of (get_share share_id d.db) in
      let (added, e) = add_torrent w share_id path false (some ih) d in
      record e { switching = without share_id e.switching }

  -- The whole, when nothing comes between.
  unfoldable pub switch_to_remote : Text → Text → Daemon → Daemon
  unfolding start_switch
  switch_to_remote share_id ih d =
      let (more, e) = start_switch share_id ih d in if more then finish_switch share_id ih e else e

  -- `TorrentManager.rebuild`
  unfoldable pub rebuild : Text → Text → Bool → Daemon → Daemon
  rebuild share_id local_path local_only d =
      let (added, e) = add_torrent w share_id local_path true none (remove_torrent share_id d) in
      elim added [
        | none ↦ e
        | some ih ↦ rebuild_complete share_id local_only (
            stamp_rebuild share_id (w.clock e.reads) (
              on_db (set_share_state share_id seeding none (some ih))
                (on_db (increment_share_seq share_id) (record e { reads = suc e.reads }))))
      ]

  -- `TorrentManager.schedule_or_rebuild`: a task is made, now or for the end of the debounce time.
  unfoldable pub schedule_or_rebuild : Text → Text → Bool → Daemon → Daemon
  schedule_or_rebuild share_id local_path local_only d =
      let now = w.clock d.reads in
      let e = record d { reads = suc d.reads } in
      if ltb (now - last_time share_id d) debounce
      then record e { pending = insert share_id e.pending }
      else stamp_rebuild share_id now
          (record e { rebuilds = e.rebuilds ++ (share_id, (local_path, local_only)) ∷ [] })

  -- `_deferred_rebuild`, at the end of the debounce time
  unfoldable pub deferred_rebuild : Text → Daemon → Daemon
  unfolding rebuild
  deferred_rebuild share_id d =
      let e = record d { pending = without share_id d.pending } in
      elim (get_share share_id e.db) [
        | none ↦ e
        | some s ↦ elim s.state [
          | paused ↦ e
          | syncing ↦ e
          | _ ↦ rebuild share_id s.local_path s.local_only e
        ]
      ]

  -- The first of the tasks that are to run at once.
  unfoldable pub run_rebuild : Daemon → Daemon
  run_rebuild d = elim d.rebuilds [
    | [] ↦ d
    | (share_id, (local_path, local_only)) ∷ rest ↦
        rebuild share_id local_path local_only (record d { rebuilds = rest })
  ]
