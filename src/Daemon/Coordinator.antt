-- ===== src/Daemon/Coordinator.antt =====
-- daemon/daemon/sync/coordinator.py: a share from its activation to its removal. Coordinator/Control has
-- the other commands and Coordinator/Loops the steps of the background loops.
pub mod Control
pub mod Loops
use mathlib.Core.Option
use peerdup.Prelude.{
  suc, ◌+◌, Text, truthy, Bool, true, false, not, ◌&&◌, Option, none, some, List, [], ◌∷◌, ◌++◌,
  if◌then◌else◌, eqb, ◌==◌, text_eq,
}
use peerdup.Prelude.Table
use peerdup.Prelude.Table.{is_some}
use peerdup.Registry.Messages.{SharePeer}
use peerdup.Daemon.State.{ShareState, syncing, seeding, paused, error, LocalShare, share_key}
use peerdup.Daemon.State.Shares
use peerdup.Daemon.State.Records.{get_online_peers}
use peerdup.Daemon.World.{
  World, Daemon, watch_key, mem, without, insert, on_db, watch_files, unwatch_files, set_rate_limit,
  remove_torrent, add_torrent,
}
use peerdup.Daemon.Torrents.{add_known, announce_once, stamp_key}

-- How a command ends: with a value or with the exception that it raises.
pub data Failure : Type 0 where
  key_error permission_error value_error runtime_error os_error : Failure

pub data Reply (A : Type 0) : Type 0 where
  returns : A → Reply A
  raises : Failure → Reply A

-- A command whose last act may raise.
abbrev pub ended : {A : Type 0} → A → Bool × Daemon → Reply A × Daemon
ended a (true, d) = (raises os_error, d)
ended a (false, d) = (returns a, d)

-- The first peer but ourselves that tells an info hash.
unfoldable pub bootstrap_hash : Text → List SharePeer → Option Text
bootstrap_hash own_id [] = none
bootstrap_hash own_id (p ∷ ps) =
    let rest = bootstrap_hash own_id ps in
    if truthy p.info_hash && not (p.peer_id == own_id) then some p.info_hash else rest

abbrev pub is_local_only : Option LocalShare → Bool
is_local_only none = false
is_local_only (some s) = s.local_only

abbrev pub unnumbered : Option LocalShare → Bool
unnumbered none = true
unnumbered (some s) = eqb s.seq 0

-- `_watch_stop[share_id]` and `_watch_tasks[share_id]`: a share has one stream.
unfoldable pub start_watch : Text → Daemon → Daemon
start_watch share_id d =
    if Table.has watch_key share_id d.watches
    then d
    else record d { watches = d.watches ++ record { share_id = share_id; stopped = false } ∷ [] }

-- `AnnounceManager.start_share`
unfoldable pub start_announcing : Text → Daemon → Daemon
start_announcing share_id d =
    if mem share_id d.announcing
    then d
    else let e = announce_once share_id d in record e { announcing = insert share_id e.announcing }

abbrev pub stored_limits : Text → Option LocalShare → Daemon → Daemon
stored_limits share_id none d = d
stored_limits share_id (some s) d =
    if eqb s.upload_limit 0 && eqb s.download_limit 0
    then d
    else set_rate_limit share_id s.upload_limit s.download_limit d

-- What follows once the torrent is there or waits for a peer.
unfoldable pub go_live : Text → Option LocalShare → Daemon → Daemon
unfolding start_watch start_announcing
go_live share_id row d =
    let e = stored_limits share_id row d in
    let f = add_known share_id (get_online_peers share_id e.db) e in
    if is_local_only row then f else start_watch share_id (start_announcing share_id f)

abbrev pub state_of : Bool → ShareState
state_of has_files = if has_files then seeding else syncing

-- A share that has files and no number yet gets the first.
abbrev pub number : Text → Bool → Option LocalShare → Daemon → Daemon
number share_id has_files row d =
    if has_files && unnumbered row then on_db (Shares.increment_share_seq share_id) d else d

module _ (w : World) where
  abbrev pub bootstrap : Text → Bool → Daemon → Option Text × Daemon
  bootstrap share_id asked d =
      if asked
      then (
        bootstrap_hash w.own_id (w.share_peers d.reads share_id),
        record d { reads = suc d.reads },
      )
      else (none, d)

  -- The torrent is added from the files, the cached file or the hash of a peer.
  unfoldable pub with_torrent :
      Text → Text → Bool → Option Text → Option LocalShare → Daemon → Daemon
  unfolding go_live
  with_torrent share_id local_path has_files peer_hash row d =
      let (added, e) = add_torrent w share_id local_path has_files peer_hash d in
      elim added [
        | none ↦
            on_db (Shares.set_share_state share_id error (some (w.torrent_error e.reads)) none) e
        | some ih ↦ go_live share_id row (
            number share_id has_files row
              (on_db (Shares.set_share_state share_id (state_of has_files) none (some ih)) e))
      ]

  -- The part of `_activate_share` that cannot raise, once the directory is watched and walked through.
  unfoldable pub activate_watched : Text → Text → Daemon → Daemon
  unfolding with_torrent
  activate_watched share_id local_path d =
      let has_files = w.has_files d.reads local_path in
      let cached = w.torrent_cached (suc d.reads) share_id in
      let row = Shares.get_share share_id d.db in
      let bare = not has_files && not cached in
      let (peer_hash, e) =
        bootstrap share_id (bare && not (is_local_only row)) (record d { reads = 2 + d.reads }) in
      if bare && not (is_some peer_hash)
      then go_live share_id row (on_db (Shares.set_share_state share_id syncing none none) e)
      else with_torrent share_id local_path has_files peer_hash row e

  -- `_activate_share`, and whether it raises: the watcher and the walk stand outside every `try`.
  unfoldable pub activation : Text → Text → Daemon → Bool × Daemon
  unfolding activate_watched
  activation share_id local_path d =
      let (raised, e) = watch_files w share_id local_path d in
      if raised
      then (true, e)
      else if w.walk_fails e.reads local_path
      then (true, record e { reads = suc e.reads })
      else (false, activate_watched share_id local_path e)

  abbrev pub activate_share : Text → Text → Daemon → Daemon
  activate_share share_id local_path d = (activation share_id local_path d).1

  -- `resume_share`
  unfoldable pub resume_share : Text → Daemon → Reply (Unit {0}) × Daemon
  unfolding activation
  resume_share share_id d = elim (Shares.get_share share_id d.db) [
    | none ↦ (raises key_error, d)
    | some s ↦ ended tt (
        activation share_id s.local_path
          (on_db (Shares.set_share_state share_id syncing none none) d))
  ]

-- The stream of the share is told to stop; it keeps its place.
abbrev pub stop_watch : Text → Daemon → Daemon
stop_watch share_id d = record d {
  watches = Table.update watch_key share_id (λ v. record v { stopped = true }) d.watches;
}

-- `pause_share`
abbrev pub pause_share : Text → Daemon → Daemon
pause_share share_id d =
    stop_watch share_id
      (unwatch_files share_id (on_db (Shares.set_share_state share_id paused none none) d))

abbrev pub cleared : Text → Daemon → Daemon
cleared share_id d = record d {
  watches = Table.delete watch_key share_id d.watches;
  announcing = without share_id d.announcing;
  last_rebuild = Table.delete stamp_key share_id d.last_rebuild;
  pending = without share_id d.pending;
}

-- `remove_share`; whether the files are deleted is left to libtorrent.
unfoldable pub remove_share : Text → Daemon → Reply (Unit {0}) × Daemon
remove_share share_id d =
    if Table.has share_key share_id d.db.shares
    then (
      returns tt,
      on_db (Shares.remove_share share_id)
          (remove_torrent share_id (unwatch_files share_id (cleared share_id d))),
    )
    else (raises key_error, d)
