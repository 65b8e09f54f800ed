-- ===== src/Daemon/Coordinator/Loops.antt =====
-- The steps of the background loops of daemon/daemon/sync/coordinator.py: start-up, file events, progress
-- and what is announced on the local network.
use mathlib.Core.Option.{get_or}
use peerdup.Prelude.{
  ℕ, suc, ◌*◌, min, Text, truthy, Bool, true, false, Option, none, some, List, [], ◌∷◌,
  if◌then◌else◌, text_eq,
}
use peerdup.Daemon.State.{syncing, seeding, paused, LocalShare}
use peerdup.Daemon.State.Shares.{get_share, set_share_state}
use peerdup.Daemon.State.Records.{upsert_file, delete_file}
use peerdup.Daemon.World.{World, Daemon, sync_progress, on_db, watch_files, publish}
use peerdup.Daemon.Torrents.{schedule_or_rebuild}
use peerdup.Daemon.Lan.Packet.{Offer}
use peerdup.Daemon.Coordinator.{activation}

pub data ChangeType : Type 0 where
  created modified deleted moved : ChangeType

pub record FileChangedEvent : Type 0 where
  pub share_id : Text
  pub rel_path : Text
  pub change_type : ChangeType
  pub dest_path : Option Text

-- `_get_active_share_ids`
unfoldable pub active_shares : List LocalShare → List Offer
active_shares [] = []
active_shares (s ∷ ss) =
    let rest = active_shares ss in
    let offer : Offer = record {
      share_id = s.share_id;
      info_hash = get_or s.info_hash [];
      seq = s.seq;
    } in
    elim s.state [ paused ↦ rest | _ ↦ offer ∷ rest ]

-- The wait before the next attempt to register: `min(backoff * 2, 60.0)`.
abbrev pub next_backoff : ℕ → ℕ
next_backoff backoff = min (backoff * 2) 60

-- Whether a file event is passed over: the share is unknown, paused or in the middle of a download.
abbrev pub mid_download : LocalShare → Bool
mid_download s = elim s.state [
  | syncing ↦ truthy (get_or s.info_hash [])
  | paused ↦ true
  | _ ↦ false
]

abbrev pub index_all : Text → List (Text × (ℕ × ℕ)) → Daemon → Daemon
index_all share_id [] d = d
index_all share_id ((rel, (size, mtime_ns)) ∷ fs) d =
    index_all share_id fs (on_db (upsert_file share_id rel size mtime_ns none) d)

-- The progress is published where nothing has raised.
abbrev pub shown : Text → Bool × Daemon → Daemon
shown share_id (true, d) = d
shown share_id (false, d) = publish (sync_progress share_id) d

module _ (w : World) where
  -- The activation of every share that is not paused; one that raises ends the loop.
  abbrev pub resume_shares : List LocalShare → Daemon → Daemon
  resume_shares [] d = d
  resume_shares (s ∷ ss) d = elim s.state [
    | paused ↦ resume_shares ss d
    | _ ↦
        let (raised, e) = activation w s.share_id s.local_path d in
        let rest = resume_shares ss e in if raised then e else rest
  ]

  -- A file that is there goes into the index.
  abbrev pub index_file : Text → Text → Text → Daemon → Bool × Daemon
  index_file share_id local_path rel_path d =
      let e = record d { reads = suc d.reads } in
      elim (w.stat d.reads local_path rel_path) [
        | none ↦ (false, e)
        | some (size, mtime_ns) ↦ (true, on_db (upsert_file share_id rel_path size mtime_ns none) e)
      ]

  -- The index after an event, and whether a rebuild follows.
  unfoldable pub index_change :
      LocalShare → FileChangedEvent → ChangeType → Option Text → Daemon → Bool × Daemon
  index_change s evt deleted dest d = (true, on_db (delete_file evt.share_id evt.rel_path) d)
  index_change s evt moved (some (c ∷ dest)) d =
      let (there, e) =
        index_file evt.share_id s.local_path (c ∷ dest)
          (on_db (delete_file evt.share_id evt.rel_path) d) in
      (true, e)
  index_change s evt moved (some []) d = index_file evt.share_id s.local_path evt.rel_path d
  index_change s evt moved none d = index_file evt.share_id s.local_path evt.rel_path d
  index_change s evt created dest d = index_file evt.share_id s.local_path evt.rel_path d
  index_change s evt modified dest d = index_file evt.share_id s.local_path evt.rel_path d

  -- `_handle_fs_event`
  unfoldable pub handle_fs_event : FileChangedEvent → Daemon → Daemon
  unfolding index_change
  handle_fs_event evt d = elim (get_share evt.share_id d.db) [
    | none ↦ d
    | some s ↦
        if mid_download s
        then d
        else let (rebuilds, e) = index_change s evt evt.change_type evt.dest_path d in
          if rebuilds then schedule_or_rebuild w evt.share_id s.local_path s.local_only e else e
  ]

  -- `_index_local_files`
  abbrev pub index_local_files : Text → Text → Daemon → Daemon
  index_local_files share_id local_path d =
      index_all share_id (w.scan d.reads local_path) (record d { reads = suc d.reads })

  -- The download of a share that was syncing is complete; whether the watcher raises.
  abbrev pub downloaded : Text → Text → Text → Daemon → Bool × Daemon
  downloaded share_id local_path info_hash d = watch_files w share_id local_path (
      index_local_files share_id local_path
        (on_db (set_share_state share_id seeding none (some info_hash)) d))

  -- A status of libtorrent: whether it is "finished" or "seeding", and its info hash.
  unfoldable pub on_status : Text → Bool → Text → Daemon → Daemon
  on_status share_id complete info_hash d =
      if complete
      then elim (get_share share_id d.db) [
        | none ↦ publish (sync_progress share_id) d
        | some s ↦ elim s.state [
          | syncing ↦ shown share_id (downloaded share_id s.local_path info_hash d)
          | _ ↦ publish (sync_progress share_id) d
        ]
      ]
      else publish (sync_progress share_id) d
