-- ===== src/Daemon/Keeping/Loops.antt =====
-- What the background loops of daemon/daemon/sync/coordinator.py and the rebuild tasks of
-- daemon/daemon/sync/torrent_mgr.py keep of a share and of the known peers.
use peerdup.Prelude.{
  ℕ, suc, ◌-◌, Text, Bool, true, false, ◌≡◌, refl, Option, none, some, List, [], ◌∷◌, ltb, arith,
  Bool-cases, Option-cases, inl, inr,
}
use peerdup.Daemon.State.{ShareState, syncing, seeding, paused, error, LocalShare, StateDb}
use peerdup.Daemon.State.Shares.{get_share, set_share_state}
use peerdup.Daemon.State.Records.{upsert_file, delete_file}
use peerdup.Daemon.World.{World, Daemon, on_db, without, watch_files, publish, sync_progress}
use peerdup.Daemon.Torrents.{
  rebuild, deferred_rebuild, run_rebuild, schedule_or_rebuild, debounce, last_time,
}
use peerdup.Daemon.Coordinator.Loops.{
  FileChangedEvent, ChangeType, created, modified, deleted, moved, mid_download, index_file,
  index_change, handle_fs_event, index_all, index_local_files, downloaded, shown, on_status,
}
use peerdup.Daemon.Keeping
use peerdup.Daemon.Keeping.Switching.{StepKeeps, after, by_db}
use peerdup.Daemon.Keeping.Activation.{rebuild-Keeps, watch_files-db}

module _ (w : World) (k : Text) where
  upsert_file-Keeps :
      (share_id rel_path : Text) (size mtime_ns : ℕ) (a : StateDb)
      → Keeping.Keeps k a (upsert_file share_id rel_path size mtime_ns none a)
  unfolding upsert_file
  upsert_file-Keeps share_id rel_path size mtime_ns a =
      Keeping.same-Keeps k a (upsert_file share_id rel_path size mtime_ns none a) (ground arith)
        (ground arith)

  index_file-Keeps :
      (share_id path rel_path : Text) (d : Daemon)
      → StepKeeps w k d (index_file w share_id path rel_path d).1
  index_file-Keeps share_id path rel_path d = elim (Option-cases (w.stat d.reads path rel_path)) [
    | inl n ↦ rw (n, index_file) (Keeping.Keeps-refl k d.db)
    | inr ((size, mtime_ns), found) ↦
        rw (found, index_file) (upsert_file-Keeps share_id rel_path size mtime_ns d.db)
  ]

  index_change-Keeps :
      (s : LocalShare) (evt : FileChangedEvent) (c : ChangeType) (dest : Option Text) (d : Daemon)
      → StepKeeps w k d (index_change w s evt c dest d).1
  unfolding index_change
  index_change-Keeps s evt deleted dest d =
      Keeping.same-Keeps k d.db (delete_file evt.share_id evt.rel_path d.db) refl refl
  index_change-Keeps s evt moved (some (c ∷ dest)) d =
      let e = on_db (delete_file evt.share_id evt.rel_path) d in
      after w k d e (index_file w evt.share_id s.local_path (c ∷ dest) e).1
        (Keeping.same-Keeps k d.db e.db refl refl)
        (index_file-Keeps evt.share_id s.local_path (c ∷ dest) e)
  index_change-Keeps s evt moved (some []) d =
      index_file-Keeps evt.share_id s.local_path evt.rel_path d
  index_change-Keeps s evt moved none d = index_file-Keeps evt.share_id s.local_path evt.rel_path d
  index_change-Keeps s evt created dest d =
      index_file-Keeps evt.share_id s.local_path evt.rel_path d
  index_change-Keeps s evt modified dest d =
      index_file-Keeps evt.share_id s.local_path evt.rel_path d

  schedule_or_rebuild-db :
      (share_id path : Text) (local_only : Bool) (d : Daemon)
      → (schedule_or_rebuild w share_id path local_only d).db ≡ d.db
  unfolding schedule_or_rebuild
  schedule_or_rebuild-db share_id path local_only d =
      elim (Bool-cases (ltb (w.clock d.reads - last_time share_id d) debounce)) [
        | inl soon ↦ ground (arith, soon)
        | inr late ↦ ground (arith, late)
      ]

  pub handle_fs_event-Keeps :
      (evt : FileChangedEvent) (d : Daemon) → StepKeeps w k d (handle_fs_event w evt d)
  unfolding handle_fs_event
  handle_fs_event-Keeps evt d = elim (Option-cases (get_share evt.share_id d.db)) [
    | inl n ↦ rw (n, handle_fs_event) (Keeping.Keeps-refl k d.db)
    | inr (s, found) ↦ elim (Bool-cases (mid_download s)) [
      | inl busy ↦ rw (found, busy, handle_fs_event) (Keeping.Keeps-refl k d.db)
      | inr free ↦
          let r = index_change w s evt evt.change_type evt.dest_path d in
          let indexed = index_change-Keeps s evt evt.change_type evt.dest_path d in
          let e = schedule_or_rebuild w evt.share_id s.local_path s.local_only r.1 in
          elim (Bool-cases r.0) [
            | inl rebuilds ↦
                rw (found, free, rebuilds, handle_fs_event)
                  (after w k d r.1 e indexed (
                    by_db w k r.1 e
                      (schedule_or_rebuild-db evt.share_id s.local_path s.local_only r.1)))
            | inr stays ↦ rw (found, free, stays, handle_fs_event) indexed
          ]
    ]
  ]

  index_all-Keeps :
      (share_id : Text) (fs : List (Text × (ℕ × ℕ))) (d : Daemon)
      → StepKeeps w k d (index_all share_id fs d)
  index_all-Keeps share_id [] d = Keeping.Keeps-refl k d.db
  index_all-Keeps share_id ((rel, (size, mtime_ns)) ∷ fs) d =
      let e = on_db (upsert_file share_id rel size mtime_ns none) d in
      after w k d e (index_all share_id fs e) (upsert_file-Keeps share_id rel size mtime_ns d.db)
        (index_all-Keeps share_id fs e)

  downloaded-Keeps :
      (share_id path ih : Text) (d : Daemon) → StepKeeps w k d (downloaded w share_id path ih d).1
  downloaded-Keeps share_id path ih d =
      let e = on_db (set_share_state share_id seeding none (some ih)) d in
      let f = index_local_files w share_id path e in
      after w k d f (watch_files w share_id path f).1
        (after w k d e f (Keeping.set_share_state-Keeps k share_id seeding none (some ih) d.db)
          (index_all-Keeps share_id (w.scan e.reads path) (record e { reads = suc e.reads })))
        (by_db w k f (watch_files w share_id path f).1 (watch_files-db w k share_id path f))

  -- A status is shown where the watcher does not raise.
  shown-Keeps :
      (share_id : Text) (d : Daemon) (r : Bool × Daemon)
      → StepKeeps w k d r.1
      → StepKeeps w k d (shown share_id r)
  shown-Keeps share_id d (true, e) keeps = keeps
  shown-Keeps share_id d (false, e) keeps = keeps

  by_state :
      (share_id ih : Text) (s : LocalShare) (state : ShareState) (d : Daemon)
      → StepKeeps w k d (elim state [
        | syncing ↦ shown share_id (downloaded w share_id s.local_path ih d)
        | _ ↦ publish (sync_progress share_id) d
      ])
  by_state share_id ih s syncing d =
      shown-Keeps share_id d (downloaded w share_id s.local_path ih d)
        (downloaded-Keeps share_id s.local_path ih d)
  by_state share_id ih s seeding d = Keeping.Keeps-refl k d.db
  by_state share_id ih s paused d = Keeping.Keeps-refl k d.db
  by_state share_id ih s error d = Keeping.Keeps-refl k d.db

  pub on_status-Keeps :
      (share_id : Text) (complete : Bool) (ih : Text) (d : Daemon)
      → StepKeeps w k d (on_status w share_id complete ih d)
  unfolding on_status
  on_status-Keeps share_id false ih d = Keeping.Keeps-refl k d.db
  on_status-Keeps share_id true ih d = elim (Option-cases (get_share share_id d.db)) [
    | inl n ↦ rw (n, on_status) (Keeping.Keeps-refl k d.db)
    | inr (s, found) ↦ rw (found, on_status) (by_state share_id ih s s.state d)
  ]

  rebuild_in :
      (s : LocalShare) (state : ShareState) (share_id : Text) (d : Daemon)
      → StepKeeps w k d (elim state [
        | paused ↦ d
        | syncing ↦ d
        | _ ↦ rebuild w share_id s.local_path s.local_only d
      ])
  rebuild_in s paused share_id d = Keeping.Keeps-refl k d.db
  rebuild_in s syncing share_id d = Keeping.Keeps-refl k d.db
  rebuild_in s seeding share_id d = rebuild-Keeps w k share_id s.local_path s.local_only d
  rebuild_in s error share_id d = rebuild-Keeps w k share_id s.local_path s.local_only d

  pub deferred_rebuild-Keeps :
      (share_id : Text) (d : Daemon) → StepKeeps w k d (deferred_rebuild w share_id d)
  unfolding deferred_rebuild
  deferred_rebuild-Keeps share_id d =
      let e = record d { pending = without share_id d.pending } in
      elim (Option-cases (get_share share_id e.db)) [
        | inl n ↦ rw (n, deferred_rebuild) (Keeping.Keeps-refl k d.db)
        | inr (s, found) ↦ rw (found, deferred_rebuild) (rebuild_in s s.state share_id e)
      ]

  run_first :
      (tasks : List (Text × (Text × Bool))) (d : Daemon)
      → StepKeeps w k d (run_rebuild w (record d { rebuilds = tasks }))
  unfolding run_rebuild
  run_first [] d = Keeping.Keeps-refl k d.db
  run_first ((share_id, (path, local_only)) ∷ rest) d =
      rebuild-Keeps w k share_id path local_only (record d { rebuilds = rest })

  pub run_rebuild-Keeps : (d : Daemon) → StepKeeps w k d (run_rebuild w d)
  run_rebuild-Keeps d = run_first d.rebuilds d
