-- ===== src/Daemon/Keeping/Activation.antt =====
-- What activation and the rebuilds keep of a share and of the known peers:
-- daemon/daemon/sync/coordinator.py, daemon/daemon/sync/torrent_mgr.py.
use peerdup.Prelude.{
  ℕ, suc, ◌+◌, Text, Bool, true, false, not, ◌&&◌, ◌≡◌, refl, Option, none, some, text_eq, arith,
  Bool-cases, Option-cases, inl, inr,
}
use peerdup.Prelude.Table.{is_some}
use peerdup.Daemon.State.{syncing, seeding, paused, error, LocalShare}
use peerdup.Daemon.State.Shares
use peerdup.Daemon.State.Shares.{get_share}
use peerdup.Daemon.State.Records.{get_online_peers}
use peerdup.Daemon.World.{
  World, Daemon, on_db, call_handle, add_torrent, remove_torrent, watch_files,
}
use peerdup.Daemon.Torrents.{rebuild, rebuild_complete, stamp_rebuild}
use peerdup.Daemon.Coordinator.{
  unnumbered, go_live, start_watch, start_announcing, stored_limits, with_torrent, number, state_of,
  bootstrap, is_local_only, activate_watched, activation, ended, activate_share, resume_share,
  pause_share,
}
use peerdup.Daemon.Switch.{add_torrent-db}
use peerdup.Daemon.Keeping
use peerdup.Daemon.Keeping.Switching.{StepKeeps, after, by_db, add_known-db}

go_live-db :
    (share_id : Text) (row : Option LocalShare) (d : Daemon) → (go_live share_id row d).db ≡ d.db
unfolding go_live start_watch start_announcing call_handle
go_live-db share_id none d =
    ground (arith, add_known-db share_id (get_online_peers share_id d.db) d)
go_live-db share_id (some s) d =
    let e = stored_limits share_id (some s) d in
    ground (arith, add_known-db share_id (get_online_peers share_id e.db) e)

rebuild_complete-db :
    (share_id : Text) (local_only : Bool) (d : Daemon)
    → (rebuild_complete share_id local_only d).db ≡ d.db
unfolding rebuild_complete
rebuild_complete-db share_id local_only d =
    ground (arith, add_known-db share_id (get_online_peers share_id d.db) d)

module _ (w : World) (k : Text) where
  number-Keeps :
      (share_id : Text) (files : Bool) (row : Option LocalShare) (d : Daemon)
      → StepKeeps w k d (number share_id files row d)
  number-Keeps share_id files row d = elim (Bool-cases (files && unnumbered row)) [
    | inl first ↦ rw first (
        Keeping.put_share-Keeps k share_id (λ r. record r { seq = suc r.seq }) d.db
          (λ s. (refl, refl, λ o. o)))
    | inr counted ↦ rw counted (Keeping.Keeps-refl k d.db)
  ]

  with_torrent-Keeps :
      (share_id path : Text) (files : Bool) (hash : Option Text) (row : Option LocalShare)
      (d : Daemon)
      → StepKeeps w k d (with_torrent w share_id path files hash row d)
  unfolding with_torrent
  with_torrent-Keeps share_id path files hash row d =
      let r = add_torrent w share_id path files hash d in
      let e = r.1 in
      let same = by_db w k d e (add_torrent-db w share_id path files hash d) in
      elim (Option-cases r.0) [
        | inl failed ↦
            let f =
              on_db (Shares.set_share_state share_id error (some (w.torrent_error e.reads)) none)
                e in
            rw (failed, with_torrent)
              (after w k d e f same (
                Keeping.set_share_state-Keeps k share_id error (some (w.torrent_error e.reads)) none
                  e.db))
        | inr (ih, added) ↦
            let f = on_db (Shares.set_share_state share_id (state_of files) none (some ih)) e in
            let g = number share_id files row f in
            rw (added, with_torrent)
              (after w k d g (go_live share_id row g)
                (after w k d f g
                  (after w k d e f same
                    (Keeping.set_share_state-Keeps k share_id (state_of files) none (some ih) e.db))
                  (number-Keeps share_id files row f))
                (by_db w k g (go_live share_id row g) (go_live-db share_id row g)))
      ]

  bootstrap-db :
      (share_id : Text) (asked : Bool) (d : Daemon) → (bootstrap w share_id asked d).1.db ≡ d.db
  bootstrap-db share_id true d = refl
  bootstrap-db share_id false d = refl

  activate_watched-Keeps :
      (share_id path : Text) (d : Daemon) → StepKeeps w k d (activate_watched w share_id path d)
  unfolding activate_watched
  activate_watched-Keeps share_id path d =
      let row = get_share share_id d.db in
      let files = w.has_files d.reads path in
      let bare = not files && not (w.torrent_cached (suc d.reads) share_id) in
      let start = record d { reads = 2 + d.reads } in
      let b = bootstrap w share_id (bare && not (is_local_only row)) start in
      let same = by_db w k d b.1 (bootstrap-db share_id (bare && not (is_local_only row)) start) in
      let e = on_db (Shares.set_share_state share_id syncing none none) b.1 in
      elim (Bool-cases (bare && not (is_some b.0))) [
        | inl waits ↦
            rw (waits, activate_watched)
              (after w k d e (go_live share_id row e)
                (after w k d b.1 e same
                  (Keeping.set_share_state-Keeps k share_id syncing none none b.1.db))
                (by_db w k e (go_live share_id row e) (go_live-db share_id row e)))
        | inr adds ↦
            rw (adds, activate_watched)
              (after w k d b.1 (with_torrent w share_id path files b.0 row b.1) same
                (with_torrent-Keeps share_id path files b.0 row b.1))
      ]

  pub watch_files-db :
      (share_id path : Text) (d : Daemon) → (watch_files w share_id path d).1.db ≡ d.db
  watch_files-db share_id path d = ground arith

  pub activate_share-Keeps :
      (share_id path : Text) (d : Daemon) → StepKeeps w k d (activate_share w share_id path d)
  unfolding activation
  activate_share-Keeps share_id path d =
      let r = watch_files w share_id path d in
      let same = by_db w k d r.1 (watch_files-db share_id path d) in
      elim (Bool-cases r.0) [
        | inl raised ↦ rw (raised, activate_share, activation) same
        | inr watched ↦ elim (Bool-cases (w.walk_fails r.1.reads path)) [
          | inl lost ↦ rw (watched, lost, activate_share, activation) same
          | inr walked ↦
              rw (watched, walked, activate_share, activation)
                (after w k d r.1 (activate_watched w share_id path r.1) same
                  (activate_watched-Keeps share_id path r.1))
        ]
      ]

  -- A command that ends with an activation has its state.
  pub ended-Keeps :
      {A : Type 0} (a : A) (d : Daemon) (r : Bool × Daemon)
      → StepKeeps w k d r.1
      → StepKeeps w k d (ended a r).1
  ended-Keeps a d (true, e) keeps = keeps
  ended-Keeps a d (false, e) keeps = keeps

  pub resume_share-Keeps :
      (share_id : Text) (d : Daemon) → StepKeeps w k d (resume_share w share_id d).1
  unfolding resume_share
  resume_share-Keeps share_id d = elim (Option-cases (get_share share_id d.db)) [
    | inl n ↦ rw (n, resume_share) (Keeping.Keeps-refl k d.db)
    | inr (s, found) ↦
        let e = on_db (Shares.set_share_state share_id syncing none none) d in
        rw (found, resume_share)
          (ended-Keeps tt d (activation w share_id s.local_path e) (
            after w k d e (activate_share w share_id s.local_path e)
              (Keeping.set_share_state-Keeps k share_id syncing none none d.db)
              (activate_share-Keeps share_id s.local_path e)))
  ]

  pub pause_share-Keeps : (share_id : Text) (d : Daemon) → StepKeeps w k d (pause_share share_id d)
  pause_share-Keeps share_id d = Keeping.set_share_state-Keeps k share_id paused none none d.db

  stamp_rebuild-db :
      (share_id : Text) (now : ℕ) (d : Daemon) → (stamp_rebuild share_id now d).db ≡ d.db
  stamp_rebuild-db share_id now d = ground arith

  pub rebuild-Keeps :
      (share_id path : Text) (local_only : Bool) (d : Daemon)
      → StepKeeps w k d (rebuild w share_id path local_only d)
  unfolding rebuild
  rebuild-Keeps share_id path local_only d =
      let start = remove_torrent share_id d in
      let r = add_torrent w share_id path true none start in
      let e = r.1 in
      let same = by_db w k d e (add_torrent-db w share_id path true none start) in
      elim (Option-cases r.0) [
        | inl failed ↦ rw (failed, rebuild) same
        | inr (ih, added) ↦
            let up = λ (x : LocalShare). record x { seq = suc x.seq } in
            let f =
              on_db (Shares.increment_share_seq share_id) (record e { reads = suc e.reads }) in
            let g = on_db (Shares.set_share_state share_id seeding none (some ih)) f in
            let h = stamp_rebuild share_id (w.clock e.reads) g in
            rw (added, rebuild)
              (after w k d h (rebuild_complete share_id local_only h)
                (after w k d g h
                  (after w k d f g
                    (after w k d e f same
                      (Keeping.put_share-Keeps k share_id up e.db (λ s. (refl, refl, λ o. o))))
                    (Keeping.set_share_state-Keeps k share_id seeding none (some ih) f.db))
                  (by_db w k g h (stamp_rebuild-db share_id (w.clock e.reads) g)))
                (by_db w k h (rebuild_complete share_id local_only h)
                  (rebuild_complete-db share_id local_only h)))
      ]
