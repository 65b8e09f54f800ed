-- ===== src/Daemon/Keeping/Control.antt =====
-- What the other commands of daemon/daemon/sync/coordinator.py keep of a share and of the known peers.
use peerdup.Prelude.{
  ℕ, Text, codes, ◌||◌, ◌≡◌, refl, ◌==◌, text_eq, arith, Bool-cases, Option-cases, inl, inr,
}
use peerdup.Daemon.State.{LocalShare}
use peerdup.Daemon.State.Shares
use peerdup.Daemon.State.Shares.{get_share, readd, new_share}
use peerdup.Daemon.State.Records.{delete_conflict}
use peerdup.Daemon.World.{World, Daemon, on_db, call_handle, set_rate_limit, remove_peer_from_share}
use peerdup.Daemon.Torrents.{switch_to_remote}
use peerdup.Daemon.Coordinator.{Reply}
use peerdup.Daemon.Coordinator.Control.{
  as_owner, grant_act, send, strategy_of, resolve_conflict, conflict_of, keep_local,
  set_conflict_strategy, set_share_rate_limit, grant_access, revoke_access,
}
use peerdup.Daemon.Keeping
use peerdup.Daemon.Keeping.Switching.{StepKeeps, after, by_db, switch_to_remote-Keeps}
use peerdup.Daemon.Keeping.Activation.{activate_share-Keeps, ended-Keeps}

module _ (w : World) (k : Text) where
  keep_local-Keeps : (share_id : Text) (d : Daemon) → StepKeeps w k d (keep_local w share_id d).1
  keep_local-Keeps share_id d = elim (Option-cases (get_share share_id d.db)) [
    | inl gone ↦ rw (gone, keep_local) (Keeping.Keeps-refl k d.db)
    | inr (s, there) ↦ rw (there, keep_local) (activate_share-Keeps w k share_id s.local_path d)
  ]

  pub resolve_conflict-Keeps :
      (id : ℕ) (resolution : Text) (d : Daemon)
      → StepKeeps w k d (resolve_conflict w id resolution d).1
  unfolding resolve_conflict
  resolve_conflict-Keeps id resolution d =
      let local = resolution == codes "keep-local" in
      elim (Bool-cases (local || resolution == codes "keep-remote")) [
        | inr neither ↦ rw (neither, resolve_conflict) (Keeping.Keeps-refl k d.db)
        | inl known ↦ elim (Option-cases (conflict_of id d.db.shares d.db)) [
          | inl n ↦ rw (known, n, resolve_conflict) (Keeping.Keeps-refl k d.db)
          | inr (c, found) ↦
              let e = on_db (delete_conflict id) d in
              let deleted = Keeping.same-Keeps k d.db e.db refl refl in
              elim (Bool-cases local) [
                | inr remote ↦
                    rw (known, found, remote, resolve_conflict)
                      (after w k d e (switch_to_remote w c.share_id c.remote_info_hash e) deleted
                        (switch_to_remote-Keeps w k c.share_id c.remote_info_hash e))
                | inl ours ↦
                    rw (known, found, ours, resolve_conflict)
                      (ended-Keeps w k tt d (keep_local w c.share_id e) (
                        after w k d e (keep_local w c.share_id e).1 deleted
                          (keep_local-Keeps c.share_id e)))
              ]
        ]
      ]

  pub set_conflict_strategy-Keeps :
      (share_id strategy : Text) (d : Daemon)
      → StepKeeps w k d (set_conflict_strategy share_id strategy d).1
  unfolding set_conflict_strategy
  set_conflict_strategy-Keeps share_id strategy d = elim (Option-cases (get_share share_id d.db)) [
    | inl n ↦ rw (n, set_conflict_strategy) (Keeping.Keeps-refl k d.db)
    | inr (s, found) ↦ elim (Option-cases (strategy_of strategy)) [
      | inl n ↦ rw (found, n, set_conflict_strategy) (Keeping.Keeps-refl k d.db)
      | inr (c, chosen) ↦
          rw (found, chosen, set_conflict_strategy)
            (Keeping.put_share-Keeps k share_id (λ r. record r { conflict_strategy = c }) d.db
              (λ s. (refl, refl, λ o. o)))
    ]
  ]

  pub set_share_rate_limit-Keeps :
      (share_id : Text) (up down : ℕ) (d : Daemon)
      → StepKeeps w k d (set_share_rate_limit share_id up down d).1
  unfolding set_share_rate_limit call_handle
  set_share_rate_limit-Keeps share_id up down d =
      let limited = λ (r : LocalShare). record r { upload_limit = up; download_limit = down } in
      let e = on_db (Shares.set_share_rate_limits share_id up down) d in
      elim (Option-cases (get_share share_id d.db)) [
        | inl n ↦ rw (n, set_share_rate_limit) (Keeping.Keeps-refl k d.db)
        | inr (s, found) ↦
            rw (found, set_share_rate_limit)
              (after w k d e (set_rate_limit share_id up down e)
                (Keeping.put_share-Keeps k share_id limited d.db (λ s. (refl, refl, λ o. o)))
                (by_db w k e (set_rate_limit share_id up down e) (ground arith)))
      ]

  as_owner-db :
      (share_id : Text) (act : Daemon → Reply (Unit {0}) × Daemon) (d : Daemon)
      → (act d).1.db ≡ d.db
      → (as_owner share_id act d).1.db ≡ d.db
  as_owner-db share_id act d same = elim (Option-cases (get_share share_id d.db)) [
    | inl n ↦ ground (arith, n)
    | inr (s, found) ↦ ground (arith, found, same)
  ]

  pub grant_access-Keeps :
      (share_id peer_id permission : Text) (d : Daemon)
      → StepKeeps w k d (grant_access w share_id peer_id permission d).1
  unfolding grant_access
  grant_access-Keeps share_id peer_id permission d =
      by_db w k d (grant_access w share_id peer_id permission d).1
        (as_owner-db share_id (grant_act w share_id peer_id permission) d (ground arith))

  pub revoke_access-Keeps :
      (share_id peer_id : Text) (d : Daemon)
      → StepKeeps w k d (revoke_access w share_id peer_id d).1
  unfolding revoke_access
  revoke_access-Keeps share_id peer_id d =
      by_db w k d (revoke_access w share_id peer_id d).1
        (as_owner-db share_id (send w (remove_peer_from_share share_id peer_id)) d refl)
