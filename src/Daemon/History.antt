-- ===== src/Daemon/History.antt =====
-- Any sequence of the daemon's steps: what it hears, the commands of its control service, and its background
-- loops and tasks. daemon/daemon/sync/coordinator.py, peer_handler.py, torrent_mgr.py,
-- daemon/daemon/lan/discovery.py.
use peerdup.Prelude.{
  text_eq, pair_eq, ℕ, Text, Bytes, Bool, Bool-cases, true, false, ◌≡◌, ◌≢◌, ◌⊎◌, inl, inr, List,
  [], ◌∷◌, some,
}
use peerdup.Prelude.Table
use peerdup.Prelude.Table.{IsUnique}
use peerdup.Registry.Messages.{PeerEvent}
use peerdup.Daemon.State.{LocalShare, share_key, known_peer_key}
use peerdup.Daemon.State.Shares.{get_share}
use peerdup.Daemon.World.{World, Daemon}
use peerdup.Daemon.Torrents.{deferred_rebuild, run_rebuild}
use peerdup.Daemon.Handler.{registry_event, datagram_received}
use peerdup.Daemon.Lan.Packet.{Keys}
use peerdup.Daemon.Coordinator.{activate_share, pause_share, resume_share, remove_share}
use peerdup.Daemon.Coordinator.Control.{
  create_share_command, add_share_command, resolve_conflict, set_conflict_strategy,
  set_share_rate_limit, grant_access, revoke_access,
}
use peerdup.Daemon.Coordinator.Loops.{FileChangedEvent, handle_fs_event, on_status}
use peerdup.Daemon.Keeping.{Keeps, Keeps-refl, Keeps-trans}
use peerdup.Daemon.Keeping.Switching.{StepKeeps}
use peerdup.Daemon.Keeping.Handling.{registry_event-Keeps, datagram_received-Keeps}
use peerdup.Daemon.Keeping.Activation.{activate_share-Keeps, resume_share-Keeps, pause_share-Keeps}
use peerdup.Daemon.Keeping.Adding.{
  remove_command-Keeps, create_share-Keeps, add_share_command-Keeps,
}
use peerdup.Daemon.Keeping.Control.{
  resolve_conflict-Keeps, set_conflict_strategy-Keeps, set_share_rate_limit-Keeps,
  grant_access-Keeps, revoke_access-Keeps,
}
use peerdup.Daemon.Keeping.Loops.{
  handle_fs_event-Keeps, on_status-Keeps, deferred_rebuild-Keeps, run_rebuild-Keeps,
}

-- A step of the daemon. `activation` is one of those that follow the registration at start-up.
pub data Step : Type 0 where
  told : Text → PeerEvent → Step
  datagram : Text → Bytes → Step
  file_event : FileChangedEvent → Step
  status : Text → Bool → Text → Step
  rebuild_task : Step
  rebuild_timer : Text → Step
  activation : Text → Text → Step
  pause : Text → Step
  resume : Text → Step
  remove : Text → Step
  create : Text → Text → Text → Text → Text → Bool → Step
  add : Text → Text → Text → Text → Bool → Text → Step
  resolve : ℕ → Text → Step
  choose_strategy : Text → Text → Step
  limit : Text → ℕ → ℕ → Step
  grant : Text → Text → Text → Step
  revoke : Text → Text → Step

module _ (w : World) (keys : Keys) where
  unfoldable pub perform : Step → Daemon → Daemon
  perform (told share_id event) d = registry_event w share_id event d
  perform (datagram host whole) d = datagram_received w keys host whole d
  perform (file_event evt) d = handle_fs_event w evt d
  perform (status share_id complete ih) d = on_status w share_id complete ih d
  perform rebuild_task d = run_rebuild w d
  perform (rebuild_timer share_id) d = deferred_rebuild w share_id d
  perform (activation share_id path) d = activate_share w share_id path d
  perform (pause share_id) d = pause_share share_id d
  perform (resume share_id) d = (resume_share w share_id d).1
  perform (remove share_id) d = (remove_share share_id d).1
  perform (create name path permission hex strategy local_only) d =
      (create_share_command w name path permission hex strategy local_only d).1
  perform (add share_id path permission strategy local_only name) d =
      (add_share_command w share_id path permission strategy local_only name d).1
  perform (resolve id resolution) d = (resolve_conflict w id resolution d).1
  perform (choose_strategy share_id strategy) d = (set_conflict_strategy share_id strategy d).1
  perform (limit share_id up down) d = (set_share_rate_limit share_id up down d).1
  perform (grant share_id peer_id permission) d = (grant_access w share_id peer_id permission d).1
  perform (revoke share_id peer_id) d = (revoke_access w share_id peer_id d).1

  unfoldable pub run : List Step → Daemon → Daemon
  run [] d = d
  run (step ∷ steps) d = run steps (perform step d)

-- The share is not removed by the step.
abbrev pub Spares : Text → Step → Type 0
Spares share_id (remove other) = share_id ≢ other
Spares share_id _ = Unit

abbrev pub AllSpare : Text → List Step → Type 0
AllSpare share_id [] = Unit
AllSpare share_id (step ∷ steps) = Spares share_id step × AllSpare share_id steps

module _ (w : World) (keys : Keys) (k : Text) where
  perform-Keeps :
      (step : Step) (d : Daemon) → Spares k step → StepKeeps w k d (perform w keys step d)
  unfolding perform
  perform-Keeps (told share_id event) d s = registry_event-Keeps w k share_id event d
  perform-Keeps (datagram host whole) d s = datagram_received-Keeps w k keys host whole d
  perform-Keeps (file_event evt) d s = handle_fs_event-Keeps w k evt d
  perform-Keeps (status share_id complete ih) d s = on_status-Keeps w k share_id complete ih d
  perform-Keeps rebuild_task d s = run_rebuild-Keeps w k d
  perform-Keeps (rebuild_timer share_id) d s = deferred_rebuild-Keeps w k share_id d
  perform-Keeps (activation share_id path) d s = activate_share-Keeps w k share_id path d
  perform-Keeps (pause share_id) d s = pause_share-Keeps w k share_id d
  perform-Keeps (resume share_id) d s = resume_share-Keeps w k share_id d
  perform-Keeps (remove share_id) d s = remove_command-Keeps w k share_id d s
  perform-Keeps (create name path permission hex strategy local_only) d s =
      create_share-Keeps w k name path permission hex strategy local_only d
  perform-Keeps (add share_id path permission strategy local_only name) d s =
      add_share_command-Keeps w k share_id path permission strategy local_only name d
  perform-Keeps (resolve id resolution) d s = resolve_conflict-Keeps w k id resolution d
  perform-Keeps (choose_strategy share_id strategy) d s =
      set_conflict_strategy-Keeps w k share_id strategy d
  perform-Keeps (limit share_id up down) d s = set_share_rate_limit-Keeps w k share_id up down d
  perform-Keeps (grant share_id peer_id permission) d s =
      grant_access-Keeps w k share_id peer_id permission d
  perform-Keeps (revoke share_id peer_id) d s = revoke_access-Keeps w k share_id peer_id d

  run-Keeps :
      (steps : List Step) (d : Daemon) → AllSpare k steps → Keeps k d.db (run w keys steps d).db
  unfolding run
  run-Keeps [] d s = Keeps-refl k d.db
  run-Keeps (step ∷ steps) d s =
      let e = perform w keys step d in
      Keeps-trans k d.db e.db (run w keys steps e).db (perform-Keeps step d s.0)
        (run-Keeps steps e s.1)

  -- Over any sequence of steps that does not remove a share, the row of the share stays, local only or not as
  -- it was, and owned if it was; a known peer of any share stays known; and if no share and no known peer
  -- stands twice before, none does afterwards.
  pub share_is_kept :
      (steps : List Step) (d : Daemon) (s : LocalShare) (p : Text × Text)
      → AllSpare k steps
      → get_share k d.db ≡ some s
      → Table.has known_peer_key p d.db.known_peers ≡ true
      → IsUnique share_key d.db.shares
      → IsUnique known_peer_key d.db.known_peers
      → ((t : LocalShare) × (get_share k (run w keys steps d).db ≡ some t)
          × (t.local_only ≡ s.local_only)
          × ((s.is_owner ≡ false) ⊎ (t.is_owner ≡ true)))
        × (Table.has known_peer_key p (run w keys steps d).db.known_peers ≡ true)
        × IsUnique share_key (run w keys steps d).db.shares
        × IsUnique known_peer_key (run w keys steps d).db.known_peers
  share_is_kept steps d s p spared found known u v =
      let kept = run-Keeps steps d spared in
      let (t, later, (same, local, owned)) = kept.row s found in
      (
        (t, later, local, elim (Bool-cases s.is_owner) [ inl o ↦ inr (owned o) | inr n ↦ inl n ]),
        kept.peers p known,
        kept.unique u,
        kept.unique_peers v,
      )
