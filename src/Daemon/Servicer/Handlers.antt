-- ===== src/Daemon/Servicer/Handlers.antt =====
-- The handlers of daemon/daemon/control/servicer.py.
use peerdup.Prelude.{ℕ, Text, Bool, Option, none, some, List, [], ◌∷◌, length, take}
use peerdup.Daemon.State.{syncing}
use peerdup.Daemon.World.{World, Daemon}
use peerdup.Daemon.Coordinator
use peerdup.Daemon.Coordinator.{
  Failure, key_error, permission_error, value_error, runtime_error, Reply, returns, raises,
}
use peerdup.Daemon.Coordinator.Control
use peerdup.Daemon.Views
use peerdup.Daemon.Views.{TorrentStatus, ShareStatus, ShareInfo, build_share_status, rates_of}
use peerdup.Daemon.Views.Roster.{SharePeers}
use peerdup.Daemon.Views.Roster
use peerdup.Daemon.Servicer.{
  Answer, answered, Command, create_share, add_share, remove_share, pause_share, resume_share,
  list_conflicts, get_share_info, list_share_peers, list_shares, show_identity, status,
  set_share_rate_limit, set_conflict_strategy, resolve_conflict, grant_access, revoke_access,
  Summary, Response, done, created, added, shares, conflicts, info, peers, identity, summary,
  Outside, or_default, strategy_or, permission_or, everything, missing, missing_only,
  missing_or_value, missing_or_denied, answer, translate,
}

abbrev pub plain : {A : Type 0} → A → Daemon → Response
plain a e = done

abbrev pub first_share : List ShareStatus → Option ShareStatus
first_share [] = none
first_share (s ∷ ss) = some s

abbrev status_of : Outside → Text → Text → Text → Daemon → ShareStatus
status_of o share_id name local_path e =
    build_share_status o.torrent share_id name local_path syncing none e.db

-- `Status`
abbrev summary_of : Outside → Daemon → Summary
summary_of o d =
    let all = Views.list_shares o.torrent d.db in
    let (up, down) = rates_of o.torrent d.db.shares in
    record { share = first_share all; shares = length all; upload_rate = up; download_rate = down }

-- The name that `add_share` answers with.
abbrev title_of : World → Text → Text → Bool → Daemon → Text
title_of w share_id name local_only d =
    (Control.described w share_id (or_default name (take 8 share_id)) local_only d).0.0

-- `CreateShare`
abbrev pub create_share_handler :
    World → Outside → Text → Text → Text → Text → Text → Bool → Daemon → Answer Response × Daemon
create_share_handler w o name local_path permission import_key_hex strategy local_only d =
    translate everything (λ share_id e. created share_id (status_of o share_id name local_path e))
      (Control.create_share_command w name local_path (permission_or permission) import_key_hex
        (strategy_or strategy) local_only d)

-- `AddShare`
abbrev pub add_share_handler :
    World → Outside → Text → Text → Text → Text → Bool → Text → Daemon → Answer Response × Daemon
add_share_handler w o share_id local_path permission strategy local_only name d =
    translate everything
      (λ r e. added (status_of o share_id (title_of w share_id name local_only d) local_path e))
      (Control.add_share_command w share_id local_path (permission_or permission)
        (strategy_or strategy) local_only name d)

-- `RemoveShare`
abbrev pub remove_share_handler : Text → Daemon → Answer Response × Daemon
remove_share_handler share_id d = translate missing plain (Coordinator.remove_share share_id d)

-- `PauseShare`
abbrev pub pause_share_handler : Text → Daemon → Answer Response × Daemon
pause_share_handler share_id d = (answered done, Coordinator.pause_share share_id d)

-- `ResumeShare`
abbrev pub resume_share_handler : World → Text → Daemon → Answer Response × Daemon
resume_share_handler w share_id d =
    translate missing_only plain (Coordinator.resume_share w share_id d)

-- `ListConflicts`
abbrev pub list_conflicts_handler : Text → Daemon → Answer Response × Daemon
list_conflicts_handler share_id d =
    (answer missing conflicts (Control.list_conflicts_command share_id d), d)

-- `GetShareInfo`
abbrev pub get_share_info_handler : Outside → Text → Daemon → Answer Response × Daemon
get_share_info_handler o share_id d =
    (answer missing info (Views.get_share_info o.torrent o.registry share_id d.db), d)

-- `ListSharePeers`
abbrev pub list_share_peers_handler : World → Outside → Text → Daemon → Answer Response × Daemon
list_share_peers_handler w o share_id d =
    (answered (peers (Roster.list_share_peers w.own_id o.lower o.registry share_id d.db)), d)

-- `ListShares`
abbrev pub list_shares_handler : Outside → Daemon → Answer Response × Daemon
list_shares_handler o d = (answered (shares (Views.list_shares o.torrent d.db)), d)

-- `ShowIdentity`
abbrev pub show_identity_handler : World → Outside → Daemon → Answer Response × Daemon
show_identity_handler w o d = (answered (identity w.own_id o.own_name), d)

-- `Status`
abbrev pub status_handler : Outside → Daemon → Answer Response × Daemon
status_handler o d = (answered (summary (summary_of o d)), d)

-- `SetShareRateLimit`
abbrev pub set_share_rate_limit_handler : Text → ℕ → ℕ → Daemon → Answer Response × Daemon
set_share_rate_limit_handler share_id up down d =
    translate missing plain (Control.set_share_rate_limit share_id up down d)

-- `SetConflictStrategy`
abbrev pub set_conflict_strategy_handler : Text → Text → Daemon → Answer Response × Daemon
set_conflict_strategy_handler share_id strategy d =
    translate missing_or_value plain
      (Control.set_conflict_strategy share_id (strategy_or strategy) d)

-- `ResolveConflict`
abbrev pub resolve_conflict_handler : World → ℕ → Text → Daemon → Answer Response × Daemon
resolve_conflict_handler w id resolution d =
    translate missing_or_value plain (Control.resolve_conflict w id resolution d)

-- `GrantAccess`
abbrev pub grant_access_handler : World → Text → Text → Text → Daemon → Answer Response × Daemon
grant_access_handler w share_id peer_id permission d =
    translate missing_or_denied plain
      (Control.grant_access w share_id peer_id (permission_or permission) d)

-- `RevokeAccess`
abbrev pub revoke_access_handler : World → Text → Text → Daemon → Answer Response × Daemon
revoke_access_handler w share_id peer_id d =
    translate missing_or_denied plain (Control.revoke_access w share_id peer_id d)

module _ (w : World) (o : Outside) where
  -- A request goes to its handler.
  unfoldable pub serve : Command → Daemon → Answer Response × Daemon
  serve (create_share name local_path permission import_key_hex strategy local_only) d =
      create_share_handler w o name local_path permission import_key_hex strategy local_only d
  serve (add_share share_id local_path permission strategy local_only name) d =
      add_share_handler w o share_id local_path permission strategy local_only name d
  serve (remove_share share_id) d = remove_share_handler share_id d
  serve (pause_share share_id) d = pause_share_handler share_id d
  serve (resume_share share_id) d = resume_share_handler w share_id d
  serve (list_conflicts share_id) d = list_conflicts_handler share_id d
  serve (get_share_info share_id) d = get_share_info_handler o share_id d
  serve (list_share_peers share_id) d = list_share_peers_handler w o share_id d
  serve list_shares d = list_shares_handler o d
  serve show_identity d = show_identity_handler w o d
  serve status d = status_handler o d
  serve (set_share_rate_limit share_id up down) d = set_share_rate_limit_handler share_id up down d
  serve (set_conflict_strategy share_id strategy) d =
      set_conflict_strategy_handler share_id strategy d
  serve (resolve_conflict id resolution) d = resolve_conflict_handler w id resolution d
  serve (grant_access share_id peer_id permission) d =
      grant_access_handler w share_id peer_id permission d
  serve (revoke_access share_id peer_id) d = revoke_access_handler w share_id peer_id d
