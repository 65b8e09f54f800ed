-- ===== src/Daemon/Servicer.antt =====
-- The control service of the daemon, daemon/daemon/control/servicer.py: each request is a command of the
-- coordinator, and each exception an error of gRPC. Left out: the bridge between the queues of `WatchStatus`,
-- and `RegistryHealth` and `RegistryStatus`, which pass on the views of Daemon/Client.

pub mod Handlers
pub mod Refused
pub mod Errors
use peerdup.Prelude.{
  ℕ, Text, codes, truthy, Bool, true, false, Option, none, some, List, [], ◌∷◌, length, take,
  if◌then◌else◌,
}
use peerdup.Registry.Messages.{Share}
use peerdup.Daemon.State.{syncing, LocalConflict}
use peerdup.Daemon.World.{
  World, Daemon, ControlEvent, conflict, policy_updated, peer_event, sync_progress,
}
use peerdup.Daemon.Coordinator
use peerdup.Daemon.Coordinator.{
  Failure, key_error, permission_error, value_error, runtime_error, Reply, returns, raises,
}
use peerdup.Daemon.Coordinator.Control
use peerdup.Daemon.Views
use peerdup.Daemon.Views.{TorrentStatus, ShareStatus, ShareInfo, build_share_status, rates_of}
use peerdup.Daemon.Views.Roster.{SharePeers}
use peerdup.Daemon.Views.Roster

-- The codes that the service aborts with. `unknown` is gRPC's own, for an exception that the handler lets
-- pass.
pub data StatusCode : Type 0 where
  internal not_found permission_denied invalid_argument unknown : StatusCode

pub data Answer (A : Type 0) : Type 0 where
  answered : A → Answer A
  aborted : StatusCode → Answer A

pub data Command : Type 0 where
  create_share : Text → Text → Text → Text → Text → Bool → Command
  add_share : Text → Text → Text → Text → Bool → Text → Command
  remove_share pause_share resume_share list_conflicts get_share_info list_share_peers :
      Text → Command
  list_shares show_identity status : Command
  set_share_rate_limit : Text → ℕ → ℕ → Command
  set_conflict_strategy : Text → Text → Command
  resolve_conflict : ℕ → Text → Command
  grant_access : Text → Text → Text → Command
  revoke_access : Text → Text → Command

-- What the answer of `Status` shows: the first share, the number of shares and the rates.
pub record Summary : Type 0 where
  pub share : Option ShareStatus
  pub shares : ℕ
  pub upload_rate : ℕ
  pub download_rate : ℕ

-- The answers; those that only repeat the request are `done`.
pub data Response : Type 0 where
  done : Response
  created : Text → ShareStatus → Response
  added : ShareStatus → Response
  shares : List ShareStatus → Response
  conflicts : List LocalConflict → Response
  info : ShareInfo → Response
  peers : SharePeers → Response
  identity : Text → Text → Response
  summary : Summary → Response

-- What the handlers read beside the daemon: libtorrent, the registry, `str.lower` and the own name.
pub record Outside : Type 0 where
  pub torrent : Text → Option TorrentStatus
  pub registry : Text → Option Share
  pub lower : Text → Text
  pub own_name : Text

-- `text or default`
abbrev pub or_default : Text → Text → Text
or_default text default = if truthy text then text else default

abbrev pub strategy_or : Text → Text
strategy_or strategy = or_default strategy (codes "last_write_wins")

abbrev pub permission_or : Text → Text
permission_or permission = or_default permission (codes "rw")

-- The `except` clauses of the handlers.
unfoldable pub everything : Failure → StatusCode
everything f = internal

unfoldable pub missing : Failure → StatusCode
missing key_error = not_found
missing _ = internal

unfoldable pub missing_only : Failure → StatusCode
missing_only key_error = not_found
missing_only _ = unknown

unfoldable pub missing_or_value : Failure → StatusCode
missing_or_value key_error = not_found
missing_or_value value_error = invalid_argument
missing_or_value _ = internal

unfoldable pub missing_or_denied : Failure → StatusCode
missing_or_denied key_error = not_found
missing_or_denied permission_error = permission_denied
missing_or_denied _ = internal

unfoldable pub answer :
    {A : Type 0} → (Failure → StatusCode) → (A → Response) → Reply A → Answer Response
answer code respond (returns a) = answered (respond a)
answer code respond (raises f) = aborted (code f)

abbrev pub translate :
    {A : Type 0}
    → (Failure → StatusCode)
    → (A → Daemon → Response)
    → Reply A × Daemon
    → Answer Response × Daemon
translate code respond (r, e) = (answer code (λ a. respond a e) r, e)

-- `_dict_event_to_proto`: the type of an event that `WatchStatus` sends, and its conflict.
pub data EventType : Type 0 where
  unspecified_event peer_changed progressed conflict_found : EventType

unfoldable pub event_type : ControlEvent → EventType × ℕ
event_type (conflict share_id id) = (conflict_found, id)
event_type (policy_updated share_id up down) = (unspecified_event, 0)
event_type (peer_event share_id peer_id online) = (peer_changed, 0)
event_type (sync_progress share_id) = (progressed, 0)
