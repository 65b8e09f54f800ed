-- ===== src/Daemon/Views.antt =====
-- What the control service is shown: the statuses of the shares, and the roster of one share, of
-- daemon/daemon/sync/coordinator.py. `status` is libtorrent's status of a share, and `registry` the
-- registry's answer on it, none where it raises.

pub mod Roster
pub mod Order
pub mod Complete
use mathlib.Core.Option
use mathlib.Core.Option.{get_or}
use peerdup.Prelude.{
  ℕ, ◌+◌, Text, codes, take, truthy, Bool, true, false, not, ◌&&◌, ◌||◌, Option, none, some, List,
  [], ◌∷◌, ◌++◌, map, length, if◌then◌else◌, eqb, ltb, ◌==◌, text_eq, select,
}
use peerdup.Prelude.Table
use peerdup.Prelude.Table.{is_some, passes}
use peerdup.Registry.Models.{PeerAddress}
use peerdup.Registry.Messages.{
  Permission, unspecified, read_write, read_only, encrypted, SharePeer, Share,
}
use peerdup.Daemon.State.{
  ShareState, ConflictStrategy, last_write_wins, LocalShare, KnownPeer, StateDb,
}
use peerdup.Daemon.State.Shares.{get_share}
use peerdup.Daemon.State.Records.{get_online_peers, list_all_known_peers, list_conflicts}
use peerdup.Daemon.Coordinator.{Reply, returns, raises, key_error}

pub record TorrentStatus : Type 0 where
  pub info_hash : Text
  pub bytes_done : ℕ
  pub bytes_total : ℕ
  pub peers : ℕ
  pub upload_rate : ℕ
  pub download_rate : ℕ

abbrev pub no_status : TorrentStatus
no_status = record {
  info_hash = [];
  bytes_done = 0;
  bytes_total = 0;
  peers = 0;
  upload_rate = 0;
  download_rate = 0;
}

pub record ShareStatus : Type 0 where
  pub share_id : Text
  pub name : Text
  pub local_path : Text
  pub state : ShareState
  pub torrent : TorrentStatus
  pub peers_online : ℕ
  pub last_error : Text
  pub conflict_strategy : ConflictStrategy
  pub local : Bool

pub record ShareInfo : Type 0 where
  pub row : LocalShare
  pub owner_id : Text
  pub created_at : Option ℕ
  pub torrent : TorrentStatus
  pub peers_online : ℕ
  pub total_peers : ℕ
  pub pending_conflicts : ℕ

abbrev strategy_in : Option LocalShare → ConflictStrategy
strategy_in none = last_write_wins
strategy_in (some s) = s.conflict_strategy

abbrev pub local_in : Option LocalShare → Bool
local_in none = false
local_in (some s) = s.local_only

abbrev pub told : Bool → Option Share → Option Share
told local_only answer = if local_only then none else answer

-- A time of no seconds is not shown.
abbrev shown_time : Option ℕ → Option ℕ
shown_time none = none
shown_time (some t) = if eqb t 0 then none else some t

module _ (status : Text → Option TorrentStatus) where
  -- `_build_share_status`
  unfoldable pub build_share_status :
      Text → Text → Text → ShareState → Option Text → StateDb → ShareStatus
  build_share_status share_id name local_path state last_error db =
      let row = get_share share_id db in
      record {
        share_id = share_id;
        name = name;
        local_path = local_path;
        state = state;
        torrent = get_or (status share_id) no_status;
        peers_online = length (get_online_peers share_id db);
        last_error = get_or last_error [];
        conflict_strategy = strategy_in row;
        local = local_in row;
      }

  -- `list_shares`
  unfoldable pub list_shares : StateDb → List ShareStatus
  unfolding build_share_status
  list_shares db =
      map (λ s. build_share_status s.share_id s.name s.local_path s.state s.last_error db) db.shares

  -- `global_rates`
  unfoldable pub rates_of : List LocalShare → ℕ × ℕ
  rates_of [] = (0, 0)
  rates_of (s ∷ ss) =
      let t = get_or (status s.share_id) no_status in
      let (up, down) = rates_of ss in (t.upload_rate + up, t.download_rate + down)

  -- `get_share_info`
  unfoldable pub get_share_info : (Text → Option Share) → Text → StateDb → Reply ShareInfo
  get_share_info registry share_id db = elim (get_share share_id db) [
    | none ↦ raises key_error
    | some s ↦
        let share = told s.local_only (registry share_id) in
        returns (record {
          row = s;
          owner_id = elim share [ none ↦ [] | some r ↦ r.owner_id ];
          created_at = elim share [ none ↦ none | some r ↦ shown_time r.created_at ];
          torrent = get_or (status share_id) no_status;
          peers_online = length (get_online_peers share_id db);
          total_peers = elim share [ none ↦ 0 | some r ↦ length r.peers ];
          pending_conflicts = length (list_conflicts share_id db);
        })
  ]
