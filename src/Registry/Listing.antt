-- ===== src/Registry/Listing.antt =====
-- `GetSharePeers`, the snapshot of `WatchSharePeers`, and `GetShareActivity` of
-- registry/servicer/registry.py.
use peerdup.Prelude.{
  ℕ, suc, ◌-◌, max, Text, Bool, true, ◌||◌, not, Option, none, some, List, [], ◌∷◌, ◌==◌, text_eq,
  pair_eq, if◌then◌else◌, select, length,
}
use peerdup.Prelude.Table
use peerdup.Registry.Models.{AnnouncementRow, Database, share_key}
use peerdup.Registry.Messages.{
  SharePeer, PeerEvent, GetSharePeersRequest, GetSharePeersResponse, GetShareActivityResponse,
  WatchSharePeersRequest, EventType, online, offline, updated, removed, policy_updated, not_found,
  share_not_found, SharePolicy,
}
use peerdup.Registry.Service.{
  Env, Context, get_share_peers, watch_share_peers, get_share_activity, set_active_watches, ok,
  Action, pure, gets, modify, or_abort, ◌>>=◌, ◌>>◌, now, monotonic, log, metric, metric_rpc,
}
use peerdup.Registry.Address.{remote_ip}
use peerdup.Registry.Auth.{require_auth, require_share_member, require_share_owner}
use peerdup.Registry.Views.{is_online, members_of, build_share_peers, share_policy}

-- `pb.SharePolicy()` for a share that is gone.
abbrev policy_of : Text → Database → SharePolicy
policy_of share_id db = elim (Table.find share_key share_id db.shares) [
  | some share ↦ share_policy share
  | none ↦ record { upload_limit_bps = 0; download_limit_bps = 0 }
]

abbrev peer_event : EventType → ℕ → SharePeer → PeerEvent
peer_event type time p = record { type = type; peer = some p; occurred_at = time; policy = none }

-- The events of the snapshot, online members first seen as ONLINE, the others only on request.
unfoldable pub snapshot_events : Bool → ℕ → List SharePeer → List PeerEvent
snapshot_events include_offline time [] = []
snapshot_events include_offline time (p ∷ ps) =
    let rest = snapshot_events include_offline time ps in
    if p.online
    then peer_event online time p ∷ rest
    else if include_offline
    then peer_event offline time p ∷ rest
    else rest

-- The live loop's filter: without `include_offline` the OFFLINE events are skipped.
unfoldable pub passes : Bool → EventType → Bool
passes include_offline offline = include_offline
passes include_offline online = true
passes include_offline updated = true
passes include_offline removed = true
passes include_offline policy_updated = true

-- The latest `announced_at` of a list of rows.
unfoldable pub latest : List AnnouncementRow → Option ℕ
latest [] = none
latest (a ∷ as') = elim (latest as') [
  | none ↦ some a.announced_at
  | some t ↦ some (max a.announced_at t)
]

module _ (env : Env) (context : Context) where
  unfoldable pub get_share_peers_rpc : GetSharePeersRequest → Action GetSharePeersResponse
  get_share_peers_rpc request = do
    caller_id ← require_auth env context
    require_share_member env context request.share_id caller_id get_share_peers
    found ← gets (λ s. Table.find share_key request.share_id s.db.shares)
    or_abort found not_found share_not_found
    members ← gets (λ s. members_of request.share_id s.db)
    peers ← build_share_peers env members
    log env get_share_peers caller_id ok request.share_id (remote_ip context)
    policy ← gets (λ s. policy_of request.share_id s.db)
    pure (record {
      peers = select (λ p. not request.online_only || p.online) peers;
      policy = policy;
    })

  open_watch : Action (Unit {0})
  open_watch = do
    modify (λ s. record s { active_watches = suc s.active_watches })
    n ← gets (λ s. s.active_watches)
    metric env (set_active_watches n)

  -- Up to the subscription: the events that a client sees first.
  unfoldable pub watch_snapshot_rpc : WatchSharePeersRequest → Action (List PeerEvent)
  unfolding open_watch
  watch_snapshot_rpc request = do
    caller_id ← require_auth env context
    require_share_member env context request.share_id caller_id watch_share_peers
    log env watch_share_peers caller_id ok request.share_id (remote_ip context)
    open_watch
    time ← now env
    found ← gets (λ s. Table.find share_key request.share_id s.db.shares)
    or_abort found not_found share_not_found
    members ← gets (λ s. members_of request.share_id s.db)
    peers ← build_share_peers env members
    pure (snapshot_events request.include_offline time peers)

  -- The `finally` of the live loop.
  unfoldable pub close_watch : Action (Unit {0})
  close_watch = do
    modify (λ s. record s { active_watches = s.active_watches - 1 })
    n ← gets (λ s. s.active_watches)
    metric env (set_active_watches n)

  unfoldable pub get_share_activity_rpc : Text → Action GetShareActivityResponse
  get_share_activity_rpc share_id = do
    start ← monotonic env
    caller_id ← require_auth env context
    require_share_owner env context share_id caller_id get_share_activity
    time ← now env
    rows ← gets (λ s. select (λ a. a.share_id == share_id) s.db.announcements)
    log env get_share_activity caller_id ok share_id (remote_ip context)
    metric_rpc env get_share_activity start
    pure (record {
      share_id = share_id;
      peers_online = length (select (is_online time) rows);
      announce_rate_per_hour = 0;
      peak_peers_24h = 0;
      last_announce_at = latest rows;
    })
