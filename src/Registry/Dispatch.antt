-- ===== src/Registry/Dispatch.antt =====
-- The service: one constructor for each RPC of registry/proto/registry.proto that the servicer
-- implements, and the sweep. A history is a list of events, each with its context.
use peerdup.Prelude.{Text, Bool, List, [], ◌∷◌}
use peerdup.Registry.Messages.{
  RegisterPeerRequest, CreateShareRequest, AddPeerToShareRequest, RemovePeerFromShareRequest,
  SetSharePolicyRequest, AnnounceRequest, GetSharePeersRequest, WatchSharePeersRequest,
}
use peerdup.Registry.Service.{Env, Context, Server, Result, done, fail}
use peerdup.Registry.Peers.{register_peer_rpc, get_peer_rpc}
use peerdup.Registry.Shares.{create_share_rpc, get_share_rpc, set_share_policy_rpc}
use peerdup.Registry.Membership.{add_peer_to_share_rpc, remove_peer_from_share_rpc}
use peerdup.Registry.Announce.{announce_rpc}
use peerdup.Registry.Listing.{
  get_share_peers_rpc, watch_snapshot_rpc, close_watch, get_share_activity_rpc,
}
use peerdup.Registry.Health.{health_rpc}
use peerdup.Registry.Ttl.{sweep_round}

pub data Call : Type 0 where
  register_peer : RegisterPeerRequest → Call
  get_peer : Text → Call
  create_share : CreateShareRequest → Call
  get_share : Text → Call
  add_peer_to_share : AddPeerToShareRequest → Call
  remove_peer_from_share : RemovePeerFromShareRequest → Call
  set_share_policy : SetSharePolicyRequest → Call
  announce : AnnounceRequest → Call
  get_share_peers : GetSharePeersRequest → Call
  watch_share_peers : WatchSharePeersRequest → Call
  end_watch : Call
  health : Bool → Call
  get_share_activity : Text → Call
  sweep_tick : Call

-- The state after an action, and how it ended.
abbrev pub outcome : {A : Type 0} → Result A × Server → Result (Unit {0}) × Server
outcome (done _, s) = (done tt, s)
outcome (fail e, s) = (fail e, s)

module _ (env : Env) where
  unfoldable pub handle : Context → Call → Server → Result (Unit {0}) × Server
  handle context (register_peer r) s = outcome (register_peer_rpc env context r s)
  handle context (get_peer p) s = outcome (get_peer_rpc env context p s)
  handle context (create_share r) s = outcome (create_share_rpc env context r s)
  handle context (get_share i) s = outcome (get_share_rpc env context i s)
  handle context (add_peer_to_share r) s = outcome (add_peer_to_share_rpc env context r s)
  handle context (remove_peer_from_share r) s = outcome (remove_peer_from_share_rpc env context r s)
  handle context (set_share_policy r) s = outcome (set_share_policy_rpc env context r s)
  handle context (announce r) s = outcome (announce_rpc env context r s)
  handle context (get_share_peers r) s = outcome (get_share_peers_rpc env context r s)
  handle context (watch_share_peers r) s = outcome (watch_snapshot_rpc env context r s)
  handle context end_watch s = close_watch env context s
  handle context (health reachable) s = outcome (health_rpc env reachable s)
  handle context (get_share_activity i) s = outcome (get_share_activity_rpc env context i s)
  handle context sweep_tick s = sweep_round env s

  unfoldable pub run : List (Context × Call) → Server → Server
  run [] s = s
  run ((context, call) ∷ rest) s = run rest (handle context call s).1
