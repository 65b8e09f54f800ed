-- ===== src/Registry/Tests.antt =====
-- What the theorems say of the small registry of Tests/Sample, of single buckets of its rate limiter
-- and of a small event bus: registry/servicer/registry.py, registry/events.py.
mod Sample
use peerdup.Prelude.{
  ℕ, ◌+◌, ◌*◌, ◌≤◌, Text, codes, pos, true, false, ◌≡◌, ◌≢◌, refl, none, some, List, [], ◌∷◌, ◌++◌,
  ◌==◌, text_eq, pair_eq, arith, text_beq, select,
}
use mathlib.Core.Path.{subst}
use peerdup.Prelude.Table
use peerdup.Registry.Models.{PeerRow, Database, empty_database, read_write, read_only}
use peerdup.Registry.Messages.{
  updated, PeerEvent, RegisterPeerRequest, RegisterPeerResponse, permission_denied, only_the_owner,
  AnnounceRequest,
}
use peerdup.Registry.Service.{Env, Context, Server, Bucket, log, metric, metric_rpc, publish_event}
use peerdup.Registry.Dispatch.{
  Call, register_peer, create_share, add_peer_to_share, set_share_policy, announce, get_share_peers,
  handle, run,
}
use peerdup.Registry.Peers.{register_peer_rpc}
use peerdup.Registry.Shares.{create_share_rpc}
use peerdup.Registry.Membership.{add_peer_to_share_rpc}
use peerdup.Registry.Views.{
  build_share_peers, members_of, build_share_peer, perm_proto_to_model, with_external,
}
use peerdup.Registry.Announce.{announce_rpc, granted_ttl}
use peerdup.Registry.Shares.{set_share_policy_rpc}
use peerdup.Registry.Listing.{get_share_peers_rpc}
use peerdup.Registry.Limiter.{token, allowed, take_token, is_allowed}
use peerdup.Registry.Limiter.Bounds.{take_token-le-burst, allowed_within_rate, polling_beats_rate}
use peerdup.Registry.Changes.{Reader}
use peerdup.Registry.Atomic.{abort_unchanged}
use peerdup.Registry.Access.{stranger_unchanged, SameShare, announcement_is_own, SameOrGone}
use peerdup.Registry.Credentials.{new_token_authenticates, old_token_is_void}
use peerdup.Registry.Events.{
  Queue, EventBus, publish, subscribe, unsubscribe, remove, put_nowait, queues_of, publish_all,
}
use peerdup.Registry.Events.Delivery.{published_in_order, filled}
use peerdup.Registry.Readers.{shows_members_only}
use peerdup.Registry.Discovery.{granted_ttl_bounds, announce-Recorded, Recorded, sweep_exact, Swept}
use peerdup.Registry.Address.{parse_peer_addr}
use peerdup.Registry.Ttl.{sweep_round}
use peerdup.Registry.Auth.{
  require_share_member, require_share_owner, require_auth, authenticated_peer, token_owner,
}
use peerdup.Registry.Crypto.{
  encode, canonical_addrs, pack_u32, extract_bearer_token, hash_token, verify_register_peer,
  verify_create_share, verify_announce,
}
use peerdup.Registry.Invariant.{IsValid}
use peerdup.Registry.Invariant.Run.{handle-IsValid, run-IsValid, empty-IsValid}
use peerdup.Registry.Tests.Sample.{
  env, with_token, member, music, empty_server, history, peer, db, db-IsValid, server, hello,
  throttle, as_member, as_stranger,
}

handle-IsValid_example : IsValid (handle env as_member (announce hello) server).1.db
handle-IsValid_example = handle-IsValid env as_member server db-IsValid (announce hello)

abort_unchanged_example : (handle env as_stranger throttle server).1.db ≡ db
unfolding handle set_share_policy_rpc require_auth require_share_owner authenticated_peer
    token_owner extract_bearer_token hash_token log Table.find text_beq
abort_unchanged_example =
    abort_unchanged env as_stranger server throttle permission_denied only_the_owner refl

stranger_unchanged_example :
    SameShare env as_stranger server db-IsValid music member
      (handle env as_stranger throttle server).1.db
unfolding authenticated_peer token_owner extract_bearer_token hash_token Table.find text_beq
stranger_unchanged_example =
    stranger_unchanged env as_stranger server db-IsValid throttle music member _ refl
      (λ e. ground arith)

announcement_is_own_example :
    SameOrGone env as_stranger server db-IsValid music member
      (handle env as_stranger (announce hello) server).1.db
unfolding authenticated_peer token_owner extract_bearer_token hash_token Table.find text_beq
announcement_is_own_example =
    announcement_is_own env as_stranger server db-IsValid (announce hello) music member
      (λ e. ground arith)

abbrev listing : Call
listing = get_share_peers (record { share_id = music; online_only = false })

shows_members_only_example : Reader env as_member db music
unfolding handle get_share_peers_rpc require_auth authenticated_peer token_owner
    extract_bearer_token hash_token log Table.find text_beq require_share_member build_share_peers
    members_of select build_share_peer
shows_members_only_example = shows_members_only env as_member server listing music refl refl

announce-Recorded_example :
    Recorded env as_member hello server (announce_rpc env as_member hello server).1.db
unfolding announce_rpc require_auth authenticated_peer token_owner extract_bearer_token hash_token
    log Table.find text_beq verify_announce canonical_addrs pack_u32 is_allowed with_external
    parse_peer_addr publish_event metric metric_rpc
announce-Recorded_example = announce-Recorded env as_member hello server refl

sweep_exact_example : Swept 10_000_000 db (sweep_round env server).1.db
sweep_exact_example = sweep_exact env server db-IsValid

abbrev bucket : Bucket
bucket = record { tokens = 2 * token; last = 0 }

allowed_within_rate_example : 3 * token ≤ 2 * token + 1_000_000_000 * 60
unfolding take_token
allowed_within_rate_example =
    allowed_within_rate 60 2 bucket (0 ∷ 1 ∷ 1_000_000_000 ∷ [])
      (refl, omega arith, (refl, omega arith, (refl, omega arith, tt)))

polling_beats_rate_example :
    ((take_token 60 1 900_000_000 (record { tokens = 0; last = 0 })).0 ≢ allowed)
    × ((take_token 60 1 200_000_000 (record { tokens = 0; last = 0 })).0 ≢ allowed)
    × ((take_token 60 1 900_000_000
          (take_token 60 1 200_000_000 (record { tokens = 0; last = 0 })).1).0
        ≡ allowed)
polling_beats_rate_example =
    polling_beats_rate 60 1 200_000_000 900_000_000 (record { tokens = 0; last = 0 }) refl
      (omega arith) (omega arith) (omega arith) (omega arith) (omega arith)

abbrev again : RegisterPeerRequest
again = record { peer_id = member; name = codes "mm"; signature = member }

abbrev again_reply : RegisterPeerResponse
again_reply = record {
  peer = record {
    peer_id = member;
    name = codes "mm";
    addresses = [];
    online = false;
    last_seen = none;
  };
  token = codes "3";
}

new_token_authenticates_example :
    authenticated_peer env
      (with_token (codes "3"))
      (register_peer_rpc env as_member again server).1.db
    ≡ some member
unfolding register_peer_rpc verify_register_peer encode extract_bearer_token hash_token log
    Table.find text_beq
new_token_authenticates_example =
    new_token_authenticates env as_member (with_token (codes "3")) again server again_reply refl
      refl refl refl

old_token_is_void_example :
    authenticated_peer env as_member (register_peer_rpc env as_member again server).1.db ≡ none
unfolding register_peer_rpc verify_register_peer encode extract_bearer_token hash_token log
    Table.find text_beq
old_token_is_void_example =
    old_token_is_void env as_member as_member again server (peer member (codes "1") 1_000_000)
      (codes "1") refl refl refl refl (refl, (refl, (refl, tt))) (λ e. ground arith)

abbrev event : ℕ → PeerEvent
event n = record { type = updated; peer = none; occurred_at = n; policy = none }

abbrev queue : ℕ → ℕ → List PeerEvent → Queue
queue id maxsize items = record { id = id; maxsize = maxsize; items = items }

abbrev bus : EventBus
bus = record { share_id = music; queues = queue 0 2 (event 0 ∷ []) ∷ queue 1 64 [] ∷ [] } ∷ []

subscribe-bus :
    publish music (event 0) (subscribe music 0 2 [])
    ≡ record { share_id = music; queues = queue 0 2 (event 0 ∷ []) ∷ [] } ∷ []
unfolding publish subscribe put_nowait Table.find Table.update text_beq
subscribe-bus = refl

unsubscribe-bus : queues_of music (unsubscribe music 0 bus) ≡ queue 1 64 [] ∷ []
unfolding unsubscribe remove Table.find Table.update text_beq
unsubscribe-bus = refl

published_in_order_example :
    (queues_of music (publish_all music (event 1 ∷ event 2 ∷ []) bus)
      ≡ queue 0 2 (event 0 ∷ event 1 ∷ []) ∷ queue 1 64 (event 1 ∷ event 2 ∷ []) ∷ [])
    × ((j : Text)
        → (music == j) ≡ false
        → queues_of j (publish_all music (event 1 ∷ event 2 ∷ []) bus) ≡ queues_of j bus)
unfolding Table.find text_beq
published_in_order_example =
    published_in_order music (event 1 ∷ event 2 ∷ []) bus
      ((omega arith, omega arith), ((omega arith, omega arith), tt))
