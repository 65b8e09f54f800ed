-- ===== src/Registry/Tests/Sample.antt =====
-- A small registry, made by the handlers of registry/servicer/registry.py: an owner, a member and a
-- stranger.
use peerdup.Prelude.{
  ℕ, ◌+◌, ◌*◌, Text, codes, pos, true, false, ◌≡◌, refl, none, some, List, [], ◌∷◌, ◌++◌, ◌==◌,
  text_eq, pair_eq, text_beq, select,
}
use mathlib.Core.Path.{subst}
use peerdup.Prelude.Table
use peerdup.Registry.Models.{PeerRow, Database, empty_database, read_write, read_only}
use peerdup.Registry.Messages.{AnnounceRequest}
use peerdup.Registry.Service.{Env, Context, Server, log, metric, metric_rpc, publish_event}
use peerdup.Registry.Dispatch.{
  Call, register_peer, create_share, add_peer_to_share, set_share_policy, handle, run,
}
use peerdup.Registry.Peers.{register_peer_rpc}
use peerdup.Registry.Shares.{create_share_rpc}
use peerdup.Registry.Membership.{add_peer_to_share_rpc}
use peerdup.Registry.Views.{build_share_peers, members_of, build_share_peer, perm_proto_to_model}
use peerdup.Registry.Limiter.{token}
use peerdup.Registry.Auth.{require_share_owner, require_auth, authenticated_peer, token_owner}
use peerdup.Registry.Crypto.{
  encode, extract_bearer_token, hash_token, verify_register_peer, verify_create_share,
}
use peerdup.Registry.Invariant.{IsValid}
use peerdup.Registry.Invariant.Run.{run-IsValid, empty-IsValid}

-- A key is its own text, a signature is the key, and a token is a digit.
abbrev pub env : Env
env = record {
  b58decode = λ t. some t;
  verify_key = λ key message signature. key == signature;
  sha256 = λ t. t;
  token_urlsafe = λ n. (b'0' + n) ∷ [];
  wall_clock = λ n. n * 1_000_000;
  monotonic_clock = λ n. n * 1_000_000_000;
  rate_per_minute = 60;
  burst = none;
  audit_enabled = false;
  metrics_enabled = true;
  loop_running = true;
  start_time = 0;
}

abbrev pub with_token : Text → Context
with_token token = record {
  metadata = (codes "authorization", codes "Bearer " ++ token) ∷ [];
  peer = codes "ipv4:1.2.3.4:5000";
}

abbrev owner : Text
owner = codes "o"

abbrev pub member : Text
member = codes "m"

abbrev stranger : Text
stranger = codes "x"

abbrev pub music : Text
music = codes "s"

abbrev pub empty_server : Server
empty_server = record {
  db = empty_database;
  buckets = [];
  audit = [];
  published = [];
  metrics = [];
  active_watches = 0;
  last_sweep_at = none;
  wall_reads = 0;
  monotonic_reads = 0;
  tokens_made = 0;
}

abbrev registration : Text → Call
registration p = register_peer (record { peer_id = p; name = p; signature = p })

-- The owner, who holds the first token, makes a share and adds the member to it.
abbrev pub history : List (Context × Call)
history =
    (with_token [], registration owner)
    ∷ (with_token [], registration member)
    ∷ (with_token [], registration stranger)
    ∷ (
      with_token (codes "0"),
      create_share (record { share_id = music; name = music; signature = owner }),
    )
    ∷ (
      with_token (codes "0"),
      add_peer_to_share (record { share_id = music; peer_id = member; permission = pos 2 }),
    )
    ∷ []

abbrev pub peer : Text → Text → ℕ → PeerRow
peer p token time = record { peer_id = p; name = p; token_hash = token; created_at = time }

abbrev pub db : Database
db = record {
  peers =
      peer owner (codes "0") 0
      ∷ peer member (codes "1") 1_000_000
      ∷ peer stranger (codes "2") 2_000_000
      ∷ [];
  shares =
      record {
        share_id = music;
        name = music;
        owner_id = owner;
        created_at = 3_000_000;
        upload_limit_bps = 0;
        download_limit_bps = 0;
      }
      ∷ [];
  members =
      record { share_id = music; peer_id = owner; permission = read_write; added_at = 4_000_000 }
      ∷ record { share_id = music; peer_id = member; permission = read_only; added_at = 5_000_000 }
      ∷ [];
  announcements = [];
}

run-history : (run env history empty_server).db ≡ db
unfolding run handle register_peer_rpc create_share_rpc add_peer_to_share_rpc require_auth
    authenticated_peer token_owner extract_bearer_token hash_token verify_register_peer
    verify_create_share log metric metric_rpc publish_event Table.find text_beq encode
    require_share_owner build_share_peers members_of select build_share_peer perm_proto_to_model
run-history = refl

pub db-IsValid : IsValid db
db-IsValid = subst IsValid run-history (run-IsValid env history empty_server empty-IsValid)

abbrev pub server : Server
server = record empty_server { db = db; wall_reads = 10; tokens_made = 3 }

abbrev pub hello : AnnounceRequest
hello = record {
  share_id = music;
  peer_id = member;
  internal_addrs = record { host = codes "10.0.0.2"; port = 4000; is_lan = true } ∷ [];
  ttl_seconds = 120;
  signature = member;
  info_hash = [];
}

abbrev pub throttle : Call
throttle =
    set_share_policy
      (record { share_id = music; upload_limit_bps = pos 1000; download_limit_bps = pos 1000 })

abbrev as_owner : Context
as_owner = with_token (codes "0")

abbrev pub as_member : Context
as_member = with_token (codes "1")

abbrev pub as_stranger : Context
as_stranger = with_token (codes "2")
