-- ===== src/Registry/Messages.antt =====
-- registry/proto/registry.proto: the messages that the handlers build, and the errors that end a
-- call. `context.abort` raises, so a handler returns a message or an error.
use peerdup.Prelude.{ℕ, Text, Bytes, ℤ, Bool, Option}
use peerdup.Prelude.{List}
use peerdup.Registry.Models.{PeerAddress}

pub data Permission : Type 0 where
  unspecified read_write read_only encrypted : Permission

pub record SharePolicy : Type 0 where
  pub upload_limit_bps : ℕ
  pub download_limit_bps : ℕ

pub record Peer : Type 0 where
  pub peer_id : Text
  pub name : Text
  pub addresses : List PeerAddress
  pub online : Bool
  pub last_seen : Option ℕ

pub record SharePeer : Type 0 where
  pub peer_id : Text
  pub name : Text
  pub permission : Permission
  pub online : Bool
  pub addresses : List PeerAddress
  pub last_seen : Option ℕ
  pub info_hash : Text

pub record Share : Type 0 where
  pub share_id : Text
  pub name : Text
  pub owner_id : Text
  pub peers : List SharePeer
  pub created_at : Option ℕ
  pub policy : SharePolicy

-- The servicer makes no event of the unspecified type.
pub data EventType : Type 0 where
  online offline updated removed policy_updated : EventType

pub record PeerEvent : Type 0 where
  pub type : EventType
  pub peer : Option SharePeer
  pub occurred_at : ℕ
  pub policy : Option SharePolicy

pub data HealthStatus : Type 0 where
  healthy degraded unhealthy : HealthStatus

pub data StatusCode : Type 0 where
  unauthenticated permission_denied not_found already_exists invalid_argument resource_exhausted :
      StatusCode

-- The text beside the status; `retry_after` carries the numerator and the denominator of the wait.
pub data Details : Type 0 where
  valid_bearer_token_required invalid_signature peer_not_found share_already_exists share_not_found
        not_a_member only_the_owner target_peer_not_found owner_cannot_remove peer_id_must_match
        invalid_announce_signature :
      Details
  retry_after : ℕ → ℕ → Details

-- A call ends by `context.abort`, or by an exception of its own: a number that does not fit a
-- message's field, or a row that is gone.
pub data Error : Type 0 where
  aborted : StatusCode → Details → Error
  value_error attribute_error : Error

pub record RegisterPeerRequest : Type 0 where
  pub peer_id : Text
  pub name : Text
  pub signature : Bytes

pub record RegisterPeerResponse : Type 0 where
  pub peer : Peer
  pub token : Text

pub record CreateShareRequest : Type 0 where
  pub share_id : Text
  pub name : Text
  pub signature : Bytes

pub record AddPeerToShareRequest : Type 0 where
  pub share_id : Text
  pub peer_id : Text
  pub permission : ℤ

pub record RemovePeerFromShareRequest : Type 0 where
  pub share_id : Text
  pub peer_id : Text

pub record SetSharePolicyRequest : Type 0 where
  pub share_id : Text
  pub upload_limit_bps : ℤ
  pub download_limit_bps : ℤ

pub record AnnounceRequest : Type 0 where
  pub share_id : Text
  pub peer_id : Text
  pub internal_addrs : List PeerAddress
  pub ttl_seconds : ℕ
  pub signature : Bytes
  pub info_hash : Text

pub record AnnounceResponse : Type 0 where
  pub observed_external : PeerAddress
  pub ttl_seconds : ℕ

pub record GetSharePeersRequest : Type 0 where
  pub share_id : Text
  pub online_only : Bool

pub record GetSharePeersResponse : Type 0 where
  pub peers : List SharePeer
  pub policy : SharePolicy

pub record WatchSharePeersRequest : Type 0 where
  pub share_id : Text
  pub include_offline : Bool

pub record SetSharePolicyResponse : Type 0 where
  pub share_id : Text
  pub policy : SharePolicy

-- Without `version`, which is a constant. The status is the text "ok", "degraded" or "error".
pub record HealthResponse : Type 0 where
  pub status : HealthStatus
  pub uptime_s : ℕ
  pub peers_registered : ℕ
  pub shares_registered : ℕ
  pub peers_online_now : ℕ
  pub db_ok : Bool
  pub ttl_sweep_ok : Bool

-- The stubs `announce_rate_per_hour` and `peak_peers_24h` are always 0. `last_announce_at` is the
-- time that the source formats, and `none` its empty text.
pub record GetShareActivityResponse : Type 0 where
  pub share_id : Text
  pub peers_online : ℕ
  pub announce_rate_per_hour : ℕ
  pub peak_peers_24h : ℕ
  pub last_announce_at : Option ℕ
