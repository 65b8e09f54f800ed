-- ===== src/Registry/Announce.antt =====
-- `Announce` of registry/servicer/registry.py.
use mathlib.Core.Option.{get_or}
use peerdup.Prelude.{
  ℕ, zero, suc, ◌+◌, ◌*◌, Text, take, ℤ, Bool, true, false, not, Option, none, some, List, [], ◌∷◌,
  ◌++◌, ◌==◌, text_eq, pair_eq, if◌then◌else◌,
}
use peerdup.Prelude.Table
use peerdup.Registry.Models.{PeerAddress, AnnouncementRow, Database, member_key, announcement_key}
use peerdup.Registry.Messages.{
  SharePeer, PeerEvent, EventType, AnnounceRequest, AnnounceResponse, updated, online, unspecified,
  unauthenticated, permission_denied, resource_exhausted, peer_id_must_match,
  invalid_announce_signature, not_a_member, retry_after,
}
use peerdup.Registry.Service.{
  Env, Context, announce, record_announce, ok, Action, pure, gets, write, ◌>>=◌, ◌>>◌, now,
  monotonic, log, publish_event, metric, metric_rpc,
}
use peerdup.Registry.Crypto.{verify_announce}
use peerdup.Registry.Address.{parse_peer_addr, remote_ip}
use peerdup.Registry.Auth.{require_auth, refuse}
use peerdup.Registry.Limiter.{allowed, refused, is_allowed}
use peerdup.Registry.Ttl.{ttl_min_seconds, clamp_ttl}
use peerdup.Registry.Views.{is_online, port_field, with_external}

abbrev pub seconds : ℕ → ℕ
seconds n = n * 1_000_000

-- `request.ttl_seconds or TTL_MIN_SECONDS`, clamped.
unfoldable pub granted_ttl : ℕ → ℕ
unfolding clamp_ttl
granted_ttl zero = clamp_ttl ttl_min_seconds
granted_ttl (suc n) = clamp_ttl (suc n)

-- `info_hash or old`
abbrev pub or_old : Text → Option Text → Option Text
or_old [] old = old
or_old (c ∷ t) old = some (c ∷ t)

-- ext_host, ext_port
abbrev pub host_of : Option (Text × ℤ) → Option Text
host_of none = none
host_of (some (host, port)) = some host

abbrev pub port_of : Option (Text × ℤ) → Option ℤ
port_of none = none
port_of (some (host, port)) = some port

-- What an announcement writes to the row that is there.
abbrev pub renew : AnnounceRequest → Option (Text × ℤ) → ℕ → ℕ → AnnouncementRow → AnnouncementRow
renew request external announced_at expires_at row = record row {
  internal_addrs = request.internal_addrs;
  external_host = host_of external;
  external_port = port_of external;
  info_hash = or_old request.info_hash row.info_hash;
  announced_at = announced_at;
  expires_at = expires_at;
}

abbrev pub first_row : AnnounceRequest → Option (Text × ℤ) → ℕ → ℕ → AnnouncementRow
first_row request external announced_at expires_at = record {
  share_id = request.share_id;
  peer_id = request.peer_id;
  internal_addrs = request.internal_addrs;
  external_host = host_of external;
  external_port = port_of external;
  info_hash = or_old request.info_hash none;
  announced_at = announced_at;
  expires_at = expires_at;
}

abbrev pub request_key : AnnounceRequest → Text × Text
request_key request = (request.share_id, request.peer_id)

abbrev pub put_announcement :
    Text × Text → (AnnouncementRow → AnnouncementRow) → Database → Database
put_announcement key f db = record db {
  announcements = Table.update announcement_key key f db.announcements;
}

abbrev pub add_announcement : AnnouncementRow → Database → Database
add_announcement row db = record db { announcements = db.announcements ++ row ∷ [] }

abbrev event_type : Bool → EventType
event_type true = updated
event_type false = online

abbrev pub announced_event : AnnounceRequest → Bool → ℕ → List PeerAddress → PeerEvent
announced_event request was_online time addrs =
    let peer : SharePeer = record {
      peer_id = request.peer_id;
      name = [];
      permission = unspecified;
      online = true;
      addresses = addrs;
      last_seen = none;
      info_hash = request.info_hash;
    } in
    record { type = event_type was_online; peer = some peer; occurred_at = time; policy = none }

abbrev pub announce_response : Option (Text × ℤ) → ℕ → ℕ → AnnounceResponse
announce_response external ttl port = record {
  observed_external = record { host = get_or (host_of external) []; port = port; is_lan = false };
  ttl_seconds = ttl;
}

module _ (env : Env) (context : Context) where
  rewrite_announcement : AnnounceRequest → Option (Text × ℤ) → ℕ → AnnouncementRow → Action Bool
  rewrite_announcement request external expires row = do
    time ← now env
    announced_at ← now env
    write (put_announcement (request_key request) (renew request external announced_at expires))
    pure (is_online time row)

  insert_announcement : AnnounceRequest → Option (Text × ℤ) → ℕ → Action Bool
  insert_announcement request external expires = do
    announced_at ← now env
    write (add_announcement (first_row request external announced_at expires))
    pure false

  -- The answer says whether the peer was online before.
  upsert_announcement : AnnounceRequest → Option (Text × ℤ) → ℕ → Action Bool
  unfolding rewrite_announcement insert_announcement
  upsert_announcement request external expires = do
    existing ← gets (λ s. Table.find announcement_key (request_key request) s.db.announcements)
    elim existing [
      | some row ↦ rewrite_announcement request external expires row
      | none ↦ insert_announcement request external expires
    ]

  unfoldable pub publish_announced : AnnounceRequest → Option (Text × ℤ) → Bool → Action (Unit {0})
  publish_announced request external was_online = do
    time ← now env
    addrs ← with_external request.internal_addrs (host_of external) (port_of external)
    publish_event env request.share_id (announced_event request was_online time addrs)

  unfoldable pub respond : Option (Text × ℤ) → ℕ → Action AnnounceResponse
  respond external ttl = do
    port ← port_field (port_of external)
    pure (announce_response external ttl port)

  -- The part behind the checks.
  unfoldable pub accept : AnnounceRequest → Text → ℕ → Action AnnounceResponse
  unfolding upsert_announcement publish_announced respond
  accept request caller_id start = do
    let external = parse_peer_addr context.peer
    let ttl = granted_ttl request.ttl_seconds
    time ← now env
    was_online ← upsert_announcement request external (time + seconds ttl)
    publish_announced request external was_online
    log env announce caller_id ok request.share_id (remote_ip context)
    metric env (record_announce (take 8 request.share_id))
    metric_rpc env announce start
    respond external ttl

  unfoldable pub limited : AnnounceRequest → Text → ℕ → Action AnnounceResponse
  unfolding accept
  limited request caller_id start = do
    verdict ← is_allowed env request.peer_id request.share_id
    elim verdict [
      | allowed ↦ accept request caller_id start
      | refused num den ↦
          refuse env context announce caller_id request.share_id resource_exhausted
            (retry_after num den)
    ]

  unfoldable pub checked : AnnounceRequest → Text → ℕ → Action AnnounceResponse
  unfolding limited
  checked request caller_id start = do
    is_member ← gets (λ s. Table.has member_key (request_key request) s.db.members)
    if is_member
        then limited request caller_id start
        else refuse env context announce caller_id request.share_id permission_denied not_a_member

  unfoldable pub authorised : AnnounceRequest → Text → ℕ → Action AnnounceResponse
  unfolding checked
  authorised request caller_id start =
      if not (caller_id == request.peer_id)
      then refuse env context announce caller_id request.share_id permission_denied
          peer_id_must_match
      else if verify_announce env request.peer_id request.share_id request.internal_addrs
          request.ttl_seconds request.signature
      then checked request caller_id start
      else refuse env context announce caller_id request.share_id unauthenticated
          invalid_announce_signature

  unfoldable pub announce_rpc : AnnounceRequest → Action AnnounceResponse
  unfolding authorised
  announce_rpc request = do
    start ← monotonic env
    caller_id ← require_auth env context
    authorised request caller_id start
