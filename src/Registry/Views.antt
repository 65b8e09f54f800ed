-- ===== src/Registry/Views.antt =====
-- The messages built from rows in registry/servicer/registry.py: permissions, policies, and the
-- members of a share with their announcements.
use mathlib.Core.Option.{get_or}
use peerdup.Prelude.{
  ℕ, ◌^◌, Text, ℤ, pos, negsuc, is_nat, truthy, Bool, false, Option, none, some, List, [], ◌∷◌,
  ◌++◌, ltb, ◌==◌, text_eq, pair_eq, if◌then◌else◌, select,
}
use peerdup.Prelude.Table
use peerdup.Registry.Models.{
  PermissionEnum, PeerAddress, ShareRow, MemberRow, AnnouncementRow, Database, peer_key,
  announcement_key,
}
use peerdup.Registry.Messages.{Permission, SharePolicy, SharePeer, Share, value_error}
use peerdup.Registry.Service.{Env, Action, pure, raise, gets, ◌>>=◌, now}

abbrev pub perm_model_to_proto : PermissionEnum → Permission
perm_model_to_proto PermissionEnum.read_write = Permission.read_write
perm_model_to_proto PermissionEnum.read_only = Permission.read_only
perm_model_to_proto PermissionEnum.encrypted = Permission.encrypted

-- The field of the request holds any 32-bit number; the default is READ_WRITE.
unfoldable pub perm_proto_to_model : ℤ → PermissionEnum
perm_proto_to_model perm =
    if is_nat perm 2
    then PermissionEnum.read_only
    else if is_nat perm 3
    then PermissionEnum.encrypted
    else PermissionEnum.read_write

-- `port or 0` in a uint32 field.
unfoldable pub port_field : Option ℤ → Action ℕ
port_field none = pure 0
port_field (some (pos n)) = if ltb n (2 ^ 32) then pure n else raise value_error
port_field (some (negsuc n)) = raise value_error

-- The observed address, if there is one, behind the announced ones.
unfoldable pub with_external : List PeerAddress → Option Text → Option ℤ → Action (List PeerAddress)
unfolding port_field
with_external addrs host port =
    if truthy (get_or host [])
    then (do
      n ← port_field port
      pure (addrs ++ record { host = get_or host []; port = n; is_lan = false } ∷ []))
    else pure addrs

abbrev pub is_online : ℕ → AnnouncementRow → Bool
is_online time ann = ltb time ann.expires_at

-- membership.peer.name if membership.peer else membership.peer_id
unfoldable pub member_name : MemberRow → Database → Text
member_name m db = elim (Table.find peer_key m.peer_id db.peers) [
  | some peer ↦ peer.name
  | none ↦ m.peer_id
]

unfoldable pub share_policy : ShareRow → SharePolicy
share_policy share = record {
  upload_limit_bps = share.upload_limit_bps;
  download_limit_bps = share.download_limit_bps;
}

-- `share.members`
unfoldable pub members_of : Text → Database → List MemberRow
members_of share_id db = select (λ m. m.share_id == share_id) db.members

abbrev pub offline_peer : MemberRow → Text → SharePeer
offline_peer m name = record {
  peer_id = m.peer_id;
  name = name;
  permission = perm_model_to_proto m.permission;
  online = false;
  addresses = [];
  last_seen = none;
  info_hash = [];
}

abbrev pub announced_message : MemberRow → Text → AnnouncementRow → ℕ → List PeerAddress → SharePeer
announced_message m name ann time addrs = record {
  peer_id = m.peer_id;
  name = name;
  permission = perm_model_to_proto m.permission;
  online = is_online time ann;
  addresses = addrs;
  last_seen = some ann.announced_at;
  info_hash = get_or ann.info_hash [];
}

module _ (env : Env) where
  unfoldable pub announced_peer : MemberRow → Text → AnnouncementRow → Action SharePeer
  announced_peer m name ann = do
    time ← now env
    addrs ←
        (if is_online time ann
          then with_external ann.internal_addrs ann.external_host ann.external_port
          else pure [])
    pure (announced_message m name ann time addrs)

  unfoldable pub build_share_peer : MemberRow → Action SharePeer
  unfolding announced_peer with_external member_name
  build_share_peer m = do
    name ← gets (λ s. member_name m s.db)
    ann ← gets (λ s. Table.find announcement_key (m.share_id, m.peer_id) s.db.announcements)
    elim ann [ none ↦ pure (offline_peer m name) | some a ↦ announced_peer m name a ]

  unfoldable pub build_share_peers : List MemberRow → Action (List SharePeer)
  build_share_peers [] = pure []
  build_share_peers (m ∷ ms) = do p ← build_share_peer m; ps ← build_share_peers ms; pure (p ∷ ps)

abbrev pub share_message : ShareRow → List SharePeer → Option ℕ → Share
share_message share peers created_at = record {
  share_id = share.share_id;
  name = share.name;
  owner_id = share.owner_id;
  peers = peers;
  created_at = created_at;
  policy = share_policy share;
}
