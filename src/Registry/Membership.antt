-- ===== src/Registry/Membership.antt =====
-- `AddPeerToShare` and `RemovePeerFromShare` of registry/servicer/registry.py.
use peerdup.Prelude.{Text, false, none, some, [], ◌∷◌, ◌++◌, ◌==◌, text_eq, pair_eq, if◌then◌else◌}
use peerdup.Prelude.Table
use peerdup.Registry.Models.{
  PermissionEnum, MemberRow, Database, peer_key, share_key, member_key, announcement_key,
}
use peerdup.Registry.Messages.{
  Share, AddPeerToShareRequest, RemovePeerFromShareRequest, removed, unspecified, not_found,
  invalid_argument, target_peer_not_found, owner_cannot_remove, attribute_error,
}
use peerdup.Registry.Service.{
  Env, Context, add_peer_to_share, remove_peer_from_share, ok, Action, pure, raise, gets, abort_if,
  or_abort, write, ◌>>=◌, ◌>>◌, now, log, publish_event,
}
use peerdup.Registry.Address.{remote_ip}
use peerdup.Registry.Auth.{require_auth, require_share_owner}
use peerdup.Registry.Views.{perm_proto_to_model, members_of, build_share_peers, share_message}

abbrev pub set_permission : PermissionEnum → MemberRow → MemberRow
set_permission p m = record m { permission = p }

abbrev pub put_member : Text × Text → (MemberRow → MemberRow) → Database → Database
put_member key f db = record db { members = Table.update member_key key f db.members }

abbrev pub add_member : MemberRow → Database → Database
add_member m db = record db { members = db.members ++ m ∷ [] }

-- The membership and the announcement go in one commit; either may be missing.
abbrev pub drop_member : Text × Text → Database → Database
drop_member key db = record db {
  members = Table.delete member_key key db.members;
  announcements = Table.delete announcement_key key db.announcements;
}

module _ (env : Env) (context : Context) where
  insert_member : AddPeerToShareRequest → Action (Unit {0})
  insert_member request = do
    added_at ← now env
    let row : MemberRow = record {
      share_id = request.share_id;
      peer_id = request.peer_id;
      permission = perm_proto_to_model request.permission;
      added_at = added_at;
    }
    write (add_member row)

  upsert_member : AddPeerToShareRequest → Action (Unit {0})
  unfolding insert_member
  upsert_member request = do
    let permission = perm_proto_to_model request.permission
    existing ← gets (λ s. Table.has member_key (request.share_id, request.peer_id) s.db.members)
    if existing
        then write (put_member (request.share_id, request.peer_id) (set_permission permission))
        else insert_member request

  -- `_publish_updated` does nothing yet, so no event is published here.
  unfoldable pub updated_share : AddPeerToShareRequest → Text → Action Share
  updated_share request caller_id = do
    found ← gets (λ s. Table.find share_key request.share_id s.db.shares)
    elim found [
      | none ↦ raise attribute_error
      | some share ↦ do
        members ← gets (λ s. members_of request.share_id s.db)
        peers ← build_share_peers env members
        log env add_peer_to_share caller_id ok request.share_id (remote_ip context)
        pure (share_message share peers none)
    ]

  unfoldable pub add_peer_to_share_rpc : AddPeerToShareRequest → Action Share
  unfolding upsert_member updated_share
  add_peer_to_share_rpc request = do
    caller_id ← require_auth env context
    require_share_owner env context request.share_id caller_id add_peer_to_share
    found ← gets (λ s. Table.find peer_key request.peer_id s.db.peers)
    or_abort found not_found target_peer_not_found
    upsert_member request
    updated_share request caller_id

  publish_removed : Text → Text → Action (Unit {0})
  publish_removed share_id peer_id = do
    time ← now env
    publish_event env share_id (record {
      type = removed;
      peer = some (record {
        peer_id = peer_id;
        name = [];
        permission = unspecified;
        online = false;
        addresses = [];
        last_seen = none;
        info_hash = [];
      });
      occurred_at = time;
      policy = none;
    })

  unfoldable pub remove_peer_from_share_rpc : RemovePeerFromShareRequest → Action (Unit {0})
  unfolding publish_removed
  remove_peer_from_share_rpc request = do
    caller_id ← require_auth env context
    require_share_owner env context request.share_id caller_id remove_peer_from_share
    abort_if (request.peer_id == caller_id) invalid_argument owner_cannot_remove
    write (drop_member (request.share_id, request.peer_id))
    publish_removed request.share_id request.peer_id
    log env remove_peer_from_share caller_id ok request.share_id (remote_ip context)
