-- ===== src/Registry/Auth.antt =====
-- The authentication helpers of `RegistryServicer`: registry/servicer/registry.py.
pub mod Cases
use peerdup.Prelude.{
  Text, codes, truthy, Bool, Option, none, some, not, if◌then◌else◌, ◌==◌, text_eq, pair_eq,
}
use peerdup.Prelude.Table
use peerdup.Registry.Models.{PeerRow, ShareRow, MemberRow, Database, share_key, member_key}
use peerdup.Registry.Messages.{
  StatusCode, Details, unauthenticated, permission_denied, not_found, valid_bearer_token_required,
  not_a_member, share_not_found, only_the_owner,
}
use peerdup.Registry.Service.{
  Env, Context, AuditAction, auth_failure, denied, Action, pure, gets, abort, ◌>>=◌, ◌>>◌, log,
}
use peerdup.Registry.Crypto.{extract_bearer_token, hash_token}
use peerdup.Registry.Address.{remote_ip}

abbrev pub token_hash_of : PeerRow → Text
token_hash_of r = r.token_hash

module _ (env : Env) (context : Context) where
  -- The peer whose token has this hash.
  unfoldable pub token_owner : Text → Database → Option Text
  token_owner token db = elim (Table.find token_hash_of (hash_token env token) db.peers) [
    | none ↦ none
    | some peer ↦ some peer.peer_id
  ]

  unfoldable pub authenticated_peer : Database → Option Text
  authenticated_peer db = elim (extract_bearer_token context) [
    | none ↦ none
    | some token ↦ if truthy token then token_owner token db else none
  ]

  refuse_auth : {A : Type 0} → Action A
  refuse_auth = do
    log env auth_failure (codes "") denied (codes "") (remote_ip context)
    abort unauthenticated valid_bearer_token_required

  unfoldable pub require_auth : Action Text
  unfolding refuse_auth
  require_auth = do
    peer_id ← gets (λ s. authenticated_peer s.db)
    elim peer_id [ none ↦ refuse_auth | some p ↦ if truthy p then pure p else refuse_auth ]

  unfoldable pub refuse : {A : Type 0} → AuditAction → Text → Text → StatusCode → Details → Action A
  refuse action caller_id share_id status details = do
    log env action caller_id denied share_id (remote_ip context)
    abort status details

  unfoldable pub require_share_member : Text → Text → AuditAction → Action MemberRow
  unfolding refuse
  require_share_member share_id caller_id action = do
    m ← gets (λ s. Table.find member_key (share_id, caller_id) s.db.members)
    elim m [
      | none ↦ refuse action caller_id share_id permission_denied not_a_member
      | some row ↦ pure row
    ]

  unfoldable pub require_share_owner : Text → Text → AuditAction → Action ShareRow
  unfolding refuse
  require_share_owner share_id caller_id action = do
    share ← gets (λ s. Table.find share_key share_id s.db.shares)
    elim share [
      | none ↦ refuse action caller_id share_id not_found share_not_found
      | some row ↦
          if row.owner_id == caller_id
          then pure row
          else refuse action caller_id share_id permission_denied only_the_owner
    ]
