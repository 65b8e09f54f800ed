-- ===== src/Registry/Shares.antt =====
-- `CreateShare`, `GetShare` and `SetSharePolicy` of registry/servicer/registry.py.
use peerdup.Prelude.{ℕ, Text, max_zero, none, some, [], ◌∷◌, ◌++◌, text_eq, pair_eq, if◌then◌else◌}
use peerdup.Prelude.Table
use peerdup.Registry.Models.{read_write, ShareRow, MemberRow, Database, share_key, member_key}
use peerdup.Registry.Messages.{
  Share, SharePolicy, CreateShareRequest, SetSharePolicyRequest, SetSharePolicyResponse,
  policy_updated, unauthenticated, permission_denied, not_found, already_exists, invalid_signature,
  share_not_found, share_already_exists, not_a_member,
}
use peerdup.Registry.Service.{
  Env, Context, create_share, get_share, set_share_policy, ok, denied, Action, pure, gets, abort,
  or_abort, write, ◌>>=◌, ◌>>◌, now, log, publish_event,
}
use peerdup.Registry.Crypto.{verify_create_share}
use peerdup.Registry.Address.{remote_ip}
use peerdup.Registry.Auth.{require_auth, require_share_owner}
use peerdup.Registry.Views.{members_of, build_share_peers, share_message}

-- The share and its owner's membership, in one commit.
abbrev pub add_share : ShareRow → MemberRow → Database → Database
add_share share m db = record db {
  shares = db.shares ++ share ∷ [];
  members = db.members ++ m ∷ [];
}

abbrev pub set_limits : ℕ → ℕ → ShareRow → ShareRow
set_limits up down share = record share { upload_limit_bps = up; download_limit_bps = down }

abbrev pub put_share : Text → (ShareRow → ShareRow) → Database → Database
put_share share_id f db = record db { shares = Table.update share_key share_id f db.shares }

module _ (env : Env) (context : Context) where
  insert_share : CreateShareRequest → Text → Action ShareRow
  insert_share request caller_id = do
    created_at ← now env
    added_at ← now env
    let share : ShareRow = record {
      share_id = request.share_id;
      name = request.name;
      owner_id = caller_id;
      created_at = created_at;
      upload_limit_bps = 0;
      download_limit_bps = 0;
    }
    let owner : MemberRow = record {
      share_id = request.share_id;
      peer_id = caller_id;
      permission = read_write;
      added_at = added_at;
    }
    write (add_share share owner)
    pure share

  create_verified : CreateShareRequest → Text → Action Share
  unfolding insert_share
  create_verified request caller_id = do
    existing ← gets (λ s. Table.has share_key request.share_id s.db.shares)
    if existing
        then (do
          log env create_share caller_id denied request.share_id (remote_ip context)
          abort already_exists share_already_exists)
        else (do
          share ← insert_share request caller_id
          log env create_share caller_id ok request.share_id (remote_ip context)
          pure (share_message share [] (some share.created_at)))

  unfoldable pub create_share_rpc : CreateShareRequest → Action Share
  unfolding create_verified
  create_share_rpc request = do
    caller_id ← require_auth env context
    if verify_create_share env caller_id request.share_id request.name request.signature
        then create_verified request caller_id
        else (do
          log env create_share caller_id denied request.share_id (remote_ip context)
          abort unauthenticated invalid_signature)

  show_share : Text → Text → ShareRow → Action Share
  show_share share_id caller_id share = do
    members ← gets (λ s. members_of share_id s.db)
    peers ← build_share_peers env members
    log env get_share caller_id ok share_id (remote_ip context)
    pure (share_message share peers (some share.created_at))

  unfoldable pub get_share_rpc : Text → Action Share
  unfolding show_share
  get_share_rpc share_id = do
    caller_id ← require_auth env context
    found ← gets (λ s. Table.find share_key share_id s.db.shares)
    share ← or_abort found not_found share_not_found
    is_member ← gets (λ s. Table.has member_key (share_id, caller_id) s.db.members)
    if is_member then show_share share_id caller_id share else do
      log env get_share caller_id denied share_id (remote_ip context)
      abort permission_denied not_a_member

  set_policy : SetSharePolicyRequest → Action SharePolicy
  set_policy request = do
    let up = max_zero request.upload_limit_bps
    let down = max_zero request.download_limit_bps
    found ← gets (λ s. Table.find share_key request.share_id s.db.shares)
    or_abort found not_found share_not_found
    write (put_share request.share_id (set_limits up down))
    pure (record { upload_limit_bps = up; download_limit_bps = down })

  announce_policy : SetSharePolicyRequest → SharePolicy → Action (Unit {0})
  announce_policy request policy = do
    time ← now env
    publish_event env request.share_id
        (record { type = policy_updated; peer = none; occurred_at = time; policy = some policy })

  unfoldable pub set_share_policy_rpc : SetSharePolicyRequest → Action SetSharePolicyResponse
  unfolding set_policy announce_policy
  set_share_policy_rpc request = do
    caller_id ← require_auth env context
    require_share_owner env context request.share_id caller_id set_share_policy
    policy ← set_policy request
    log env set_share_policy caller_id ok request.share_id (remote_ip context)
    announce_policy request policy
    pure (record { share_id = request.share_id; policy = policy })
