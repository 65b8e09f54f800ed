-- ===== src/Registry/Changes/Sharing.antt =====
-- Case rules for the handlers that write peers, shares and memberships.
use peerdup.Prelude.{
  ℕ, Text, max_zero, Bool, true, false, ◌≡◌, inl, inr, some, Option-cases, Bool-cases, ◌==◌,
  text_eq, pair_eq,
}
use peerdup.Prelude.Table
use peerdup.Registry.Models.{
  PermissionEnum, read_write, PeerRow, ShareRow, MemberRow, Database, peer_key, share_key,
  member_key,
}
use peerdup.Registry.Messages.{
  RegisterPeerRequest, CreateShareRequest, SetSharePolicyRequest, AddPeerToShareRequest,
  RemovePeerFromShareRequest,
}
use peerdup.Registry.Service.{Env, Context, Server, log, publish_event, andthen}
use peerdup.Registry.Crypto.{hash_token, verify_register_peer, verify_create_share}
use peerdup.Registry.Auth.{authenticated_peer}
use peerdup.Registry.Views.{perm_proto_to_model, members_of, build_share_peers}
use peerdup.Registry.Rules.{
  End, Reads-bind, build_share_peers-Reads, require_auth-End, require_share_owner-End,
}
use peerdup.Registry.Peers.{register_peer_rpc, rotate, put_peer, add_peer}
use peerdup.Registry.Shares.{
  create_share_rpc, set_share_policy_rpc, add_share, set_limits, put_share,
}
use peerdup.Registry.Membership.{
  add_peer_to_share_rpc, updated_share, remove_peer_from_share_rpc, set_permission, put_member,
  add_member, drop_member,
}

abbrev pub new_peer : Text → Text → Text → ℕ → PeerRow
new_peer peer_id name token_hash created_at = record {
  peer_id = peer_id;
  name = name;
  token_hash = token_hash;
  created_at = created_at;
}

abbrev pub new_share : Text → Text → Text → ℕ → ShareRow
new_share share_id name owner_id created_at = record {
  share_id = share_id;
  name = name;
  owner_id = owner_id;
  created_at = created_at;
  upload_limit_bps = 0;
  download_limit_bps = 0;
}

abbrev pub new_member : Text → Text → PermissionEnum → ℕ → MemberRow
new_member share_id peer_id permission added_at = record {
  share_id = share_id;
  peer_id = peer_id;
  permission = permission;
  added_at = added_at;
}

module _ (env : Env) (context : Context) (P : Bool → Database → Type 0) (s : Server) where
  -- What is shown of `P` when a peer is registered, under the hash of the next token.
  abbrev pub Registers : RegisterPeerRequest → Type 0
  Registers r =
      (time : ℕ)
      → verify_register_peer env r.peer_id r.name r.signature ≡ true
      → let h = hash_token env (env.token_urlsafe s.tokens_made) in
        (Table.has peer_key r.peer_id s.db.peers ≡ true
          → P false (put_peer r.peer_id (rotate r.name h) s.db))
        × (Table.has peer_key r.peer_id s.db.peers ≡ false
            → P false (add_peer (new_peer r.peer_id r.name h time) s.db))

  pub register_peer_cases :
      (r : RegisterPeerRequest)
      → P true s.db
      → Registers r
      → End P (register_peer_rpc env context r s)
  unfolding register_peer_rpc log
  register_peer_cases r refused passed =
      elim (Bool-cases (verify_register_peer env r.peer_id r.name r.signature)) [
        | inl v ↦ rw v (elim (Option-cases (Table.find peer_key r.peer_id s.db.peers)) [
          | inl e ↦ rw (e, andthen) ((passed (env.wall_clock s.wall_reads) v).1 (rw e))
          | inr (row, e) ↦ rw (e, andthen) ((passed 0 v).0 (rw e))
        ])
        | inr f ↦ rw f refused
      ]

  -- What is shown of `P` when a share is created.
  abbrev pub Creates : CreateShareRequest → Type 0
  Creates r =
      (caller : Text) (created_at added_at : ℕ)
      → authenticated_peer env context s.db ≡ some caller
      → verify_create_share env caller r.share_id r.name r.signature ≡ true
      → Table.has share_key r.share_id s.db.shares ≡ false
      → P false (
          add_share (new_share r.share_id r.name caller created_at)
            (new_member r.share_id caller read_write added_at) s.db)

  pub create_share_cases :
      (r : CreateShareRequest) → P true s.db → Creates r → End P (create_share_rpc env context r s)
  unfolding create_share_rpc log
  create_share_cases r refused created = require_auth-End env context P s _ refused λ p auth.
      elim (Bool-cases (verify_create_share env p r.share_id r.name r.signature)) [
        | inl v ↦ rw v (elim (Bool-cases (Table.has share_key r.share_id s.db.shares)) [
          | inl h ↦ rw h refused
          | inr n ↦ rw n (created p _ _ auth v n)
        ])
        | inr f ↦ rw f refused
      ]

  -- What is shown of `P` when a share's policy is set.
  abbrev pub SetsPolicy : SetSharePolicyRequest → Type 0
  SetsPolicy r =
      (caller : Text) (row : ShareRow)
      → authenticated_peer env context s.db ≡ some caller
      → Table.find share_key r.share_id s.db.shares ≡ some row
      → row.owner_id ≡ caller
      → P false (
          put_share r.share_id
            (set_limits (max_zero r.upload_limit_bps) (max_zero r.download_limit_bps)) s.db)

  pub set_share_policy_cases :
      (r : SetSharePolicyRequest)
      → P true s.db
      → SetsPolicy r
      → End P (set_share_policy_rpc env context r s)
  unfolding set_share_policy_rpc log publish_event
  set_share_policy_cases r refused changed = require_auth-End env context P s _ refused λ p auth.
      require_share_owner-End env context P s r.share_id p _ _ refused
        λ row found owns. rw (found, andthen) (changed p row auth found owns)

  -- Behind the write, the answer is read from the share that was found.
  updated_share-End :
      (r : AddPeerToShareRequest) (caller : Text) (t : Server) (row : ShareRow)
      → Table.find share_key r.share_id t.db.shares ≡ some row
      → P false t.db
      → End P (updated_share env context r caller t)
  unfolding updated_share log
  updated_share-End r caller t row found written =
      rw (found, andthen)
        (Reads-bind (build_share_peers env (members_of r.share_id t.db)) _ P t
          (build_share_peers-Reads env (members_of r.share_id t.db)) written
          (λ ps u same. rw same written))

  -- What is shown of `P` when a peer is given a permission.
  abbrev pub Grants : AddPeerToShareRequest → Type 0
  Grants r =
      (caller : Text) (row : ShareRow) (time : ℕ)
      → authenticated_peer env context s.db ≡ some caller
      → Table.find share_key r.share_id s.db.shares ≡ some row
      → row.owner_id ≡ caller
      → Table.has peer_key r.peer_id s.db.peers ≡ true
      → (Table.has member_key (r.share_id, r.peer_id) s.db.members ≡ true
          → P false (
              put_member (r.share_id, r.peer_id) (set_permission (perm_proto_to_model r.permission))
                s.db))
        × (Table.has member_key (r.share_id, r.peer_id) s.db.members ≡ false
            → P false (
                add_member (new_member r.share_id r.peer_id (perm_proto_to_model r.permission) time)
                  s.db))

  pub add_peer_to_share_cases :
      (r : AddPeerToShareRequest)
      → P true s.db
      → Grants r
      → End P (add_peer_to_share_rpc env context r s)
  unfolding add_peer_to_share_rpc log
  add_peer_to_share_cases r refused granted = require_auth-End env context P s _ refused λ p auth.
      require_share_owner-End env context P s r.share_id p _ _ refused λ row found owns.
        elim (Option-cases (Table.find peer_key r.peer_id s.db.peers)) [
          | inl e ↦ rw (e, andthen) refused
          | inr (peer, e) ↦
              rw (e, andthen)
                (elim (Bool-cases (Table.has member_key (r.share_id, r.peer_id) s.db.members)) [
                  | inl h ↦ rw h (
                      updated_share-End r p _ row found
                        ((granted p row 0 auth found owns (rw e)).0 h))
                  | inr n ↦ rw n (
                      updated_share-End r p _ row found
                        ((granted p row _ auth found owns (rw e)).1 n))
                ])
        ]

  -- What is shown of `P` when a peer is removed.
  abbrev pub Removes : RemovePeerFromShareRequest → Type 0
  Removes r =
      (caller : Text) (row : ShareRow)
      → authenticated_peer env context s.db ≡ some caller
      → Table.find share_key r.share_id s.db.shares ≡ some row
      → row.owner_id ≡ caller
      → (r.peer_id == caller) ≡ false
      → P false (drop_member (r.share_id, r.peer_id) s.db)

  pub remove_peer_from_share_cases :
      (r : RemovePeerFromShareRequest)
      → P true s.db
      → Removes r
      → End P (remove_peer_from_share_rpc env context r s)
  unfolding remove_peer_from_share_rpc log publish_event
  remove_peer_from_share_cases r refused removed =
      require_auth-End env context P s _ refused λ p auth.
        require_share_owner-End env context P s r.share_id p _ _ refused λ row found owns.
          elim (Bool-cases (r.peer_id == p)) [
            | inl t ↦ rw (t, andthen) refused
            | inr f ↦ rw (f, andthen) (removed p row auth found owns f)
          ]
