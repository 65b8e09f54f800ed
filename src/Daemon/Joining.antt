-- ===== src/Daemon/Joining.antt =====
-- A daemon that registers: `_registry_connect_loop` of daemon/daemon/sync/coordinator.py with
-- `RegisterPeer` of registry/servicer/registry.py.
use peerdup.Prelude.{
  Text, Bytes, truthy, true, false, ◌≡◌, inl, inr, none, some, [], ap, sym, ◌∙◌, arith, text_eq,
  Option-cases,
}
use peerdup.Prelude.Table
use peerdup.Registry.Models.{peer_key}
use peerdup.Registry.Messages.{RegisterPeerRequest, RegisterPeerResponse}
use peerdup.Registry.Service.{Env, Context, Server, done, log}
use peerdup.Registry.Crypto.{extract_bearer_token, hash_token, verify_register_peer}
use peerdup.Registry.Auth.{token_hash_of, authenticated_peer}
use peerdup.Registry.Peers.{register_peer_rpc}
use peerdup.Registry.Credentials.{next_token_authenticates, registered_token}
use peerdup.Registry.Rules.{is_aborted}
use peerdup.Daemon.Identity.{Identity, peer_id, sign_register}
use peerdup.Daemon.Agreement.{Matches, sign_register-verify}

abbrev answer : Env → Server → Text → Text → RegisterPeerResponse
answer env s peer_id name = record {
  peer = record {
    peer_id = peer_id;
    name = name;
    addresses = [];
    online = false;
    last_seen = none;
  };
  token = env.token_urlsafe s.tokens_made;
}

pub register_peer_rpc-done :
    (env : Env) (context : Context) (r : RegisterPeerRequest) (s : Server)
    → verify_register_peer env r.peer_id r.name r.signature ≡ true
    → (reply : RegisterPeerResponse) × ((register_peer_rpc env context r s).0 ≡ done reply)
unfolding register_peer_rpc log
register_peer_rpc-done env context r s good =
    elim (Option-cases (Table.find peer_key r.peer_id s.db.peers)) [
      | inl new ↦ (answer env s r.peer_id r.name, ground (arith, good, new))
      | inr (row, found) ↦ (answer env s row.peer_id r.name, ground (arith, good, found))
    ]

-- A registration that the daemon signs is answered, the token of the answer is the next one of the
-- registry's source, and a later call that carries the token of the answer is authenticated as the daemon's
-- peer, if the decoding and the signatures of the two sides match, the token is not empty and its hash was
-- not in the table before.
pub registration_succeeds :
    (env : Env) (context later : Context) (id : Identity) (m : Matches env id) (name : Text)
    (signature : Bytes) (s : Server)
    → sign_register id name ≡ some signature
    → extract_bearer_token later ≡ some (env.token_urlsafe s.tokens_made)
    → truthy (env.token_urlsafe s.tokens_made) ≡ true
    → Table.find token_hash_of (hash_token env (env.token_urlsafe s.tokens_made)) s.db.peers ≡ none
    → let r : RegisterPeerRequest = record {
      peer_id = peer_id id;
      name = name;
      signature = signature;
    } in
      ((reply : RegisterPeerResponse) × ((register_peer_rpc env context r s).0 ≡ done reply)
        × (reply.token ≡ env.token_urlsafe s.tokens_made)
        × (extract_bearer_token later ≡ some reply.token))
      × (authenticated_peer env later (register_peer_rpc env context r s).1.db ≡ some (peer_id id))
registration_succeeds env context later id m name signature s signed carried full fresh =
    let r : RegisterPeerRequest = record {
      peer_id = peer_id id;
      name = name;
      signature = signature;
    } in
    let (reply, e) =
      register_peer_rpc-done env context r s
        (sign_register-verify env id m name signature signed) in
    let same = registered_token env context later r s reply e in
    (
      (reply, e, same, carried ∙ ap some (sym same)),
      next_token_authenticates env context later r s (ap is_aborted e) carried full fresh,
    )
