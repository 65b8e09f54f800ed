-- ===== src/Daemon/Client/Token.antt =====
-- The token that daemon/daemon/registry/client.py sends along, and the one that registry/auth/crypto.py
-- reads.
use mathlib.Core.Option.{get_or}
use peerdup.Prelude.{beq_refl, is_prefix}
use peerdup.Prelude.{
  ℕ, Text, Bytes, codes, truthy, true, ◌≡◌, refl, Option, none, some, List, [], ◌∷◌, ◌++◌, ◌==◌,
  text_eq, arith, if◌then◌else◌,
}
use peerdup.Prelude.Table
use peerdup.Registry.Service.{Env, Context, Server, done, fail}
use peerdup.Registry.Messages.{RegisterPeerRequest}
use peerdup.Registry.Crypto.{extract_bearer_token, hash_token, metadata_get, lower}
use peerdup.Registry.Auth.{token_hash_of, authenticated_peer}
use peerdup.Registry.Peers.{register_peer_rpc}
use peerdup.Daemon.Identity.{Identity, peer_id, sign_register}
use peerdup.Daemon.Agreement.{Matches}
use peerdup.Daemon.Joining.{registration_succeeds}
use peerdup.Daemon.Client.{RegistryClient, registered, inject}

-- The last entry of a name is the one that is read.
metadata_get-append :
    (k found v : Text) (before : List (Text × Text))
    → metadata_get k found (before ++ (k, v) ∷ []) ≡ v
unfolding metadata_get
metadata_get-append k found v [] = ground (arith, beq_refl k)
metadata_get-append k found v ((j, u) ∷ rest) =
    metadata_get-append k (if j == k then u else found) v rest

-- What the interceptor adds to the metadata of a call is what the registry reads there.
extract-inject :
    (token peer : Text) (metadata : Option (List (Text × Text)))
    → truthy token ≡ true
    → extract_bearer_token
        (record { metadata = get_or (inject (some token) metadata) []; peer = peer })
      ≡ some token
unfolding extract_bearer_token inject lower is_prefix
extract-inject token peer metadata full =
    rw
      (
        full,
        metadata_get-append (codes "authorization") [] (codes "Bearer " ++ token)
            (get_or metadata []),
      )
      refl

-- `register_peer` of the client against a registry: the token of the answer is kept.
unfoldable pub register_peer :
    Env → Context → Identity → Text → ℕ → RegistryClient × Server → RegistryClient × Server
register_peer env context id name now (c, s) = elim (sign_register id name) [
  | none ↦ (c, s)
  | some signature ↦
      let (reply, after) =
        register_peer_rpc env context
          (record { peer_id = peer_id id; name = name; signature = signature }) s in
      (elim reply [ done r ↦ registered r.token now c | fail e ↦ c ], after)
]

-- A client that registers, with a registry that decodes and verifies as the client encodes and signs, is
-- authenticated as its peer in a later call with whatever other metadata, if the name can be encoded, the
-- token made is not empty and its hash was not in the table before.
pub registered_client_is_known :
    (env : Env) (context : Context) (id : Identity) (m : Matches env id) (name peer : Text)
    (now : ℕ) (signature : Bytes) (c : RegistryClient) (s : Server)
    (metadata : Option (List (Text × Text)))
    → sign_register id name ≡ some signature
    → truthy (env.token_urlsafe s.tokens_made) ≡ true
    → Table.find token_hash_of (hash_token env (env.token_urlsafe s.tokens_made)) s.db.peers ≡ none
    → let (registered_client, after) = register_peer env context id name now (c, s) in
      authenticated_peer env
        (record { metadata = get_or (inject registered_client.token metadata) []; peer = peer })
        after.db
      ≡ some (peer_id id)
unfolding register_peer
registered_client_is_known env context id m name peer now signature c s metadata signed full fresh =
    let token = env.token_urlsafe s.tokens_made in
    let r : RegisterPeerRequest = record {
      peer_id = peer_id id;
      name = name;
      signature = signature;
    } in
    let later : Context = record {
      metadata = get_or (inject (some token) metadata) [];
      peer = peer;
    } in
    let ((reply, answered, same, carried), known) =
      registration_succeeds env context later id m name signature s signed
        (extract-inject token peer metadata full) full fresh in
    rw (signed, answered, same, register_peer) known
