-- ===== src/Registry/Peers.antt =====
-- `RegisterPeer` and `GetPeer` of registry/servicer/registry.py.
use peerdup.Prelude.{
  ℕ, Text, true, false, ◌&&◌, Option, none, some, List, [], ◌∷◌, ◌++◌, ltb, ◌==◌, text_eq, pair_eq,
  if◌then◌else◌, find_first,
}
use peerdup.Prelude.Table
use peerdup.Registry.Models.{PeerRow, AnnouncementRow, Database, peer_key}
use peerdup.Registry.Messages.{
  Peer, RegisterPeerRequest, RegisterPeerResponse, unauthenticated, not_found, invalid_signature,
  peer_not_found,
}
use peerdup.Registry.Service.{
  Env, Context, register_peer, get_peer, ok, denied, Action, pure, gets, abort, or_abort, write,
  ◌>>=◌, ◌>>◌, now, generate_token, log,
}
use peerdup.Registry.Crypto.{hash_token, verify_register_peer}
use peerdup.Registry.Address.{remote_ip}
use peerdup.Registry.Auth.{require_auth}

-- Re-registration rotates the token and updates the name.
abbrev pub rotate : Text → Text → PeerRow → PeerRow
rotate name token_hash r = record r { name = name; token_hash = token_hash }

abbrev pub put_peer : Text → (PeerRow → PeerRow) → Database → Database
put_peer peer_id f db = record db { peers = Table.update peer_key peer_id f db.peers }

abbrev pub add_peer : PeerRow → Database → Database
add_peer r db = record db { peers = db.peers ++ r ∷ [] }

-- The announcement of a peer in any share that has not expired.
pub live_announcement : Text → ℕ → List AnnouncementRow → Option AnnouncementRow
live_announcement peer_id time = find_first (λ a. a.peer_id == peer_id && ltb time a.expires_at)

module _ (env : Env) (context : Context) where
  upsert_peer : Text → Text → Text → Action PeerRow
  upsert_peer peer_id name token_hash = do
    existing ← gets (λ s. Table.find peer_key peer_id s.db.peers)
    elim existing [
      | some row ↦ do
        write (put_peer peer_id (rotate name token_hash))
        pure (rotate name token_hash row)
      | none ↦ do
        created_at ← now env
        let row : PeerRow = record {
          peer_id = peer_id;
          name = name;
          token_hash = token_hash;
          created_at = created_at;
        }
        write (add_peer row)
        pure row
    ]

  register_verified : RegisterPeerRequest → Action RegisterPeerResponse
  unfolding upsert_peer
  register_verified request = do
    token ← generate_token env
    row ← upsert_peer request.peer_id request.name (hash_token env token)
    log env register_peer request.peer_id ok [] (remote_ip context)
    pure (record {
      peer = record {
        peer_id = row.peer_id;
        name = row.name;
        addresses = [];
        online = false;
        last_seen = none;
      };
      token = token;
    })

  unfoldable pub register_peer_rpc : RegisterPeerRequest → Action RegisterPeerResponse
  unfolding register_verified
  register_peer_rpc request =
      if verify_register_peer env request.peer_id request.name request.signature
      then register_verified request
      else do
        log env register_peer request.peer_id denied [] (remote_ip context)
        abort unauthenticated invalid_signature

  peer_message : PeerRow → Option AnnouncementRow → Peer
  peer_message row none = record {
    peer_id = row.peer_id;
    name = row.name;
    addresses = [];
    online = false;
    last_seen = none;
  }
  peer_message row (some ann) = record {
    peer_id = row.peer_id;
    name = row.name;
    addresses = ann.internal_addrs;
    online = true;
    last_seen = some ann.announced_at;
  }

  unfoldable pub get_peer_rpc : Text → Action Peer
  unfolding peer_message
  get_peer_rpc peer_id = do
    caller_id ← require_auth env context
    found ← gets (λ s. Table.find peer_key peer_id s.db.peers)
    row ← or_abort found not_found peer_not_found
    time ← now env
    ann ← gets (λ s. live_announcement peer_id time s.db.announcements)
    log env get_peer caller_id ok [] (remote_ip context)
    pure (peer_message row ann)
