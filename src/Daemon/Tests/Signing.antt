-- ===== src/Daemon/Tests/Signing.antt =====
-- What identities sign and pack, read by the other side: daemon/daemon/identity.py,
-- daemon/daemon/lan/discovery.py, and `RegisterPeer` of registry/servicer/registry.py.
use peerdup.Prelude.{
  Text, codes, true, ◌≡◌, inr, refl, none, some, [], ◌∷◌, ◌++◌, text_eq, pair_eq, arith, text_beq,
}
use peerdup.Prelude.Table
use peerdup.Registry.Models.{PeerAddress, empty_database}
use peerdup.Registry.Messages.{RegisterPeerRequest, RegisterPeerResponse}
use peerdup.Registry.Service.{Context, Server, done}
use peerdup.Registry.Crypto.{
  encode, join_null, sort, address_part, pack_u32, verify_announce, extract_bearer_token,
}
use peerdup.Registry.Auth.{authenticated_peer}
use peerdup.Registry.Peers.{register_peer_rpc}
use peerdup.Relay.Hello.{from_hex}
use peerdup.Daemon.Identity.{peer_id, sign_register, sign_announce, to_hex}
use peerdup.Daemon.Agreement.{Matches, sign_announce-verify}
use peerdup.Daemon.Lan.Packet.{Packet, pack_packet, unpack_packet}
use peerdup.Daemon.Lan.RoundTrip.{IsPackable, unpack-pack}
use peerdup.Prelude.Table.{IsUnique}
use peerdup.Daemon.Joining.{registration_succeeds}
use peerdup.Daemon.Tests.Sample.{sevens, repeated, me, keys, music, other, env, you, announced}
use peerdup.Daemon.Tests.Sample.{sent}

sent-IsPackable : IsPackable you keys (announced ∷ []) (codes "pal")
unfolding text_beq to_hex encode
sent-IsPackable = record {
  key = other;
  decoded = refl;
  encoded = refl;
  key_size = refl;
  verifies = λ m. refl;
  sig_size = λ m. refl;
  offers = (((music, refl, refl, refl), inr (repeated 20 170, refl, ground arith, refl, refl)), tt);
  text = (ground arith, (ground arith, (ground arith, tt)));
  name_bytes = codes "pal";
  named = refl;
  name_size = ground arith;
}

unpack-pack_example :
    unpack_packet keys sent
    ≡ some (record {
      peer_id = other;
      shares = announced ∷ [];
      listen_port = 4_000;
      name = codes "pal";
    })
unfolding pack_packet peerdup.Daemon.Lan.Packet.pack_body encode peerdup.Daemon.Lan.Packet.pack_int
    peerdup.Daemon.Lan.Packet.pack_shares from_hex
unpack-pack_example =
    unpack-pack you keys (announced ∷ []) 4_000 (codes "pal") sent sent-IsPackable refl

pub env-Matches : Matches env me
unfolding text_beq
env-Matches = record { decodes = λ t. refl; own_key = refl; verifies = λ m. refl }

abbrev address : PeerAddress
address = record { host = codes "10.0.0.2"; port = 4_000; is_lan = true }

sign_announce-verify_example :
    verify_announce env (peer_id me) music (address ∷ []) 120 sevens ≡ true
unfolding sign_announce encode join_null sort address_part pack_u32
sign_announce-verify_example =
    sign_announce-verify env me env-Matches music (address ∷ []) 120 sevens refl

abbrev pub registry : Server
registry = record {
  db = empty_database;
  buckets = [];
  audit = [];
  published = [];
  metrics = [];
  active_watches = 0;
  last_sweep_at = none;
  wall_reads = 0;
  monotonic_reads = 0;
  tokens_made = 0;
}

abbrev pub caller : Text → Context
caller token = record {
  metadata = (codes "authorization", codes "Bearer " ++ token) ∷ [];
  peer = codes "ipv4:1.2.3.4:5000";
}

abbrev registration : RegisterPeerRequest
registration = record { peer_id = peer_id me; name = codes "me"; signature = sevens }

registration_succeeds_example :
    ((reply : RegisterPeerResponse) × ((register_peer_rpc env (caller []) registration registry).0
        ≡ done reply)
      × (reply.token ≡ env.token_urlsafe registry.tokens_made)
      × (extract_bearer_token (caller (codes "0")) ≡ some reply.token))
    × (authenticated_peer env
          (caller (codes "0"))
          (register_peer_rpc env (caller []) registration registry).1.db
        ≡ some (peer_id me))
unfolding sign_register encode extract_bearer_token text_beq Table.find
registration_succeeds_example =
    registration_succeeds env (caller []) (caller (codes "0")) me env-Matches (codes "me") sevens
      registry refl refl refl refl
