-- ===== src/Daemon/Revocation.antt =====
-- What a peer that the registry has removed may still do, and what an announcement with a low number does:
-- daemon/daemon/sync/peer_handler.py.
use peerdup.Prelude.{
  ℕ, ◌<◌, Text, truthy, Bool, true, false, ◌≡◌, ◌≢◌, ◌⊎◌, refl, some, List, [], text_eq, pair_eq,
  text_beq_iff, arith, beq_refl,
}
use peerdup.Prelude.Table
use peerdup.Prelude.Table.{find-append, find-update, has-append, has-update}
use peerdup.Registry.Messages.{PeerEvent, removed, SharePeer}
use peerdup.Registry.Models.{PeerAddress}
use peerdup.Daemon.State.{LocalShare, known_peer_key, StateDb}
use peerdup.Daemon.State.Shares.{get_share}
use peerdup.Daemon.State.Records.{upsert_peer, seen, new_known_peer}
use peerdup.Daemon.World.{World, Daemon, call_handle}
use peerdup.Daemon.Handler.{handle_offer, admitted, may_enter, registry_event, peer_changed}
use peerdup.Daemon.Lan.Packet.{Offer}

upsert_peer-has :
    (share_id peer_id : Text) (addresses : List PeerAddress) (up : Bool) (name : Text) (now : ℕ)
    (db : StateDb)
    → Table.has known_peer_key
        (share_id, peer_id)
        (upsert_peer share_id peer_id addresses up name now db).known_peers
      ≡ true
unfolding upsert_peer
upsert_peer-has share_id peer_id addresses up name now db =
    let key : Text × Text = (share_id, peer_id) in
    let row = new_known_peer share_id peer_id addresses up name now in
    ground (
      arith,
      has-update known_peer_key key key (seen addresses up name now) db.known_peers (λ a. refl),
      has-append known_peer_key key db.known_peers row,
      beq_refl key,
    )

module _ (w : World) where
  -- A peer other than ourselves that the registry tells to be removed from a share may enter this share by
  -- an announcement on the local network afterwards, whatever was known of it before.
  pub removed_peer_may_enter :
      (event : PeerEvent) (p : SharePeer) (local : LocalShare) (o : Offer) (d : Daemon)
      → event.type ≡ removed
      → event.peer ≡ some p
      → p.peer_id ≢ w.own_id
      → may_enter p.peer_id local o (registry_event w o.share_id event d).db ≡ true
  unfolding registry_event peer_changed
  removed_peer_may_enter event p local o d gone of_peer other = ground (
    arith,
    gone,
    of_peer,
    text_beq_iff p.peer_id w.own_id,
    upsert_peer-has o.share_id p.peer_id p.addresses false [] (w.clock d.reads) d.db,
  )

  -- An announcement of a share that has an info hash, with this info hash or with a lower number, leaves
  -- every share, every torrent and every watched directory as they were.
  pub older_unchanged :
      (peer_id host : Text) (port : ℕ) (name : Text) (o : Offer) (d : Daemon) (local : LocalShare)
      (ih : Text)
      → get_share o.share_id d.db ≡ some local
      → local.info_hash ≡ some ih
      → truthy ih ≡ true
      → (o.info_hash ≡ ih) ⊎ (o.seq < local.seq)
      → ((handle_offer w peer_id host port name o d).db.shares ≡ d.db.shares)
        × ((handle_offer w peer_id host port name o d).handles ≡ d.handles)
        × ((handle_offer w peer_id host port name o d).watched ≡ d.watched)
  unfolding handle_offer admitted upsert_peer call_handle
  older_unchanged peer_id host port name o d local ih found has_hash full older =
      ground (arith, found, has_hash, text_beq_iff o.info_hash ih)
