-- ===== src/Daemon/Keeping/Handling.antt =====
-- What the handlers of daemon/daemon/sync/peer_handler.py keep of a share and of the known peers.
use peerdup.Prelude.{
  ℕ, Text, Bytes, truthy, Bool, true, false, not, ◌&&◌, List, [], ◌∷◌, if◌then◌else◌, ◌==◌, text_eq,
  ltb, eqb, arith, Bool-cases, Option-cases, inl, inr,
}
use mathlib.Core.Option.{get_or}
use peerdup.Registry.Models.{PeerAddress}
use peerdup.Registry.Messages.{
  PeerEvent, EventType, online, offline, updated, removed, policy_updated, SharePeer,
}
use peerdup.Daemon.State.{LocalShare}
use peerdup.Daemon.State.Shares
use peerdup.Daemon.State.Shares.{get_share}
use peerdup.Daemon.World.{World, Daemon, on_db, add_peer}
use peerdup.Daemon.Torrents.{add_peers, switch_to_remote}
use peerdup.Daemon.Handler.{
  apply_policy, handle_remote_update, see_peer, differs, try_relay, no_peer, come_online,
  peer_changed, registry_event, admitted, handle_offer, handle_lan_peer, datagram_received,
  may_enter,
}
use peerdup.Daemon.Lan.Packet.{Offer, Keys}
use peerdup.Daemon.Lan.Listener.{on_datagram}
use peerdup.Daemon.Keeping
use peerdup.Daemon.Keeping.Switching.{
  add_peer-db, add_peers-db, apply_policy-db, StepKeeps, after, by_db, switch_to_remote-Keeps,
  handle_remote_update-Keeps,
}

module _ (w : World) (k : Text) where
  see_peer-Keeps :
      (share_id peer_id : Text) (addresses : List PeerAddress) (up : Bool) (name : Text)
      (d : Daemon)
      → StepKeeps w k d (see_peer w share_id peer_id addresses up name d)
  see_peer-Keeps share_id peer_id addresses up name d =
      Keeping.upsert_peer-Keeps k share_id peer_id addresses up name (w.clock d.reads) d.db

  come_online-Keeps :
      (share_id : Text) (peer : SharePeer) (d : Daemon)
      → StepKeeps w k d (come_online w share_id peer d)
  unfolding come_online
  come_online-Keeps share_id peer d =
      let e = see_peer w share_id peer.peer_id peer.addresses true [] d in
      let seen = see_peer-Keeps share_id peer.peer_id peer.addresses true [] d in
      let direct = add_peers share_id peer.addresses e in
      let met =
        after w k d e direct seen (by_db w k e direct (add_peers-db share_id peer.addresses e)) in
      elim (Option-cases (get_share share_id e.db)) [
        | inl n ↦ rw (n, come_online) met
        | inr (s, found) ↦ elim (Bool-cases (differs peer.info_hash (get_or s.info_hash []))) [
          | inl other ↦
              rw (found, other, come_online)
                (after w k d e (handle_remote_update w share_id peer.info_hash peer.peer_id s e)
                  seen (handle_remote_update-Keeps w k share_id peer.info_hash peer.peer_id s e))
          | inr same ↦ rw (found, same, come_online) met
        ]
      ]

  try_relay-Keeps :
      (share_id peer_id : Text) (d : Daemon) → StepKeeps w k d (try_relay w share_id peer_id d)
  try_relay-Keeps share_id peer_id d = by_db w k d (try_relay w share_id peer_id d) (ground arith)

  peer_changed-Keeps :
      (share_id : Text) (type : EventType) (peer : SharePeer) (d : Daemon)
      → StepKeeps w k d (peer_changed w share_id type peer d)
  unfolding peer_changed
  peer_changed-Keeps share_id online peer d =
      let e = come_online w share_id peer d in
      after w k d e (try_relay w share_id peer.peer_id e) (come_online-Keeps share_id peer d)
        (try_relay-Keeps share_id peer.peer_id e)
  peer_changed-Keeps share_id updated peer d =
      let e = come_online w share_id peer d in
      after w k d e (try_relay w share_id peer.peer_id e) (come_online-Keeps share_id peer d)
        (try_relay-Keeps share_id peer.peer_id e)
  peer_changed-Keeps share_id offline peer d =
      see_peer-Keeps share_id peer.peer_id peer.addresses false [] d
  peer_changed-Keeps share_id removed peer d =
      see_peer-Keeps share_id peer.peer_id peer.addresses false [] d
  peer_changed-Keeps share_id policy_updated peer d = Keeping.Keeps-refl k d.db

  presence :
      (share_id : Text) (type : EventType) (peer : SharePeer) (d : Daemon)
      → StepKeeps w k d
          (if peer.peer_id == w.own_id then d else peer_changed w share_id type peer d)
  presence share_id type peer d = elim (Bool-cases (peer.peer_id == w.own_id)) [
    | inl own ↦ rw own (Keeping.Keeps-refl k d.db)
    | inr other ↦ rw other (peer_changed-Keeps share_id type peer d)
  ]

  told :
      (share_id : Text) (type : EventType) (event : PeerEvent) (d : Daemon)
      → StepKeeps w k d (registry_event w share_id (record event { type = type }) d)
  unfolding registry_event
  told share_id policy_updated event d =
      let p = get_or event.policy (record { upload_limit_bps = 0; download_limit_bps = 0 }) in
      let e = apply_policy share_id p.upload_limit_bps p.download_limit_bps d in
      by_db w k d e (apply_policy-db share_id p.upload_limit_bps p.download_limit_bps d)
  told share_id online event d = presence share_id online (get_or event.peer no_peer) d
  told share_id offline event d = presence share_id offline (get_or event.peer no_peer) d
  told share_id updated event d = presence share_id updated (get_or event.peer no_peer) d
  told share_id removed event d = presence share_id removed (get_or event.peer no_peer) d

  pub registry_event-Keeps :
      (share_id : Text) (event : PeerEvent) (d : Daemon)
      → StepKeeps w k d (registry_event w share_id event d)
  registry_event-Keeps share_id event d = told share_id event.type event d

  connected :
      (share_id host : Text) (port : ℕ) (d e : Daemon)
      → StepKeeps w k d e
      → StepKeeps w k d (add_peer share_id host port e)
  connected share_id host port d e h =
      after w k d e (add_peer share_id host port e) h
        (by_db w k e (add_peer share_id host port e) (add_peer-db share_id host port e))

  admitted-Keeps :
      (peer_id host : Text) (port : ℕ) (name : Text) (o : Offer) (s : LocalShare) (d : Daemon)
      → StepKeeps w k d (admitted w peer_id host port name o s d)
  unfolding admitted
  admitted-Keeps peer_id host port name o s d =
      let here : PeerAddress = record { host = host; port = port; is_lan = true } in
      let e = see_peer w o.share_id peer_id (here ∷ []) true name d in
      let seen = see_peer-Keeps o.share_id peer_id (here ∷ []) true name d in
      let f = on_db (Shares.set_share_seq o.share_id o.seq) e in
      let numbered = after w k d e f seen (Keeping.set_share_seq-Keeps k o.share_id o.seq e.db) in
      let old = get_or s.info_hash [] in
      let update = handle_remote_update w o.share_id o.info_hash peer_id s in
      let updates = handle_remote_update-Keeps w k o.share_id o.info_hash peer_id s in
      elim (Bool-cases (truthy o.info_hash && not (truthy old))) [
        | inl first ↦
            rw (first, admitted)
              (connected o.share_id host port d (switch_to_remote w o.share_id o.info_hash f) (
                after w k d f (switch_to_remote w o.share_id o.info_hash f) numbered
                  (switch_to_remote-Keeps w k o.share_id o.info_hash f)))
        | inr later ↦ elim (Bool-cases (differs o.info_hash old)) [
          | inr same ↦ rw (later, same, admitted) (connected o.share_id host port d e seen)
          | inl other ↦ elim (Bool-cases (ltb s.seq o.seq)) [
            | inl newer ↦
                rw (later, other, newer, admitted)
                  (connected o.share_id host port d (update f)
                    (after w k d f (update f) numbered (updates f)))
            | inr not_newer ↦ elim (Bool-cases (eqb o.seq s.seq)) [
              | inl equal ↦
                  rw (later, other, not_newer, equal, admitted)
                    (connected o.share_id host port d (update e)
                      (after w k d e (update e) seen (updates e)))
              | inr older ↦
                  rw (later, other, not_newer, older, admitted)
                    (connected o.share_id host port d e seen)
            ]
          ]
        ]
      ]

  handle_offer-Keeps :
      (peer_id host : Text) (port : ℕ) (name : Text) (o : Offer) (d : Daemon)
      → StepKeeps w k d (handle_offer w peer_id host port name o d)
  unfolding handle_offer
  handle_offer-Keeps peer_id host port name o d = elim (Option-cases (get_share o.share_id d.db)) [
    | inl n ↦ rw (n, handle_offer) (Keeping.Keeps-refl k d.db)
    | inr (s, found) ↦ elim (Bool-cases (may_enter peer_id s o d.db)) [
      | inl enters ↦ rw (found, enters, handle_offer) (admitted-Keeps peer_id host port name o s d)
      | inr kept_out ↦ rw (found, kept_out, handle_offer) (Keeping.Keeps-refl k d.db)
    ]
  ]

  handle_lan_peer-Keeps :
      (peer_id : Text) (os : List Offer) (host : Text) (port : ℕ) (name : Text) (d : Daemon)
      → StepKeeps w k d (handle_lan_peer w peer_id os host port name d)
  unfolding handle_lan_peer
  handle_lan_peer-Keeps peer_id [] host port name d = Keeping.Keeps-refl k d.db
  handle_lan_peer-Keeps peer_id (o ∷ os) host port name d =
      let e = handle_offer w peer_id host port name o d in
      after w k d e (handle_lan_peer w peer_id os host port name e)
        (handle_offer-Keeps peer_id host port name o d)
        (handle_lan_peer-Keeps peer_id os host port name e)

  pub datagram_received-Keeps :
      (keys : Keys) (host : Text) (whole : Bytes) (d : Daemon)
      → StepKeeps w k d (datagram_received w keys host whole d)
  unfolding datagram_received
  datagram_received-Keeps keys host whole d =
      elim (Option-cases (on_datagram keys w.own_id whole)) [
        | inl nothing ↦ rw (nothing, datagram_received) (Keeping.Keeps-refl k d.db)
        | inr (p, heard) ↦
            rw (heard, datagram_received)
              (handle_lan_peer-Keeps p.peer_id p.shares host p.listen_port p.name d)
      ]
