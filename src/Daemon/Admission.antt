-- ===== src/Daemon/Admission.antt =====
-- Whom a share lets in: `handle_lan_peer` of daemon/daemon/sync/peer_handler.py, behind `_on_datagram` of
-- daemon/daemon/lan/discovery.py.
use peerdup.Prelude.{
  ℕ, Text, Bytes, true, ◌≡◌, ◌≢◌, ◌⊎◌, inl, inr, refl, ap, ◌∙◌, some, Option-cases, Bool-cases,
  List, [], ◌∷◌, text_eq, pair_eq,
}
use peerdup.Prelude.{◌||◌, pair_eq}
use peerdup.Prelude.Table
use peerdup.Daemon.State.{known_peer_key, LocalShare}
use peerdup.Daemon.State.Shares.{get_share}
use peerdup.Daemon.World.{World, Daemon}
use peerdup.Daemon.Handler.{handle_offer, handle_lan_peer, datagram_received, may_enter}
use peerdup.Daemon.Lan.Packet.{Offer, Packet, Keys}
use peerdup.Daemon.Lan.Listener.{on_datagram, SignedBy, on_datagram-SignedBy}

-- Whether some share of an announcement is known here and lets its peer in.
abbrev pub LetsIn : Text → List Offer → Daemon → Type 0
LetsIn peer_id [] d = ⊥
LetsIn peer_id (o ∷ os) d =
    ((s : LocalShare) × (get_share o.share_id d.db ≡ some s)
      × (s.local_only || Table.has known_peer_key (o.share_id, peer_id) d.db.known_peers ≡ true))
    ⊎ LetsIn peer_id os d

module _ (w : World) where
  handle_offer-cases :
      (peer_id host : Text) (port : ℕ) (name : Text) (o : Offer) (d : Daemon)
      → (handle_offer w peer_id host port name o d ≡ d)
        ⊎ ((s : LocalShare) × (get_share o.share_id d.db ≡ some s)
            × (may_enter peer_id s o d.db ≡ true))
  unfolding handle_offer
  handle_offer-cases peer_id host port name o d = elim (Option-cases (get_share o.share_id d.db)) [
    | inl missing ↦ inl (rw (missing, handle_offer))
    | inr (s, found) ↦ elim (Bool-cases (may_enter peer_id s o d.db)) [
      | inl enters ↦ inr (s, found, enters)
      | inr kept_out ↦ inl (rw (found, kept_out, handle_offer))
    ]
  ]

  handle_lan_peer-cases :
      (peer_id : Text) (os : List Offer) (host : Text) (port : ℕ) (name : Text) (d : Daemon)
      → (handle_lan_peer w peer_id os host port name d ≡ d) ⊎ LetsIn peer_id os d
  unfolding handle_lan_peer
  handle_lan_peer-cases peer_id [] host port name d = inl refl
  handle_lan_peer-cases peer_id (o ∷ os) host port name d =
      elim (handle_offer-cases peer_id host port name o d) [
        | inr enters ↦ inr (inl enters)
        | inl same ↦ elim (handle_lan_peer-cases peer_id os host port name d) [
          | inl rest ↦ inl (ap (handle_lan_peer w peer_id os host port name) same ∙ rest)
          | inr later ↦ inr (inr later)
        ]
      ]

  module _ (keys : Keys) where
    -- A datagram from the local network changes nothing, unless its packet is signed by the peer that it
    -- names, who is not ourselves, and some share of the packet is known here and is either local only or
    -- one that has a row for that peer in the table of known peers. The row may be one that an earlier
    -- announcement wrote while the share was local only.
    pub datagram_received-LetsIn :
        (host : Text) (whole : Bytes) (d : Daemon)
        → (datagram_received w keys host whole d ≡ d)
          ⊎ ((p : Packet) × SignedBy keys whole p.peer_id
              × (p.peer_id ≢ w.own_id)
              × LetsIn p.peer_id p.shares d)
    unfolding datagram_received
    datagram_received-LetsIn host whole d = elim (Option-cases (on_datagram keys w.own_id whole)) [
      | inl nothing ↦ inl (rw (nothing, datagram_received))
      | inr (p, heard) ↦
          elim (handle_lan_peer-cases p.peer_id p.shares host p.listen_port p.name d) [
            | inl same ↦ inl (rw (heard, same, datagram_received))
            | inr enters ↦
                let (signed, other) = on_datagram-SignedBy keys w.own_id whole p heard in
                inr (p, signed, other, enters)
          ]
    ]
