-- ===== src/Daemon/Lan/Listener.antt =====
-- `LanDiscovery._on_datagram` and one round of `_announce_loop` of daemon/daemon/lan/discovery.py, and what
-- the listener believes. The sockets are left out.
use peerdup.Prelude.{
  ℕ, zero, suc, ◌-◌, Text, Bytes, take, true, ◌&&◌, ◌≡◌, sym, ap, ◌∙◌, inl, inr, Option, none, some,
  List, [], ◌∷◌, ◌++◌, if◌then◌else◌, ltb, leb, eqb, ◌==◌, text_eq, text_beq_iff, length, arith,
  some-inj, Bool-cases, ◌≢◌,
}
use mathlib.Core.Path.{subst}
use peerdup.Daemon.Identity.{Identity}
use peerdup.Daemon.Lan.Pieces.{bind_some}
use peerdup.Daemon.Lan.Packet.{
  Keys, Offer, Packet, ◌>>=◌, next, drop, next_int, next_shares, next_name, verified, unpack_fields,
  unpack_packet, pack_packet,
}

-- The packet of one round, and none when there is nothing to announce or when packing raises.
unfoldable pub announce_round : Identity → List Offer → ℕ → Text → Option Bytes
announce_round id [] listen_port name = none
announce_round id (s ∷ ss) listen_port name = pack_packet id (s ∷ ss) listen_port name

module _ (keys : Keys) where
  -- The packet that is handed to `on_peer_seen`: our own and the unreadable ones are not.
  unfoldable pub on_datagram : Text → Bytes → Option Packet
  on_datagram own_id whole = do
    packet ← unpack_packet keys whole
    if packet.peer_id == own_id then none else some packet

  -- The packet ends in a signature over all that is before it, by the key that stands in bytes 1 to 32
  -- and that the peer_id encodes.
  abbrev pub SignedBy : Bytes → Text → Type 0
  SignedBy whole peer_id =
      (v : ℕ) × (key : Bytes) × (rest : Bytes) × (whole ≡ v ∷ (key ++ rest))
      × (length key ≡ 32)
      × (peer_id ≡ keys.b58encode key)
      × (keys.verify_key key (take (length whole - 64) whole) (drop (length whole - 64) whole)
          ≡ true)

  next-cases :
      (k : ℕ) (bs taken left : Bytes)
      → next k bs ≡ some (taken, left)
      → (bs ≡ taken ++ left) × (length taken ≡ k)
  unfolding next
  next-cases zero bs taken left e = ground arith
  next-cases (suc k) [] taken left e = ground arith
  next-cases (suc k) (b ∷ bs) taken left e =
      let ((t, l), n, e') = bind_some (next k bs) _ e in
      let (whole, size) = next-cases k bs t l n in
      let same : (b ∷ t, l) ≡ (taken, left) = some-inj e' in
      (
        ap (λ x. b ∷ x) whole ∙ ap (λ (p : Bytes × Bytes). p.0 ++ p.1) same,
        omega (arith, size, ap (λ (p : Bytes × Bytes). length p.0) same),
      )

  verified-cases :
      (whole key left : Bytes) (packet p : Packet)
      → verified keys whole key packet left ≡ some p
      → (packet ≡ p)
        × (keys.verify_key key (take (length whole - 64) whole) (drop (length whole - 64) whole)
            ≡ true)
  unfolding verified
  verified-cases whole key left packet p e =
      elim (Bool-cases (
        eqb (length left) 64
        && keys.verify_key key (take (length whole - 64) whole) (drop (length whole - 64) whole))) [
          | inl good ↦ (some-inj (rw good at e), ground arith)
          | inr bad ↦ let no : none ≡ some p = rw bad at e in absurd (ground arith)
        ]

  unpack_fields-SignedBy :
      (v : ℕ) (bs : Bytes) (packet : Packet)
      → unpack_fields keys v (v ∷ bs) bs ≡ some packet
      → SignedBy (v ∷ bs) packet.peer_id
  unfolding unpack_fields
  unpack_fields-SignedBy v bs packet e =
      let ((key, after_key), k, e1) = bind_some (next 32 bs) _ e in
      let ((port, after_port), p, e2) = bind_some (next_int 2 after_key) _ e1 in
      let ((count, after_count), c, e3) = bind_some (next_int 2 after_port) _ e2 in
      let ((shares, after_shares), s, e4) = bind_some (next_shares keys v count after_count) _ e3 in
      let ((name, left), n, e5) = bind_some (next_name v after_shares) _ e4 in
      let (same, good) = verified-cases (v ∷ bs) key left _ packet e5 in
      let (whole, size) = next-cases 32 bs key after_key k in
      (
        v,
        key,
        after_key,
        ap (λ x. v ∷ x) whole,
        size,
        ap (λ (q : Packet). q.peer_id) (sym same),
        good,
      )

  unpack_packet-fields :
      (v : ℕ) (bs : Bytes) (packet : Packet)
      → unpack_packet keys (v ∷ bs) ≡ some packet
      → unpack_fields keys v (v ∷ bs) bs ≡ some packet
  unfolding unpack_packet
  unpack_packet-fields v bs packet e = elim (Bool-cases (ltb (length (v ∷ bs)) 101)) [
    | inl short ↦ let bad : none ≡ some packet = rw short at e in absurd (ground arith)
    | inr long ↦ elim (Bool-cases (leb 1 v && leb v 4)) [
      | inl known ↦ rw (long, known) at e
      | inr unknown ↦
          let bad : none ≡ some packet = rw (long, unknown) at e in absurd (ground arith)
    ]
  ]

  other_than_own :
      (own_id : Text) (p packet : Packet)
      → (if p.peer_id == own_id then none else some p) ≡ some packet
      → (p ≡ packet) × (packet.peer_id ≢ own_id)
  other_than_own own_id p packet e = elim (Bool-cases (p.peer_id == own_id)) [
    | inl own ↦ let bad : none ≡ some packet = rw own at e in absurd (ground arith)
    | inr other ↦
        let same : p ≡ packet = some-inj (rw other at e) in
        (
          same,
          λ h. ground (arith, text_beq_iff p.peer_id own_id, ap (λ (q : Packet). q.peer_id) same),
        )
  ]

  -- A datagram that is handed on is signed by the peer that it names, and this is not the listener.
  pub on_datagram-SignedBy :
      (own_id : Text) (whole : Bytes) (packet : Packet)
      → on_datagram own_id whole ≡ some packet
      → SignedBy whole packet.peer_id × (packet.peer_id ≢ own_id)
  unfolding on_datagram
  on_datagram-SignedBy own_id [] packet e = unfold unpack_packet in absurd (ground arith)
  on_datagram-SignedBy own_id (v ∷ bs) packet e =
      let (p, u, e') = bind_some (unpack_packet keys (v ∷ bs)) _ e in
      let (same, other) = other_than_own own_id p packet e' in
      (
        subst (λ (q : Packet). SignedBy (v ∷ bs) q.peer_id) same
            (unpack_fields-SignedBy v bs p (unpack_packet-fields v bs p u)),
        other,
      )
