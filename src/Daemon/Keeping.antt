-- ===== src/Daemon/Keeping.antt =====
-- What every write of daemon/daemon/state/db.py keeps of a share and of the known peers. The children do
-- the same for what is heard from others, for activation and rebuilds, for the commands and for the loops.
pub mod Switching
pub mod Handling
pub mod Activation
pub mod Adding
pub mod Control
pub mod Loops
use peerdup.Prelude.{
  ℕ, Text, Bool, true, ◌≡◌, refl, sym, ap, ◌∙◌, Option, some, List, [], ◌∷◌, ◌++◌, ◌==◌, text_eq,
  pair_eq, arith, Bool-cases, inl, inr,
}
use mathlib.Core.Option
use mathlib.Core.Path.{subst}
use peerdup.Prelude.Table
use peerdup.Prelude.Table.{
  IsUnique, find-update, has-append, has-update, update-IsUnique, append-IsUnique,
}
use peerdup.Registry.Models.{PeerAddress}
use peerdup.Daemon.State.{ShareState, LocalShare, KnownPeer, StateDb, share_key, known_peer_key}
use peerdup.Daemon.State.Shares
use peerdup.Daemon.State.Shares.{get_share, put_share, in_state}
use peerdup.Daemon.State.Records.{upsert_peer, seen, new_known_peer}

-- A share stays local only or known to a registry, and stays owned.
abbrev pub IsLater : LocalShare → LocalShare → Type 0
IsLater s t =
    (t.share_id ≡ s.share_id)
    × (t.local_only ≡ s.local_only)
    × (s.is_owner ≡ true → t.is_owner ≡ true)

-- The row of the share is there still and is later, no known peer is forgotten, and no share and no known
-- peer comes to stand twice.
pub record Keeps (share_id : Text) (a b : StateDb) : Type 0 where
  pub row :
      (s : LocalShare)
      → get_share share_id a ≡ some s
      → (t : LocalShare) × (get_share share_id b ≡ some t) × IsLater s t
  pub peers :
      (p : Text × Text)
      → Table.has known_peer_key p a.known_peers ≡ true
      → Table.has known_peer_key p b.known_peers ≡ true
  pub unique : IsUnique share_key a.shares → IsUnique share_key b.shares
  pub unique_peers : IsUnique known_peer_key a.known_peers → IsUnique known_peer_key b.known_peers

module _ (share_id : Text) where
  pub Keeps-refl : (a : StateDb) → Keeps share_id a a
  Keeps-refl a = record {
    row = λ s found. (s, found, (refl, refl, λ o. o));
    peers = λ p known. known;
    unique = λ u. u;
    unique_peers = λ u. u;
  }

  pub Keeps-trans : (a b c : StateDb) → Keeps share_id a b → Keeps share_id b c → Keeps share_id a c
  Keeps-trans a b c h k = record {
    row = λ s found.
        let (t, found', (same, local, owned)) = h.row s found in
        let (u, found'', (same', local', owned')) = k.row t found' in
        (u, found'', (same' ∙ same, local' ∙ local, λ o. owned' (owned o)));
    peers = λ p known. k.peers p (h.peers p known);
    unique = λ u. k.unique (h.unique u);
    unique_peers = λ u. k.unique_peers (h.unique_peers u);
  }

  -- A write to the row of any share.
  pub put_share-Keeps :
      (other : Text) (f : LocalShare → LocalShare) (a : StateDb)
      → ((s : LocalShare) → IsLater s (f s))
      → Keeps share_id a (put_share other f a)
  put_share-Keeps other f a later = record {
    row = λ s found.
        let at = find-update share_key share_id other f a.shares (λ r. (later r).0) in
        elim (Bool-cases (other == share_id)) [
          | inl same ↦ (f s, ground (arith, found, same, at), later s)
          | inr differ ↦ (s, ground (arith, found, differ, at), (refl, refl, λ o. o))
        ];
    peers = λ p known. known;
    unique = λ u. update-IsUnique share_key other f a.shares (λ r. (later r).0) u;
    unique_peers = λ u. u;
  }

  pub set_share_state-Keeps :
      (other : Text) (state : ShareState) (e ih : Option Text) (a : StateDb)
      → Keeps share_id a (Shares.set_share_state other state e ih a)
  set_share_state-Keeps other state e ih a =
      put_share-Keeps other (in_state state e ih) a (λ s. (refl, refl, λ o. o))

  pub set_share_seq-Keeps :
      (other : Text) (n : ℕ) (a : StateDb) → Keeps share_id a (Shares.set_share_seq other n a)
  set_share_seq-Keeps other n a =
      put_share-Keeps other (λ r. record r { seq = n }) a (λ s. (refl, refl, λ o. o))

  -- What leaves the shares and the known peers as they are.
  pub same-Keeps :
      (a b : StateDb) → b.shares ≡ a.shares → b.known_peers ≡ a.known_peers → Keeps share_id a b
  same-Keeps a b s p = record {
    row = λ r found. (r, ap (Table.find share_key share_id) s ∙ found, (refl, refl, λ o. o));
    peers = λ q known. ap (Table.has known_peer_key q) p ∙ known;
    unique = λ u. subst (IsUnique share_key) (sym s) u;
    unique_peers = λ u. subst (IsUnique known_peer_key) (sym p) u;
  }

  -- A write to the known peers.
  known_peers-Keeps :
      (a : StateDb) (ps : List KnownPeer)
      → ((p : Text × Text)
          → Table.has known_peer_key p a.known_peers ≡ true
          → Table.has known_peer_key p ps ≡ true)
      → (IsUnique known_peer_key a.known_peers → IsUnique known_peer_key ps)
      → Keeps share_id a (record a { known_peers = ps })
  known_peers-Keeps a ps known u = record {
    row = λ r found. (r, found, (refl, refl, λ o. o));
    peers = known;
    unique = λ v. v;
    unique_peers = u;
  }

  pub upsert_peer-Keeps :
      (other peer_id : Text) (addresses : List PeerAddress) (up : Bool) (name : Text) (now : ℕ)
      (a : StateDb)
      → Keeps share_id a (upsert_peer other peer_id addresses up name now a)
  unfolding upsert_peer
  upsert_peer-Keeps other peer_id addresses up name now a =
      let key : Text × Text = (other, peer_id) in
      let write = seen addresses up name now in
      let row = new_known_peer other peer_id addresses up name now in
      elim (Bool-cases (Table.has known_peer_key key a.known_peers)) [
        | inl there ↦
            rw (there, upsert_peer)
              (known_peers-Keeps a (Table.update known_peer_key key write a.known_peers)
                (λ p known. has-update known_peer_key p key write a.known_peers (λ r. refl) ∙ known)
                (λ u. update-IsUnique known_peer_key key write a.known_peers (λ r. refl) u))
        | inr absent ↦
            rw (absent, upsert_peer)
              (known_peers-Keeps a (a.known_peers ++ row ∷ [])
                (λ p known. ground (arith, known, has-append known_peer_key p a.known_peers row))
                (λ u. append-IsUnique known_peer_key a.known_peers row u (ground (arith, absent))))
      ]
