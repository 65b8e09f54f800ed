-- ===== src/Daemon/Ownership.antt =====
-- Who may ask the registry to change the access to a share, and what is left of a share that is removed:
-- `grant_access`, `revoke_access` and `remove_share` of daemon/daemon/sync/coordinator.py.
use peerdup.Prelude.{
  Text, true, false, not, ◌≡◌, ◌⊎◌, inl, inr, refl, none, some, List, [], ◌∷◌, ◌==◌, text_eq,
  beq_refl, arith, Bool-cases, Option-cases, select,
}
use peerdup.Prelude.Table
use peerdup.Prelude.Table.{find-delete, is_some}
use peerdup.Daemon.State.{LocalShare, LocalFile, share_key}
use peerdup.Daemon.State.Shares
use peerdup.Daemon.State.Shares.{get_share}
use peerdup.Daemon.State.Records.{get_files}
use peerdup.Daemon.World.{
  World, Daemon, remove_peer_from_share, mem, without, watch_key, handle_key,
}
use peerdup.Daemon.Coordinator.{Reply, remove_share}
use peerdup.Daemon.Coordinator.Control.{as_owner, grant_act, send, grant_access, revoke_access}

-- The share is here, is ours, and is known to a registry.
abbrev pub IsOwned : Text → Daemon → Type 0
IsOwned share_id d =
    (s : LocalShare) × (get_share share_id d.db ≡ some s)
    × (s.is_owner ≡ true)
    × (s.local_only ≡ false)

as_owner-cases :
    (share_id : Text) (act : Daemon → Reply (Unit {0}) × Daemon) (d : Daemon)
    → ((as_owner share_id act d).1 ≡ d) ⊎ IsOwned share_id d
as_owner-cases share_id act d = elim (Option-cases (get_share share_id d.db)) [
  | inl missing ↦ inl (ground (arith, missing))
  | inr (s, found) ↦ elim (Bool-cases s.is_owner) [
    | inr other ↦ inl (ground (arith, found, other))
    | inl ours ↦ elim (Bool-cases s.local_only) [
      | inl local ↦ inl (ground (arith, found, ours, local))
      | inr registered ↦ inr (s, found, ours, registered)
    ]
  ]
]

-- To grant or to revoke access changes nothing and asks the registry for nothing, unless the share
-- is here, is owned and is not local only.
pub access_needs_owner :
    (w : World) (share_id peer_id permission : Text) (d : Daemon)
    → (((grant_access w share_id peer_id permission d).1 ≡ d)
        × ((revoke_access w share_id peer_id d).1 ≡ d))
      ⊎ IsOwned share_id d
unfolding grant_access revoke_access
access_needs_owner w share_id peer_id permission d =
    elim (as_owner-cases share_id (grant_act w share_id peer_id permission) d) [
      | inr owned ↦ inr owned
      | inl kept ↦
          elim (as_owner-cases share_id (send w (remove_peer_from_share share_id peer_id)) d) [
            | inr owned ↦ inr owned
            | inl also ↦ inl (kept, also)
          ]
    ]

mem-without : (t : Text) (us : List Text) → mem t (without t us) ≡ false
unfolding mem select
mem-without t [] = refl
mem-without t (u ∷ us) = ground (arith, mem-without t us)

get_files-select :
    (share_id : Text) (fs : List LocalFile)
    → select
        (λ (f : LocalFile). f.share_id == share_id)
        (select (λ (f : LocalFile). not (f.share_id == share_id)) fs)
      ≡ []
unfolding select
get_files-select share_id [] = refl
get_files-select share_id (f ∷ fs) = ground (arith, get_files-select share_id fs)

-- The removal of a share, where no share, torrent or stream stands twice, leaves no row, no torrent, no
-- registry stream, no announcement, no watched directory and no file of it, but every known peer and every
-- conflict.
pub remove_share-Forgets :
    (share_id : Text) (s : LocalShare) (d : Daemon)
    → get_share share_id d.db ≡ some s
    → Table.IsUnique share_key d.db.shares
    → Table.IsUnique handle_key d.handles
    → Table.IsUnique watch_key d.watches
    → (get_share share_id (remove_share share_id d).1.db ≡ none)
      × (Table.find handle_key share_id (remove_share share_id d).1.handles ≡ none)
      × (Table.find watch_key share_id (remove_share share_id d).1.watches ≡ none)
      × (mem share_id (remove_share share_id d).1.announcing ≡ false)
      × (mem share_id (remove_share share_id d).1.watched ≡ false)
      × (get_files share_id (remove_share share_id d).1.db ≡ [])
      × ((remove_share share_id d).1.db.known_peers ≡ d.db.known_peers)
      × ((remove_share share_id d).1.db.conflicts ≡ d.db.conflicts)
unfolding remove_share Shares.remove_share
remove_share-Forgets share_id s d found u v x = ground (
  arith,
  found,
  beq_refl share_id,
  find-delete share_key share_id share_id d.db.shares u,
  find-delete handle_key share_id share_id d.handles v,
  find-delete watch_key share_id share_id d.watches x,
  mem-without share_id d.announcing,
  mem-without share_id d.watched,
  get_files-select share_id d.db.files,
)
