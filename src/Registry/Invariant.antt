-- ===== src/Registry/Invariant.antt =====
-- The invariant of the registry's database: unique keys, and no dangling reference.
pub mod Rows
pub mod Run
use peerdup.Prelude.{Text, Bool, true, ◌≡◌, some}
use peerdup.Prelude.{text_eq, pair_eq}
use peerdup.Prelude.Table
use peerdup.Prelude.Table.{IsUnique}
use peerdup.Registry.Models.{ShareRow, Database, peer_key, share_key, member_key, announcement_key}

-- The owner of a share stays its member, memberships are of known shares and peers, and only
-- members are announced.
pub record IsValid (db : Database) : Type 0 where
  pub peers_unique : IsUnique peer_key db.peers
  pub shares_unique : IsUnique share_key db.shares
  pub members_unique : IsUnique member_key db.members
  pub announcements_unique : IsUnique announcement_key db.announcements
  pub owner_is_member :
      (i : Text) (r : ShareRow)
      → Table.find share_key i db.shares ≡ some r
      → Table.has member_key (i, r.owner_id) db.members ≡ true
  pub member_has_share :
      (i p : Text)
      → Table.has member_key (i, p) db.members ≡ true
      → Table.has share_key i db.shares ≡ true
  pub member_has_peer :
      (i p : Text)
      → Table.has member_key (i, p) db.members ≡ true
      → Table.has peer_key p db.peers ≡ true
  pub announced_is_member :
      (i p : Text)
      → Table.has announcement_key (i, p) db.announcements ≡ true
      → Table.has member_key (i, p) db.members ≡ true
