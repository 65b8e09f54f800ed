-- ===== src/Registry/Models.antt =====
-- registry/registry/db/models.py: the rows of the four tables, and the messages that they become.
-- A table is the list of its rows in the order of insertion; times are microseconds since the
-- epoch. The surrogate `id` columns are left out, since no code reads them, and `internal_addrs`
-- holds the addresses that its JSON text encodes: only Announce writes that column.
use peerdup.Prelude.{ℕ, Text, ℤ, Bool, Option, List, []}

pub data PermissionEnum : Type 0 where
  read_write read_only encrypted : PermissionEnum

pub record PeerAddress : Type 0 where
  pub host : Text
  pub port : ℕ
  pub is_lan : Bool

pub record PeerRow : Type 0 where
  pub peer_id : Text
  pub name : Text
  pub token_hash : Text
  pub created_at : ℕ

pub record ShareRow : Type 0 where
  pub share_id : Text
  pub name : Text
  pub owner_id : Text
  pub created_at : ℕ
  pub upload_limit_bps : ℕ
  pub download_limit_bps : ℕ

pub record MemberRow : Type 0 where
  pub share_id : Text
  pub peer_id : Text
  pub permission : PermissionEnum
  pub added_at : ℕ

pub record AnnouncementRow : Type 0 where
  pub share_id : Text
  pub peer_id : Text
  pub internal_addrs : List PeerAddress
  pub external_host : Option Text
  pub external_port : Option ℤ
  pub info_hash : Option Text
  pub announced_at : ℕ
  pub expires_at : ℕ

pub record Database : Type 0 where
  pub peers : List PeerRow
  pub shares : List ShareRow
  pub members : List MemberRow
  pub announcements : List AnnouncementRow

abbrev pub empty_database : Database
empty_database = record { peers = []; shares = []; members = []; announcements = [] }

-- The keys: the primary keys, and the unique constraints on (share_id, peer_id).
abbrev pub peer_key : PeerRow → Text
peer_key r = r.peer_id

abbrev pub share_key : ShareRow → Text
share_key r = r.share_id

abbrev pub member_key : MemberRow → Text × Text
member_key r = (r.share_id, r.peer_id)

abbrev pub announcement_key : AnnouncementRow → Text × Text
announcement_key r = (r.share_id, r.peer_id)
