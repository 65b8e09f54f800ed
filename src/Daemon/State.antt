-- ===== src/Daemon/State.antt =====
-- daemon/daemon/state/db.py: the local database. State/Shares and State/Records have the operations of
-- `StateDB`. A table is the list
-- of its rows in the order of insertion. The seeds and the addresses stand for their base64 and JSON
-- texts. Left out: surrogate keys but the conflicts', and the times that no code reads. A limit is not
-- negative.
pub mod Shares
pub mod Records
use peerdup.Prelude.{ℕ, Text, Bytes, Bool, Option, List, text_eq, pair_eq}
use mathlib.Core.Option
use peerdup.Prelude.Table
use peerdup.Registry.Models.{PeerAddress}

pub data ShareState : Type 0 where
  syncing seeding paused error : ShareState

pub data ConflictStrategy : Type 0 where
  last_write_wins rename_conflict ask : ConflictStrategy

pub record LocalShare : Type 0 where
  pub share_id : Text
  pub name : Text
  pub local_path : Text
  pub permission : Text
  pub is_owner : Bool
  pub state : ShareState
  pub info_hash : Option Text
  pub seq : ℕ
  pub last_error : Option Text
  pub upload_limit : ℕ
  pub download_limit : ℕ
  pub conflict_strategy : ConflictStrategy
  pub local_only : Bool

pub record ShareKeypair : Type 0 where
  pub share_id : Text
  pub seed : Bytes

pub record LocalFile : Type 0 where
  pub share_id : Text
  pub rel_path : Text
  pub size : ℕ
  pub mtime_ns : ℕ
  pub sha256 : Option Text

-- `detected_at` is left out: the clock does not go back, so its order is the order of insertion.
pub record LocalConflict : Type 0 where
  pub id : ℕ
  pub share_id : Text
  pub remote_peer_id : Text
  pub remote_info_hash : Text
  pub local_info_hash : Option Text

pub record KnownPeer : Type 0 where
  pub share_id : Text
  pub peer_id : Text
  pub name : Text
  pub addresses : List PeerAddress
  pub online : Bool
  pub last_seen : Option ℕ

pub record StateDb : Type 0 where
  pub shares : List LocalShare
  pub keypairs : List ShareKeypair
  pub files : List LocalFile
  pub conflicts : List LocalConflict
  pub known_peers : List KnownPeer

abbrev pub share_key : LocalShare → Text
share_key r = r.share_id

abbrev pub keypair_key : ShareKeypair → Text
keypair_key r = r.share_id

abbrev pub file_key : LocalFile → Text × Text
file_key r = (r.share_id, r.rel_path)

abbrev pub known_peer_key : KnownPeer → Text × Text
known_peer_key r = (r.share_id, r.peer_id)
