-- ===== src/Registry/Invariant/Rows.antt =====
-- Each write to the tables keeps the invariant.
use peerdup.Prelude.{
  ℕ, Text, true, false, ◌≡◌, ◌∙◌, inl, inr, none, some, arith, ◌==◌, text_eq, pair_eq, text_beq_iff,
  Option-cases,
}
use peerdup.Prelude.Table
use peerdup.Prelude.Table.{
  find-append, find-update, find-delete, has-append, has-update, has-delete, append-IsUnique,
  update-IsUnique, delete-IsUnique, find-key,
}
use peerdup.Registry.Models.{
  PeerRow, ShareRow, MemberRow, AnnouncementRow, PermissionEnum, Database, peer_key, share_key,
  member_key, announcement_key,
}
use peerdup.Registry.Peers.{put_peer, add_peer}
use peerdup.Registry.Shares.{add_share, put_share}
use peerdup.Registry.Membership.{put_member, add_member, drop_member}
use peerdup.Registry.Announce.{put_announcement, add_announcement}
use peerdup.Registry.Changes.{new_member}
use peerdup.Registry.Ttl.{drop_announcement}
use peerdup.Registry.Invariant.{IsValid}

module _ (db : Database) (v : IsValid db) where
  pub put_peer-IsValid :
      (k : Text) (f : PeerRow → PeerRow)
      → ((r : PeerRow) → peer_key (f r) ≡ peer_key r)
      → IsValid (put_peer k f db)
  put_peer-IsValid k f keep = record {
    peers_unique = update-IsUnique peer_key k f db.peers keep v.peers_unique;
    shares_unique = v.shares_unique;
    members_unique = v.members_unique;
    announcements_unique = v.announcements_unique;
    owner_is_member = v.owner_is_member;
    member_has_share = v.member_has_share;
    member_has_peer = λ i p h. has-update peer_key p k f db.peers keep ∙ v.member_has_peer i p h;
    announced_is_member = v.announced_is_member;
  }

  pub add_peer-IsValid :
      (r : PeerRow) → Table.has peer_key r.peer_id db.peers ≡ false → IsValid (add_peer r db)
  add_peer-IsValid r fresh = record {
    peers_unique = append-IsUnique peer_key db.peers r v.peers_unique (ground arith);
    shares_unique = v.shares_unique;
    members_unique = v.members_unique;
    announcements_unique = v.announcements_unique;
    owner_is_member = v.owner_is_member;
    member_has_share = v.member_has_share;
    member_has_peer =
        λ i p h. ground (arith, has-append peer_key p db.peers r, v.member_has_peer i p);
    announced_is_member = v.announced_is_member;
  }

  pub put_share-IsValid :
      (k : Text) (f : ShareRow → ShareRow)
      → ((r : ShareRow) → (share_key (f r) ≡ share_key r) × ((f r).owner_id ≡ r.owner_id))
      → IsValid (put_share k f db)
  put_share-IsValid k f keep = record {
    peers_unique = v.peers_unique;
    shares_unique = update-IsUnique share_key k f db.shares (λ r. (keep r).0) v.shares_unique;
    members_unique = v.members_unique;
    announcements_unique = v.announcements_unique;
    owner_is_member = λ i r e. elim (Option-cases (Table.find share_key i db.shares)) [
      | inl n ↦ ground (arith, find-update share_key i k f db.shares (λ r. (keep r).0))
      | inr (r0, e0) ↦ ground (
        arith,
        find-update share_key i k f db.shares (λ r. (keep r).0),
        keep r0,
        v.owner_is_member i r0 e0,
      )
    ];
    member_has_share =
        λ i p h. has-update share_key i k f db.shares (λ r. (keep r).0) ∙ v.member_has_share i p h;
    member_has_peer = v.member_has_peer;
    announced_is_member = v.announced_is_member;
  }

  pub add_share-IsValid :
      (sh : ShareRow) (permission : PermissionEnum) (time : ℕ)
      → Table.has share_key sh.share_id db.shares ≡ false
      → Table.has peer_key sh.owner_id db.peers ≡ true
      → IsValid (add_share sh (new_member sh.share_id sh.owner_id permission time) db)
  add_share-IsValid sh permission time fresh known =
      let m : MemberRow = new_member sh.share_id sh.owner_id permission time in
      record {
        peers_unique = v.peers_unique;
        shares_unique = append-IsUnique share_key db.shares sh v.shares_unique (ground arith);
        members_unique =
            append-IsUnique member_key db.members m v.members_unique
              (ground (arith, v.member_has_share sh.share_id sh.owner_id));
        announcements_unique = v.announcements_unique;
        owner_is_member = λ i r e. ground (
          arith,
          find-append share_key i db.shares sh,
          has-append member_key (i, r.owner_id) db.members m,
          v.owner_is_member i r,
          text_beq_iff sh.share_id i,
          text_beq_iff sh.owner_id r.owner_id,
        );
        member_has_share = λ i p h. ground (
          arith,
          has-append share_key i db.shares sh,
          has-append member_key (i, p) db.members m,
          v.member_has_share i p,
        );
        member_has_peer = λ i p h. ground (
          arith,
          has-append member_key (i, p) db.members m,
          v.member_has_peer i p,
          text_beq_iff sh.owner_id p,
        );
        announced_is_member = λ i p h.
            ground (arith, has-append member_key (i, p) db.members m, v.announced_is_member i p);
      }

  pub put_member-IsValid :
      (k : Text × Text) (f : MemberRow → MemberRow)
      → ((r : MemberRow) → member_key (f r) ≡ member_key r)
      → IsValid (put_member k f db)
  put_member-IsValid k f keep = record {
    peers_unique = v.peers_unique;
    shares_unique = v.shares_unique;
    members_unique = update-IsUnique member_key k f db.members keep v.members_unique;
    announcements_unique = v.announcements_unique;
    owner_is_member = λ i r e.
        has-update member_key (i, r.owner_id) k f db.members keep ∙ v.owner_is_member i r e;
    member_has_share = λ i p h.
        ground (arith, has-update member_key (i, p) k f db.members keep, v.member_has_share i p);
    member_has_peer = λ i p h.
        ground (arith, has-update member_key (i, p) k f db.members keep, v.member_has_peer i p);
    announced_is_member =
        λ i p h. has-update member_key (i, p) k f db.members keep ∙ v.announced_is_member i p h;
  }

  pub add_member-IsValid :
      (m : MemberRow)
      → Table.has member_key (m.share_id, m.peer_id) db.members ≡ false
      → Table.has share_key m.share_id db.shares ≡ true
      → Table.has peer_key m.peer_id db.peers ≡ true
      → IsValid (add_member m db)
  add_member-IsValid m fresh shared known = record {
    peers_unique = v.peers_unique;
    shares_unique = v.shares_unique;
    members_unique = append-IsUnique member_key db.members m v.members_unique (ground arith);
    announcements_unique = v.announcements_unique;
    owner_is_member = λ i r e.
        ground (arith, has-append member_key (i, r.owner_id) db.members m, v.owner_is_member i r);
    member_has_share = λ i p h. ground (
      arith,
      has-append member_key (i, p) db.members m,
      v.member_has_share i p,
      text_beq_iff m.share_id i,
    );
    member_has_peer = λ i p h. ground (
      arith,
      has-append member_key (i, p) db.members m,
      v.member_has_peer i p,
      text_beq_iff m.peer_id p,
    );
    announced_is_member = λ i p h.
        ground (arith, has-append member_key (i, p) db.members m, v.announced_is_member i p);
  }

  -- The owner's membership is not to be dropped.
  pub drop_member-IsValid :
      (share_id peer_id : Text) (row : ShareRow)
      → Table.find share_key share_id db.shares ≡ some row
      → (peer_id == row.owner_id) ≡ false
      → IsValid (drop_member (share_id, peer_id) db)
  drop_member-IsValid share_id peer_id row found other = record {
    peers_unique = v.peers_unique;
    shares_unique = v.shares_unique;
    members_unique = delete-IsUnique member_key (share_id, peer_id) db.members v.members_unique;
    announcements_unique =
        delete-IsUnique announcement_key (share_id, peer_id) db.announcements
          v.announcements_unique;
    owner_is_member = λ i r e. ground (
      arith,
      has-delete member_key (i, r.owner_id) (share_id, peer_id) db.members v.members_unique,
      v.owner_is_member i r,
      text_beq_iff share_id i,
    );
    member_has_share = λ i p h. ground (
      arith,
      has-delete member_key (i, p) (share_id, peer_id) db.members v.members_unique,
      v.member_has_share i p,
    );
    member_has_peer = λ i p h. ground (
      arith,
      has-delete member_key (i, p) (share_id, peer_id) db.members v.members_unique,
      v.member_has_peer i p,
    );
    announced_is_member = λ i p h. ground (
      arith,
      has-delete member_key (i, p) (share_id, peer_id) db.members v.members_unique,
      has-delete announcement_key (i, p) (share_id, peer_id) db.announcements
          v.announcements_unique,
      v.announced_is_member i p,
    );
  }

  pub put_announcement-IsValid :
      (k : Text × Text) (f : AnnouncementRow → AnnouncementRow)
      → ((r : AnnouncementRow) → announcement_key (f r) ≡ announcement_key r)
      → IsValid (put_announcement k f db)
  put_announcement-IsValid k f keep = record {
    peers_unique = v.peers_unique;
    shares_unique = v.shares_unique;
    members_unique = v.members_unique;
    announcements_unique =
        update-IsUnique announcement_key k f db.announcements keep v.announcements_unique;
    owner_is_member = v.owner_is_member;
    member_has_share = v.member_has_share;
    member_has_peer = v.member_has_peer;
    announced_is_member = λ i p h. ground (
      arith,
      has-update announcement_key (i, p) k f db.announcements keep,
      v.announced_is_member i p,
    );
  }

  pub add_announcement-IsValid :
      (a : AnnouncementRow)
      → Table.find announcement_key (a.share_id, a.peer_id) db.announcements ≡ none
      → Table.has member_key (a.share_id, a.peer_id) db.members ≡ true
      → IsValid (add_announcement a db)
  add_announcement-IsValid a fresh member = record {
    peers_unique = v.peers_unique;
    shares_unique = v.shares_unique;
    members_unique = v.members_unique;
    announcements_unique =
        append-IsUnique announcement_key db.announcements a v.announcements_unique fresh;
    owner_is_member = v.owner_is_member;
    member_has_share = v.member_has_share;
    member_has_peer = v.member_has_peer;
    announced_is_member = λ i p h. ground (
      arith,
      has-append announcement_key (i, p) db.announcements a,
      v.announced_is_member i p,
      text_beq_iff a.share_id i,
      text_beq_iff a.peer_id p,
    );
  }

  pub drop_announcement-IsValid : (k : Text × Text) → IsValid (drop_announcement k db)
  drop_announcement-IsValid k = record {
    peers_unique = v.peers_unique;
    shares_unique = v.shares_unique;
    members_unique = v.members_unique;
    announcements_unique =
        delete-IsUnique announcement_key k db.announcements v.announcements_unique;
    owner_is_member = v.owner_is_member;
    member_has_share = v.member_has_share;
    member_has_peer = v.member_has_peer;
    announced_is_member = λ i p h. ground (
      arith,
      has-delete announcement_key (i, p) k db.announcements v.announcements_unique,
      v.announced_is_member i p,
    );
  }
