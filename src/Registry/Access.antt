-- ===== src/Registry/Access.antt =====
-- Who may change what: memberships and policies are the owner's, and an announcement is its peer's.

use peerdup.Prelude.{
  Text, max_zero, Bool, false, ◌≡◌, ◌≢◌, refl, ap, ◌⊎◌, inl, inr, none, some, List, [], ◌∷◌, arith,
  ◌==◌, text_eq, pair_eq, text_beq_iff, Bool-cases, select,
}
use peerdup.Prelude.Table
use peerdup.Prelude.Table.{find-append, find-update, find-delete, find-key, delete-IsUnique}
use peerdup.Registry.Models.{
  read_write, ShareRow, AnnouncementRow, Database, share_key, member_key, announcement_key,
}
use peerdup.Registry.Service.{Env, Context, Server}
use peerdup.Registry.Auth.{authenticated_peer}
use peerdup.Registry.Views.{perm_proto_to_model}
use peerdup.Registry.Shares.{set_limits}
use peerdup.Registry.Membership.{set_permission}
use peerdup.Registry.Announce.{renew, first_row}
use peerdup.Registry.Ttl.{is_expired}
use peerdup.Registry.Changes.{drop_rows, new_share, new_member, external, expiry}
use peerdup.Registry.Effects.{Effect, handle-End}
use peerdup.Registry.Invariant.{IsValid}
use peerdup.Registry.Invariant.Rows.{drop_announcement-IsValid}
use peerdup.Registry.Dispatch.{
  Call, register_peer, create_share, get_share, add_peer_to_share, remove_peer_from_share,
  set_share_policy, announce, get_share_peers, watch_share_peers, sweep_tick, handle,
}

drop_rows-shares :
    (rows : List AnnouncementRow) (db : Database)
    → ((drop_rows rows db).shares ≡ db.shares) × ((drop_rows rows db).members ≡ db.members)
unfolding drop_rows
drop_rows-shares [] db = (refl, refl)
drop_rows-shares (a ∷ rest) db = drop_rows-shares rest _

module _ (env : Env) (context : Context) (s : Server) (v : IsValid s.db) where
  -- The share `i` and the membership of `p` in it are as they were.
  abbrev pub SameShare : Text → Text → Database → Type 0
  SameShare i p db =
      (Table.find share_key i db.shares ≡ Table.find share_key i s.db.shares)
      × (Table.find member_key (i, p) db.members ≡ Table.find member_key (i, p) s.db.members)

  module _ (i p : Text) (row : ShareRow) (known : Table.find share_key i s.db.shares ≡ some row)
      (stranger : authenticated_peer env context s.db ≢ some row.owner_id) where
    -- A caller that owns a share `j` does not own `i`.
    other_share :
        (j caller : Text) (r : ShareRow)
        → authenticated_peer env context s.db ≡ some caller
        → Table.find share_key j s.db.shares ≡ some r
        → r.owner_id ≡ caller
        → (j == i) ≡ false
    other_share j caller r auth found owns = elim (Bool-cases (j == i)) [
      | inr f ↦ f
      | inl t ↦ absurd (stranger (ground (arith, text_beq_iff j i)))
    ]

    abbrev Same : Bool → Database → Type 0
    Same _ db = SameShare i p db

    Effect-Same : (call : Call) → Effect env context Same s call
    Effect-Same (register_peer r) = λ time _. (λ _. (refl, refl), λ _. (refl, refl))
    Effect-Same (create_share r) = λ caller t u auth _ fresh. (
      ground (
        arith,
        find-append share_key i s.db.shares (new_share r.share_id r.name caller t),
        text_beq_iff r.share_id i,
      ),
      ground (
        arith,
        find-append member_key (i, p) s.db.members (new_member r.share_id caller read_write u),
        text_beq_iff r.share_id i,
      ),
    )
    Effect-Same (add_peer_to_share r) = λ caller row' time auth found owns _.
        let permission = perm_proto_to_model r.permission in
        (
          λ _. (
            refl,
            ground (
              arith,
              find-update member_key (i, p) (r.share_id, r.peer_id) (set_permission permission)
                  s.db.members (λ _. refl),
              other_share r.share_id caller row' auth found owns,
            ),
          ),
          λ fresh. (
            refl,
            ground (
              arith,
              find-append member_key (i, p) s.db.members
                  (new_member r.share_id r.peer_id permission time),
              other_share r.share_id caller row' auth found owns,
            ),
          ),
        )
    Effect-Same (remove_peer_from_share r) = λ caller row' auth found owns _. (
      refl,
      ground (
        arith,
        find-delete member_key (i, p) (r.share_id, r.peer_id) s.db.members v.members_unique,
        other_share r.share_id caller row' auth found owns,
      ),
    )
    Effect-Same (set_share_policy r) = λ caller row' auth found owns. (
      ground (
        arith,
        find-update share_key i r.share_id
            (set_limits (max_zero r.upload_limit_bps) (max_zero r.download_limit_bps)) s.db.shares
            (λ _. refl),
        other_share r.share_id caller row' auth found owns,
      ),
      refl,
    )
    Effect-Same (announce r) = λ _ _ _ _ _ _ _. (λ _ _. (refl, refl), λ _. (refl, refl))
    Effect-Same sweep_tick =
        let time = env.wall_clock s.wall_reads in
        let (shares, members) =
          drop_rows-shares (select (is_expired time) s.db.announcements) s.db in
        (ap (Table.find share_key i) shares, ap (Table.find member_key (i, p)) members)
    Effect-Same (get_share j) = λ _. (refl, refl)
    Effect-Same (get_share_peers r) = λ _. (refl, refl)
    Effect-Same (watch_share_peers r) = λ _. (refl, refl)
    Effect-Same _ = (refl, refl)

  -- A call that is not authenticated as the owner of a share changes neither the share's row (its name,
  -- owner and policy) nor any membership in it, on a valid database and however the call ends.
  pub stranger_unchanged :
      (call : Call) (i p : Text) (row : ShareRow)
      → Table.find share_key i s.db.shares ≡ some row
      → authenticated_peer env context s.db ≢ some row.owner_id
      → SameShare i p (handle env context call s).1.db
  stranger_unchanged call i p row known stranger =
      handle-End env context (Same i p row known stranger) s call (refl, refl)
        (Effect-Same i p row known stranger call)

  -- The announcement of `p` in `i` is gone or as it was.
  abbrev pub SameOrGone : Text → Text → Database → Type 0
  SameOrGone i p db =
      (Table.find announcement_key (i, p) db.announcements ≡ none)
      ⊎ (Table.find announcement_key (i, p) db.announcements
          ≡ Table.find announcement_key (i, p) s.db.announcements)

  drop_rows-SameOrGone :
      (i p : Text) (rows : List AnnouncementRow) (db : Database)
      → IsValid db
      → SameOrGone i p db
      → SameOrGone i p (drop_rows rows db)
  unfolding drop_rows
  drop_rows-SameOrGone i p [] db w h = h
  drop_rows-SameOrGone i p (a ∷ rest) db w h =
      drop_rows-SameOrGone i p rest _ (drop_announcement-IsValid db w (announcement_key a)) (
        ground (
          arith,
          find-delete announcement_key (i, p) (announcement_key a) db.announcements
              w.announcements_unique,
        ))

  module _ (i p : Text) (other : authenticated_peer env context s.db ≢ some p) where
    abbrev Spared : Bool → Database → Type 0
    Spared _ db = SameOrGone i p db

    Effect-Spared : (call : Call) → Effect env context Spared s call
    Effect-Spared (register_peer r) = λ time _. (λ _. inr refl, λ _. inr refl)
    Effect-Spared (create_share r) = λ _ _ _ _ _ _. inr refl
    Effect-Spared (add_peer_to_share r) = λ _ _ _ _ _ _ _. (λ _. inr refl, λ _. inr refl)
    Effect-Spared (remove_peer_from_share r) = λ _ _ _ _ _ _. ground (
      arith,
      find-delete announcement_key (i, p) (r.share_id, r.peer_id) s.db.announcements
          v.announcements_unique,
    )
    Effect-Spared (set_share_policy r) = λ _ _ _ _ _. inr refl
    Effect-Spared (announce r) = λ auth _ _ m n _ _. (
      λ row found. inr (
          ground (
            arith,
            find-update announcement_key (i, p) (r.share_id, r.peer_id)
                (renew r (external env context r) (env.wall_clock n) (expiry env context r m))
                s.db.announcements (λ _. refl),
            text_beq_iff r.peer_id p,
          )),
      λ fresh. inr (
          ground (
            arith,
            find-append announcement_key (i, p) s.db.announcements
                (first_row r (external env context r) (env.wall_clock n) (expiry env context r m)),
            text_beq_iff r.peer_id p,
          )),
    )
    Effect-Spared sweep_tick =
        let time = env.wall_clock s.wall_reads in
        drop_rows-SameOrGone i p (select (is_expired time) s.db.announcements) s.db v (inr refl)
    Effect-Spared (get_share j) = λ _. inr refl
    Effect-Spared (get_share_peers r) = λ _. inr refl
    Effect-Spared (watch_share_peers r) = λ _. inr refl
    Effect-Spared _ = inr refl

  -- On a valid database, whatever call is made that is not authenticated as the peer `p`, the
  -- announcement of `p` in `i` stays as it was or is removed.
  pub announcement_is_own :
      (call : Call) (i p : Text)
      → authenticated_peer env context s.db ≢ some p
      → SameOrGone i p (handle env context call s).1.db
  announcement_is_own call i p other =
      handle-End env context (Spared i p other) s call (inr refl) (Effect-Spared i p other call)
