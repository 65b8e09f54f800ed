-- ===== src/Registry/Discovery.antt =====
-- What an accepted announcement leaves, and what the sweep takes away.
use peerdup.Prelude.{
  ℕ, zero, suc, ◌≤◌, ◌<◌, Text, Bool, false, ◌≡◌, refl, ap, ◌∙◌, none, some, List, [], ◌∷◌,
  if◌then◌else◌, arith, ◌==◌, text_eq, pair_eq, text_beq_iff, select,
}
use peerdup.Prelude.Table
use peerdup.Prelude.Table.{
  IsUnique, passes, find-append, find-update, find-delete, has-select, delete-IsUnique,
}
use peerdup.Registry.Models.{AnnouncementRow, Database, announcement_key}
use peerdup.Registry.Messages.{AnnounceRequest}
use peerdup.Registry.Service.{Env, Context, Server}
use peerdup.Registry.Rules.{is_aborted}
use peerdup.Registry.Changes.{external, expiry, announce_cases, sweep_cases, drop_rows}
use peerdup.Registry.Announce.{host_of, granted_ttl, renew, first_row, request_key, announce_rpc}
use peerdup.Registry.Ttl.{drop_announcement, is_expired, sweep_round}
use peerdup.Registry.Invariant.{IsValid}

-- The lifetime granted is between 60 and 600 seconds, and is the one asked for when that lies
-- between them.
pub granted_ttl_bounds :
    (n : ℕ) → (60 ≤ granted_ttl n) × (granted_ttl n ≤ 600) × (60 ≤ n → n ≤ 600 → granted_ttl n ≡ n)
unfolding granted_ttl
granted_ttl_bounds zero = (omega arith, omega arith, λ h k. omega arith)
granted_ttl_bounds (suc n) = (omega arith, omega arith, λ h k. omega arith)

module _ (env : Env) (context : Context) (r : AnnounceRequest) (s : Server) where
  -- The row of the request's share and peer, with the times of two later readings of the clock; the rows
  -- of all other keys are as they were.
  abbrev pub Recorded : Database → Type 0
  Recorded db =
      (i j : ℕ) × (s.wall_reads ≤ i)
      × (i < j)
      × (row : AnnouncementRow) × (Table.find announcement_key (request_key r) db.announcements
          ≡ some row)
      × (row.internal_addrs ≡ r.internal_addrs)
      × (row.external_host ≡ host_of (external env context r))
      × (row.announced_at ≡ env.wall_clock j)
      × (row.expires_at ≡ expiry env context r i)
      × ((k : Text × Text)
          → (request_key r == k) ≡ false
          → Table.find announcement_key k db.announcements
            ≡ Table.find announcement_key k s.db.announcements)

  abbrev Records : Bool → Database → Type 0
  Records b db = b ≡ false → Recorded db

  -- After an announcement that is not aborted, the row of its share and peer holds the addresses
  -- sent, the host observed, and the times of two later readings of the clock with the granted
  -- lifetime; the rows of other keys are as they were.
  pub announce-Recorded :
      is_aborted (announce_rpc env context r s).0 ≡ false
      → Recorded (announce_rpc env context r s).1.db
  announce-Recorded =
      announce_cases env context r Records s (λ b. cc)
        λ auth signed member i j from later. (
          λ row found b.
              let f =
                renew r (external env context r) (env.wall_clock j) (expiry env context r i) in
              (
                i,
                j,
                from,
                later,
                f row,
                rw
                    (
                      find-update announcement_key (request_key r) (request_key r) f
                          s.db.announcements (λ _. refl),
                      found,
                    )
                    (ground (
                      arith,
                      text_beq_iff r.share_id r.share_id,
                      text_beq_iff r.peer_id r.peer_id,
                    )),
                refl,
                refl,
                refl,
                refl,
                λ k other. ground (
                  arith,
                  find-update announcement_key k (request_key r) f s.db.announcements (λ _. refl),
                ),
              ),
          λ fresh b.
              let row =
                first_row r (external env context r) (env.wall_clock j) (expiry env context r i) in
              (
                i,
                j,
                from,
                later,
                row,
                ground (
                  arith,
                  find-append announcement_key (request_key r) s.db.announcements row,
                  text_beq_iff r.share_id r.share_id,
                  text_beq_iff r.peer_id r.peer_id,
                ),
                refl,
                refl,
                refl,
                refl,
                λ k other. ground (arith, find-append announcement_key k s.db.announcements row),
              ),
        )

drop_rows_lem :
    (rows : List AnnouncementRow) (db : Database) (k : Text × Text)
    → IsUnique announcement_key db.announcements
    → Table.find announcement_key k (drop_rows rows db).announcements ≡ (
        if Table.has announcement_key k rows
        then none
        else Table.find announcement_key k db.announcements)
unfolding drop_rows Table.find
drop_rows_lem [] db k u = refl
drop_rows_lem (a ∷ rest) db k u = ground (
  arith,
  drop_rows_lem rest (drop_announcement (announcement_key a) db) k
      (delete-IsUnique announcement_key (announcement_key a) db.announcements u),
  find-delete announcement_key k (announcement_key a) db.announcements u,
)

-- The announcements that one sweep leaves, and the rest of the database.
abbrev pub Swept : ℕ → Database → Database → Type 0
Swept time before after =
    ((k : Text × Text)
      → Table.find announcement_key k after.announcements ≡ (
          if passes (is_expired time) (Table.find announcement_key k before.announcements)
          then none
          else Table.find announcement_key k before.announcements))
    × (after.peers ≡ before.peers)
    × (after.shares ≡ before.shares)
    × (after.members ≡ before.members)

drop_rows_rest :
    (rows : List AnnouncementRow) (db : Database)
    → ((drop_rows rows db).peers ≡ db.peers)
      × ((drop_rows rows db).shares ≡ db.shares)
      × ((drop_rows rows db).members ≡ db.members)
unfolding drop_rows
drop_rows_rest [] db = (refl, refl, refl)
drop_rows_rest (a ∷ rest) db = drop_rows_rest rest _

-- From a valid database, one sweep removes exactly the announcements whose expiry is not later than
-- its reading of the clock, and touches no other table.
pub sweep_exact :
    (env : Env) (s : Server)
    → IsValid s.db
    → Swept (env.wall_clock s.wall_reads) s.db (sweep_round env s).1.db
sweep_exact env s v =
    let time = env.wall_clock s.wall_reads in
    let rows = select (is_expired time) s.db.announcements in
    sweep_cases env (λ _ db. Swept time s.db db) s
      (
        λ k.
            drop_rows_lem rows s.db k v.announcements_unique
            ∙ ap (λ b. if b then none else Table.find announcement_key k s.db.announcements)
                (has-select announcement_key (is_expired time) k s.db.announcements
                  v.announcements_unique),
        (drop_rows_rest rows s.db).0,
        (drop_rows_rest rows s.db).1,
        (drop_rows_rest rows s.db).2,
      )
