-- ===== src/Registry/Changes/Reading.antt =====
-- The handlers that read, and the sweep: what they leave of the database.
use peerdup.Prelude.{
  ℕ, suc, Text, Bool, true, false, ◌≡◌, refl, inl, inr, some, List, [], ◌∷◌, Option-cases,
  Bool-cases, text_eq, pair_eq, select,
}
use peerdup.Prelude.Table
use peerdup.Registry.Models.{
  AnnouncementRow, Database, peer_key, share_key, member_key, announcement_key,
}
use peerdup.Registry.Messages.{GetSharePeersRequest, WatchSharePeersRequest}
use peerdup.Registry.Service.{Env, Context, Server, log, metric, metric_rpc, andthen, done}
use peerdup.Registry.Auth.{authenticated_peer}
use peerdup.Registry.Views.{members_of, build_share_peers}
use peerdup.Registry.Rules.{
  End, Reads-bind, build_share_peers-Reads, require_auth-End, require_share_member-End,
  require_share_owner-End,
}
use peerdup.Registry.Peers.{get_peer_rpc}
use peerdup.Registry.Shares.{get_share_rpc}
use peerdup.Registry.Listing.{
  get_share_peers_rpc, watch_snapshot_rpc, close_watch, get_share_activity_rpc,
}
use peerdup.Registry.Health.{health_rpc}
use peerdup.Registry.Ttl.{sweep_rows, sweep_round, drop_announcement, is_expired}

-- The caller is a member of the share `i`.
abbrev pub Reader : Env → Context → Database → Text → Type 0
Reader env context db i =
    (p : Text) × (authenticated_peer env context db ≡ some p)
    × (Table.has member_key (i, p) db.members ≡ true)

module _ (env : Env) (context : Context) (P : Bool → Database → Type 0) (s : Server)
    (refused : P true s.db) where
  pub get_peer_cases : P false s.db → (peer_id : Text) → End P (get_peer_rpc env context peer_id s)
  unfolding get_peer_rpc log
  get_peer_cases kept peer_id = require_auth-End env context P s _ refused λ p auth.
      elim (Option-cases (Table.find peer_key peer_id s.db.peers)) [
        | inl e ↦ rw (e, andthen) refused
        | inr (row, e) ↦ rw (e, andthen) kept
      ]

  pub get_share_cases :
      (share_id : Text)
      → (Reader env context s.db share_id → P false s.db)
      → End P (get_share_rpc env context share_id s)
  unfolding get_share_rpc log
  get_share_cases share_id kept = require_auth-End env context P s _ refused λ p auth.
      elim (Option-cases (Table.find share_key share_id s.db.shares)) [
        | inl e ↦ rw (e, andthen) refused
        | inr (row, e) ↦
            rw (e, andthen)
              (elim (Bool-cases (Table.has member_key (share_id, p) s.db.members)) [
                | inl m ↦ rw m (
                    Reads-bind (build_share_peers env (members_of share_id s.db)) _ P s
                      (build_share_peers-Reads env (members_of share_id s.db)) (kept (p, auth, m))
                      (λ ps u same. rw same (kept (p, auth, m))))
                | inr f ↦ rw f refused
              ])
      ]

  pub get_share_peers_cases :
      (r : GetSharePeersRequest)
      → (Reader env context s.db r.share_id → P false s.db)
      → End P (get_share_peers_rpc env context r s)
  unfolding get_share_peers_rpc log
  get_share_peers_cases r kept = require_auth-End env context P s _ refused λ p auth.
      require_share_member-End env context P s r.share_id p _ _ refused λ m found.
        elim (Option-cases (Table.find share_key r.share_id s.db.shares)) [
          | inl e ↦ rw (e, andthen) refused
          | inr (row, e) ↦
              rw (e, andthen)
                (Reads-bind (build_share_peers env (members_of r.share_id s.db)) _ P s
                  (build_share_peers-Reads env (members_of r.share_id s.db))
                  (kept (p, auth, rw found)) (λ ps u same. rw same (kept (p, auth, rw found))))
        ]

  pub watch_snapshot_cases :
      (r : WatchSharePeersRequest)
      → (Reader env context s.db r.share_id → P false s.db)
      → End P (watch_snapshot_rpc env context r s)
  unfolding watch_snapshot_rpc log metric
  watch_snapshot_cases r kept = require_auth-End env context P s _ refused λ p auth.
      require_share_member-End env context P s r.share_id p _ _ refused λ m found.
        elim (Option-cases (Table.find share_key r.share_id s.db.shares)) [
          | inl e ↦ rw (e, andthen) refused
          | inr (row, e) ↦
              rw (e, andthen)
                (Reads-bind (build_share_peers env (members_of r.share_id s.db)) _ P _
                  (build_share_peers-Reads env (members_of r.share_id s.db))
                  (kept (p, auth, rw found)) (λ ps u same. rw same (kept (p, auth, rw found))))
        ]

  pub close_watch_cases : P false s.db → End P (close_watch env context s)
  unfolding close_watch metric
  close_watch_cases kept = kept

  pub get_share_activity_cases :
      P false s.db → (share_id : Text) → End P (get_share_activity_rpc env context share_id s)
  unfolding get_share_activity_rpc log metric_rpc
  get_share_activity_cases kept share_id =
      require_auth-End env context P (record s { monotonic_reads = suc s.monotonic_reads }) _
        refused
        λ p auth.
          require_share_owner-End env context P
            (record s { monotonic_reads = suc s.monotonic_reads }) share_id p _ _ refused
            λ r found owns. kept

  pub health_cases : P false s.db → (reachable : Bool) → End P (health_rpc env reachable s)
  unfolding health_rpc log metric_rpc
  health_cases kept true = kept
  health_cases kept false = kept

-- The database without the rows of a list.
unfoldable pub drop_rows : List AnnouncementRow → Database → Database
drop_rows [] db = db
drop_rows (a ∷ rest) db = drop_rows rest (drop_announcement (announcement_key a) db)

sweep_rows_lem :
    (time : ℕ) (rows : List AnnouncementRow) (s : Server)
    → ((sweep_rows time rows s).0 ≡ done tt) × ((sweep_rows time rows s).1.db ≡ drop_rows rows s.db)
unfolding sweep_rows drop_rows
sweep_rows_lem time [] s = (refl, refl)
sweep_rows_lem time (a ∷ rest) s =
    elim (Option-cases (Table.find member_key (a.share_id, a.peer_id) s.db.members)) [
      | inl e ↦ rw (e, andthen) (sweep_rows_lem time rest _)
      | inr (m, e) ↦ rw (e, andthen) (sweep_rows_lem time rest _)
    ]

-- One sweep drops the rows that had expired at its reading of the clock.
pub sweep_cases :
    (env : Env) (P : Bool → Database → Type 0) (s : Server)
    → P false
        (drop_rows (select (is_expired (env.wall_clock s.wall_reads)) s.db.announcements) s.db)
    → End P (sweep_round env s)
unfolding sweep_round metric
sweep_cases env P s swept =
    let t : Server = record s {
      monotonic_reads = suc s.monotonic_reads;
      wall_reads = suc s.wall_reads;
    } in
    let time = env.wall_clock s.wall_reads in
    let (ended, db) = sweep_rows_lem time (select (is_expired time) s.db.announcements) t in
    rw (ended, andthen) (rw db swept)
