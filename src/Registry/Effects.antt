-- ===== src/Registry/Effects.antt =====
-- One rule for every call of the service: how it ends, given what is shown of each write.
use peerdup.Prelude.{Bool, true, false, ◌≡◌, some, select, text_eq, pair_eq}
use peerdup.Prelude.Table
use peerdup.Registry.Models.{Database, member_key}
use peerdup.Registry.Service.{Env, Context, Server, Result, done, fail}
use peerdup.Registry.Crypto.{verify_announce}
use peerdup.Registry.Auth.{authenticated_peer}
use peerdup.Registry.Ttl.{is_expired}
use peerdup.Registry.Rules.{End}
use peerdup.Registry.Announce.{request_key}
use peerdup.Registry.Changes.{
  Registers, register_peer_cases, Creates, create_share_cases, SetsPolicy, set_share_policy_cases,
  Grants, add_peer_to_share_cases, Removes, remove_peer_from_share_cases, Announces, announce_cases,
  get_peer_cases, get_share_cases, get_share_peers_cases, watch_snapshot_cases, close_watch_cases,
  get_share_activity_cases, health_cases, sweep_cases, Reader, drop_rows,
}
use peerdup.Registry.Dispatch.{
  Call, register_peer, get_peer, create_share, get_share, add_peer_to_share, remove_peer_from_share,
  set_share_policy, announce, get_share_peers, watch_share_peers, end_watch, health,
  get_share_activity, sweep_tick, outcome, handle,
}

outcome-End :
    {A : Type 0} (P : Bool → Database → Type 0) (x : Result A × Server)
    → End P x
    → End P (outcome x)
outcome-End P (done a, s) h = h
outcome-End P (fail e, s) h = h

module _ (env : Env) (context : Context) (P : Bool → Database → Type 0) (s : Server) where
  -- What is to be shown of `P` for a call.
  abbrev pub Effect : Call → Type 0
  Effect (register_peer r) = Registers env context P s r
  Effect (create_share r) = Creates env context P s r
  Effect (add_peer_to_share r) = Grants env context P s r
  Effect (remove_peer_from_share r) = Removes env context P s r
  Effect (set_share_policy r) = SetsPolicy env context P s r
  Effect (announce r) =
      authenticated_peer env context s.db ≡ some r.peer_id
      → verify_announce env r.peer_id r.share_id r.internal_addrs r.ttl_seconds r.signature ≡ true
      → Table.has member_key (request_key r) s.db.members ≡ true
      → Announces env context r P s.wall_reads s.db
  Effect (get_share i) = Reader env context s.db i → P false s.db
  Effect (get_share_peers r) = Reader env context s.db r.share_id → P false s.db
  Effect (watch_share_peers r) = Reader env context s.db r.share_id → P false s.db
  Effect sweep_tick =
      P false
        (drop_rows (select (is_expired (env.wall_clock s.wall_reads)) s.db.announcements) s.db)
  Effect _ = P false s.db

  pub handle-End : (call : Call) → P true s.db → Effect call → End P (handle env context call s)
  unfolding handle
  handle-End (register_peer r) t e = outcome-End P _ (register_peer_cases env context P s r t e)
  handle-End (get_peer p) t e = outcome-End P _ (get_peer_cases env context P s t e p)
  handle-End (create_share r) t e = outcome-End P _ (create_share_cases env context P s r t e)
  handle-End (get_share i) t e = outcome-End P _ (get_share_cases env context P s t i e)
  handle-End (add_peer_to_share r) t e =
      outcome-End P _ (add_peer_to_share_cases env context P s r t e)
  handle-End (remove_peer_from_share r) t e =
      outcome-End P _ (remove_peer_from_share_cases env context P s r t e)
  handle-End (set_share_policy r) t e =
      outcome-End P _ (set_share_policy_cases env context P s r t e)
  handle-End (announce r) t e = outcome-End P _ (announce_cases env context r P s t e)
  handle-End (get_share_peers r) t e = outcome-End P _ (get_share_peers_cases env context P s t r e)
  handle-End (watch_share_peers r) t e =
      outcome-End P _ (watch_snapshot_cases env context P s t r e)
  handle-End end_watch t e = close_watch_cases env context P s t e
  handle-End (health reachable) t e = outcome-End P _ (health_cases env context P s t e reachable)
  handle-End (get_share_activity i) t e =
      outcome-End P _ (get_share_activity_cases env context P s t e i)
  handle-End sweep_tick t e = sweep_cases env P s e
