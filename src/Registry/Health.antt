-- ===== src/Registry/Health.antt =====
-- `Health` of registry/servicer/registry.py. Whether the database answers is an argument: if it does
-- not, the counts stay 0.
use peerdup.Prelude.{
  ℕ, ◌-◌, ◌*◌, ◌/◌, Text, Bool, true, false, ◌||◌, Option, none, some, List, [], ◌∷◌, leb, ◌==◌,
  text_eq, if◌then◌else◌, select, map, length,
}
use peerdup.Registry.Models.{AnnouncementRow}
use peerdup.Registry.Messages.{HealthStatus, healthy, degraded, unhealthy, HealthResponse}
use peerdup.Registry.Service.{
  Env, health, ok, Action, pure, gets, ◌>>=◌, ◌>>◌, now, monotonic, log, metric_rpc,
}
use peerdup.Registry.Ttl.{ttl_sweep_interval_seconds}
use peerdup.Registry.Views.{is_online}

abbrev pub ticks : ℕ → ℕ
ticks seconds = seconds * 1_000_000_000

unfoldable pub mem : Text → List Text → Bool
mem x [] = false
mem x (y ∷ ys) = x == y || mem x ys

-- `.distinct()`
unfoldable pub distinct : List Text → List Text
unfolding mem
distinct [] = []
distinct (x ∷ xs) = let rest = distinct xs in if mem x xs then rest else x ∷ rest

unfoldable pub online_ids : ℕ → List AnnouncementRow → List Text
unfolding distinct
online_ids time anns = distinct (map (λ a. a.peer_id) (select (is_online time) anns))

unfoldable pub status_of : Bool → Bool → HealthStatus
status_of true true = healthy
status_of false false = unhealthy
status_of _ _ = degraded

-- Within two intervals of the last sweep, or of the start while no sweep has run.
unfoldable pub sweep_ok : ℕ → Option ℕ → ℕ → Bool
sweep_ok start none time = leb (time - start) (ticks (2 * ttl_sweep_interval_seconds))
sweep_ok start (some last) time = leb (time - last) (ticks (2 * ttl_sweep_interval_seconds))

module _ (env : Env) where
  online_count : Bool → Action ℕ
  unfolding online_ids
  online_count false = pure 0
  online_count true = do time ← now env; gets (λ s. length (online_ids time s.db.announcements))

  unfoldable pub health_rpc : Bool → Action HealthResponse
  unfolding online_count status_of sweep_ok
  health_rpc reachable = do
    start ← monotonic env
    up ← monotonic env
    peers ← gets (λ s. if reachable then length s.db.peers else 0)
    shares ← gets (λ s. if reachable then length s.db.shares else 0)
    online ← online_count reachable
    time ← monotonic env
    swept ← gets (λ s. sweep_ok env.start_time s.last_sweep_at time)
    log env health [] ok [] []
    metric_rpc env health start
    pure (record {
      status = status_of reachable swept;
      uptime_s = (up - env.start_time) / ticks 1;
      peers_registered = peers;
      shares_registered = shares;
      peers_online_now = online;
      db_ok = reachable;
      ttl_sweep_ok = swept;
    })
