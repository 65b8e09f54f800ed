-- ===== src/Daemon/Limits.antt =====
-- The bandwidth limits of `_effective_limit`: daemon/daemon/sync/peer_handler.py.
use peerdup.Prelude.{ℕ, ◌≤◌, ◌≡◌, ◌⊎◌, ◌↔◌, arith}
use peerdup.Daemon.Handler.{effective_limit}

-- The limit in force is one of the two, it is no limit only if neither side sets one, and it exceeds no
-- limit that is set.
pub effective_limit-IsTightest :
    (registry local : ℕ)
    → ((effective_limit registry local ≡ registry) ⊎ (effective_limit registry local ≡ local))
      × ((effective_limit registry local ≡ 0) ↔ ((registry ≡ 0) × (local ≡ 0)))
      × ((registry ≡ 0) ⊎ (effective_limit registry local ≤ registry))
      × ((local ≡ 0) ⊎ (effective_limit registry local ≤ local))
unfolding effective_limit
effective_limit-IsTightest registry local = ground arith
