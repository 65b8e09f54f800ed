-- ===== src/Daemon/Raising.antt =====
-- An activation that the operating system lets through: `_activate_share` of
-- daemon/daemon/sync/coordinator.py with `add_share` of daemon/daemon/watcher/fs.py.
use peerdup.Prelude.{ℕ, Text, false, ◌≡◌, refl, arith}
use peerdup.Daemon.World.{World, Daemon, watch_files}
use peerdup.Daemon.Coordinator.{activation}

-- Every directory can be watched, and walked through.
abbrev pub Watches : World → Type 0
Watches w = (n : ℕ) (path : Text) → w.watch_fails n path ≡ false

abbrev pub Walks : World → Type 0
Walks w = (n : ℕ) (path : Text) → w.walk_fails n path ≡ false

watch_files_returns :
    (w : World) (watched : Watches w) (share_id path : Text) (d : Daemon)
    → (watch_files w share_id path d).0 ≡ false
watch_files_returns w watched share_id path d = ground (arith, watched d.reads path)

pub activation_returns :
    (w : World) (watched : Watches w) (walked : Walks w) (share_id path : Text) (d : Daemon)
    → (activation w share_id path d).0 ≡ false
unfolding activation
activation_returns w watched walked share_id path d =
    let r = watch_files w share_id path d in
    rw (watch_files_returns w watched share_id path d, walked r.1.reads path, activation) refl
