-- ===== src/Daemon/Servicer/Errors.antt =====
-- What an error of daemon/daemon/control/servicer.py tells of the daemon's tables.
use peerdup.Prelude.{text_eq}
use peerdup.Daemon.World.{World, Daemon}
use peerdup.Daemon.Coordinator
use peerdup.Daemon.Coordinator.{Failure, Reply, returns, raises}
use peerdup.Daemon.Coordinator.Control
