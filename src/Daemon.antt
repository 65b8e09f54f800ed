-- ===== src/Daemon.antt =====
-- The daemon: daemon/daemon/. It keeps the shares of one peer in step with those of the others.
mod Tests
pub mod Bridge
pub mod Watcher
pub mod Config
pub mod Servicer
pub mod Views
pub mod Positions
pub mod Raising
pub mod Client
pub mod State
pub mod Identity
pub mod Agreement
pub mod Utf8
pub mod Lan
pub mod World
pub mod Torrents
pub mod Handler
pub mod Coordinator
pub mod Limits
pub mod Admission
pub mod Revocation
pub mod Switch
pub mod Between
pub mod Conflicts
pub mod Asking
pub mod Watches
pub mod Ownership
pub mod Joining
pub mod Keeping
pub mod History
