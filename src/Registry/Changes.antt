-- ===== src/Registry/Changes.antt =====
-- What a call may do to the database: one case rule for each handler that writes, over any
-- property of whether the call was aborted and of the database that it left.
mod Sharing
mod Announcing
mod Reading
pub use Sharing.*
pub use Announcing.*
unfoldable pub use Reading.*
