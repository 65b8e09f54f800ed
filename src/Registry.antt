-- ===== src/Registry.antt =====
-- The registry: registry/registry/.
pub mod Models
pub mod Messages
pub mod Service
pub mod Crypto
pub mod Address
pub mod Auth
pub mod Limiter
pub mod Ttl
pub mod Views
pub mod Peers
pub mod Shares
pub mod Membership
pub mod Announce
pub mod Listing
pub mod Health
pub mod Dispatch
pub mod Rules
pub mod Changes
pub mod Effects
pub mod Invariant
pub mod Atomic
pub mod Access
pub mod Readers
pub mod Discovery
pub mod Credentials
pub mod Events
mod Tests
