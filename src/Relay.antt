-- ===== src/Relay.antt =====
-- The relay: relay/relay/server.py. Peers behind a NAT meet here: each sends a signed hello, and two
-- connections of one share are piped together.
pub mod Hello
pub mod Server
pub mod Pairing
mod Tests
