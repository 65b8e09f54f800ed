-- ===== src/Daemon/Lan.antt =====
-- daemon/daemon/lan/: what peers of one network tell each other.
pub mod Packet
pub mod Pieces
pub mod Offers
pub mod RoundTrip
pub mod Listener
