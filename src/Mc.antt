-- ===== src/Mc.antt =====
-- The memcached variants below mc_code: the message rings that they share, the items and the servers.
pub mod Queue
pub mod Items
pub mod Server
pub mod Client
pub mod TwoPhase
mod Tests
