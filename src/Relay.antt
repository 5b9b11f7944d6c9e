-- ===== src/Relay.antt =====
-- extension/lib/relay.js: version 1 of the GOST relay protocol.
pub mod Result
pub mod Ip
pub mod Feature
pub mod Message
mod Tests
