-- ===== src/Smux.antt =====
-- extension/lib/smux.js: the SMUX v2 multiplexer, the side that accepts streams.
pub mod Frame
pub mod Stream
pub mod Session
mod Tests
