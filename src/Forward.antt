-- ===== src/Forward.antt =====
-- extension/lib/forwarder.js: requests from a tunnel stream to the local backend, and back.
pub mod Body
pub mod Headers
pub mod Response
pub mod Auth
pub mod Bridge
pub mod Sockets
mod Tests
