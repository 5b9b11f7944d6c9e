-- ===== src/Tunnel.antt =====
-- extension/lib/tunnel-connection.js: what the tunnel reads from a stream, and the connection.
pub mod Buffer
pub mod Chunked
pub mod Request
pub mod Bind
pub mod Connection
pub mod Id
pub mod Visit
mod Tests
