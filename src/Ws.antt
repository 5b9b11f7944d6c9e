-- ===== src/Ws.antt =====
-- extension/lib/ws-codec.js: the WebSocket frame codec.
pub mod Frame
pub mod Decoder
pub mod Encode
pub mod Accept
mod Tests
