-- ===== src/Web.antt =====
-- web-src/src: the stores and helpers behind the pages of the web interface.
pub mod Store
pub mod Items
pub mod Polling
pub mod LanRefusal
mod Tests
