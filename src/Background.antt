-- ===== src/Background.antt =====
-- extension/background.js: the service worker that keeps the tunnels' configurations, and
-- relays between the side panel and the offscreen document.
pub mod Json
pub mod Rules
pub mod Storage
pub mod Document
pub mod Worker
pub mod Tests
