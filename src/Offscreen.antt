-- ===== src/Offscreen.antt =====
-- extension/offscreen.js and what only it uses: the host of the tunnels.
pub mod Stats
pub mod Tunnels
pub mod Reports
mod Tests
