-- ===== src/Blocklist.antt =====
-- The plugin `blocklist`: plugin/blocklist/*.go.
pub mod Matcher
pub mod Parse
pub mod Source
pub mod Plugin
pub mod Setup
