-- ===== src/Peercache.antt =====
-- plugin/peercache: answers shared between replicas.
pub mod Store
pub mod Contest
pub mod Listener
pub mod Discovery
pub mod Setup
pub mod Lifecycle
pub mod Replicas
