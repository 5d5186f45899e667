-- ===== src/Blocklist/Matcher/Build.antt =====
-- `newNameSet`: sorting, deduplication in place and pruning.
pub mod Sort
pub mod Order
pub mod Dedup
pub mod Prune
pub mod Canonical
