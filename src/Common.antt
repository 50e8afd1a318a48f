-- ===== src/Common.antt =====
-- src/common/Collections.ts: helpers on maps, sets and lists.
pub mod Maps
pub mod Sets
pub mod Grouping
