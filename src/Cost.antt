-- ===== src/Cost.antt =====
-- tessera/cost: the tracker of operation chains.
pub mod Combinations
