-- ===== src/Apply.antt =====
-- crates/nocturnal-core/src/apply.rs: the fold of one event into the projections.
pub mod Raids
pub mod Players
pub mod Auctions
pub mod Roster
pub mod Step
