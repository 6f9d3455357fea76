-- ===== src/Decide.antt =====
-- crates/nocturnal-core/src/decide.rs: commands become events or a refusal.
pub mod Raids
pub mod Auctions
pub mod Winners
pub mod Chosen
pub mod Config
pub mod Roster
pub mod Step
