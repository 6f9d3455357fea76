-- ===== src/Contract.antt =====
-- What the decide step promises the apply step of each event that it emits (decide.rs, apply.rs).
pub mod Settings
pub mod Guard
pub mod Raids
pub mod Auctions
pub mod Roster
pub mod Whole
