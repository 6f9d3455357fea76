-- ===== src/Invariant.antt =====
-- Invariants of the ledger that every accepted command keeps.
pub mod Status
pub mod Raids
pub mod Access
pub mod Configured
pub mod Once
pub mod Entries
pub mod Placed
pub mod Reached
