-- ===== src/Money.antt =====
-- What the ledger does with DKP: balances and the logs that account for them.
pub mod Sums
pub mod Booked
pub mod Debit
