-- ===== src/Auction.antt =====
-- crates/nocturnal-core/src/auction.rs: the generator, roll-offs and winner selection.
-- `none` stands for a panic: an index out of range or a remainder by zero.
pub mod Rng
pub mod Rolls
pub mod Bids
pub mod Field
pub mod Drawn
pub mod Chosen
