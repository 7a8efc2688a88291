-- ===== src/Allocation.antt =====
-- x/allocation: the two emission streams, their options and what the module owes them.
pub mod State
pub mod Coins
pub mod Options
pub mod Emission
pub mod Payout
pub mod Removal
pub mod Solvency
pub mod Booked
pub mod Writes
pub mod Settle
pub mod Index
pub mod Claims
pub mod Removed
pub mod Struck
pub mod Hot
pub mod Live
pub mod Votes
mod Tests
