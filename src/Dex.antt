-- ===== src/Dex.antt =====
-- x/dex: the constant-product exchange around the ERTH hub, and its volume-weighted LP rewards.
pub mod Dec
pub mod Amm
pub mod Store
pub mod Twap
pub mod Rewards
pub mod Bank
pub mod Swap
pub mod Exact
pub mod Owed
pub mod Notes
pub mod Deposit
pub mod Unbonding
pub mod Create
mod Fixtures
mod Tests
