-- ===== src/FeeLog.antt =====
-- tasks/sync_task_fee_logs.go: the relay's account log, applied to the local balances.
pub mod Types
pub mod Merge
pub mod Accounts
pub mod Balances
pub mod Deposits
pub mod Recorded
pub mod DepositKeys
pub mod Schedule
pub mod Vesting
pub mod Releases
pub mod Vested
pub mod Released
pub mod Steps
pub mod OnlyVestings
pub mod Batch
pub mod Sync
pub mod Followed
pub mod Validation
pub mod Paid
pub mod Check
pub mod Accepted
mod Tests
mod CheckTests
