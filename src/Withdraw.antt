-- ===== src/Withdraw.antt =====
-- tasks/process_withdrawal_requests.go: what is done for a withdrawal that the relay asks for.
pub mod Amounts
pub mod Authorization
pub mod Authorized
pub mod Replayed
pub mod Limits
pub mod Counted
pub mod Limited
pub mod Intake
pub mod Taken
pub mod Chains
pub mod Reads
pub mod Checked
pub mod Told
pub mod Settle
pub mod Debit
mod AuthorizationTests
mod Tests
