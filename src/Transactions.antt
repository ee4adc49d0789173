-- ===== src/Transactions.antt =====
-- models/blockchain_transaction.go: the methods that read and write the table. A method takes the
-- caller's copy of the row, which may be stale, and returns it as the method leaves it.
pub mod Rows
pub mod Queries
pub mod Updates
pub mod Retries
pub mod Invariant
pub mod Legal
pub mod Table
pub mod Reads
pub mod Methods
pub mod Runs
pub mod Outcomes
pub mod Safety
pub mod Claims
mod Tests
