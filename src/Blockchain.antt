-- ===== src/Blockchain.antt =====
-- blockchain/: the nodes, the client, the sender and the confirmer.
pub mod Node
pub mod Client
pub mod Gas
pub mod Sender
pub mod Queue
pub mod Collected
mod Tests
pub mod Signed
pub mod Payouts
pub mod Exact
pub mod Start
pub mod Recovered
pub mod Kept
pub mod Backed
pub mod Sent
pub mod GasKept
pub mod Claimed
pub mod Broadcasts
pub mod Confirmer
pub mod Writes
pub mod Confirmed
