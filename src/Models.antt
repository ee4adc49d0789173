-- ===== src/Models.antt =====
-- models/: the tables of the wallet's database.
pub mod Transaction
pub mod Records
pub mod Chain
