-- ===== src/Lib.antt =====
-- Crynux Relay Wallet: a model of the wallet's core, and what is proved of it.
--
-- The wallet follows the relay's account log, keeps the balances of the accounts, and pays out
-- withdrawals on several blockchains. It has four parts that share one database:
--  * tasks/sync_task_fee_logs.go reads the account log in batches and changes balances, deposits and
--    vesting records;
--  * tasks/process_withdrawal_requests.go takes withdrawals from the relay, makes a payout for each,
--    waits for its end, debits the account and tells the relay;
--  * models/blockchain_transaction.go is the table of payouts, with the methods through which the
--    sender (blockchain/transaction_sender.go), the confirmer (blockchain/transaction_confirmer.go)
--    and the withdrawal task read and change its rows, each with its own, possibly stale, copy;
--  * blockchain/ signs, sends and confirms the payouts.
--
-- Files:
--  * Base, Int, Text, Text/Print: the names and lemmas shared, with the columns of models/big_int.go; Go's big.Int as signed integers over the native
--    numbers; strconv, strings and big.Int texts over codes (case is folded for ASCII only, which is
--    what addresses, hashes and network names are made of).
--  * Errors, Config: the error values, and the settings that the modelled code reads.
--  * World: the state. `Db` holds the tables of models/; `faults` says of each database call to come
--    whether it fails; `sent` lists what the relay and the operators were told. An `Action` is a
--    function of the state to a result and a state; `atomic` is gorm's Transaction, in which a failure
--    of the body or of the commit restores the tables. World/Keeps has a rule for each way to build an
--    action that keeps a property of the tables, World/Inversion what a success says of the parts.
--  * Models/Transaction, Models/Chain, Models/Records: the row types and predicates of models/, and
--    ClassifyTransactionChain.
--  * Transactions/Rows, Queries, Updates, Retries: the methods of models/blockchain_transaction.go. A method
--    takes the caller's copy of a row and returns it as the method leaves it. Invariant and
--    Table say when a table is in order; Legal, Reads, Methods and Runs hold the lemmas on that, for
--    one call and for sequences of calls; Outcomes, Safety and Claims those on the answers of calls.
--  * FeeLog/Types, Validation, Check, Merge, Accounts, Deposits, Schedule, Vesting, Releases, Batch,
--    Sync: the account log of tasks/sync_task_fee_logs.go with ComputeVestingShouldReleased of
--    models/vesting.go. Paid, Accepted, Balances, Recorded, DepositKeys, Vested, Released, Steps,
--    OnlyVestings and Followed hold the lemmas on them.
--  * Blockchain/Node, Client, Payouts, Start, Gas, Sender, Queue, Confirmer: blockchain/. Node holds what
--    is asked of the nodes and used of go-ethereum; Client and Payouts are client.go, Start its Init with
--    transaction_manager.go and benefitAddress.go, Gas, Sender and Queue are transaction_sender.go, and
--    Confirmer is transaction_confirmer.go. Writes, Confirmed, Collected, Signed, Exact, Recovered, Kept,
--    GasKept, Backed, Sent, Claimed and Broadcasts hold the lemmas on them.
--  * Withdraw/Amounts, Authorization, Limits, Intake, Chains, Settle: the signatures, the checks, the
--    intake, the reports and the debit of tasks/process_withdrawal_requests.go. Authorized, Taken, Counted,
--    Limited, Replayed, Reads,
--    Checked, Told and Debit hold the theorems.
--
-- How the code corresponds: functions have the names of the Go functions in snake_case. A function
-- that returns an error is an action or returns a `Result`; early returns are the branches in the
-- same order. A where clause of a query is a Boolean test on rows, and an update is `update_where`;
-- text comparisons of the database are exact. Transactions of the database are isolated from each
-- other, so that a method's statements interleave with other tasks only between calls. A time is a
-- number of seconds since 1970. Numbers of type uint and uint64 are natural numbers, and int64
-- columns are signed integers: no modelled operation on them can wrap, but for the sum of the age
-- test of a deposit and the conversion of the configured maximum amount, where the wrap is written out. The whole days between two times stop at the
-- largest duration of package time. Soft deletion is not modelled, since no code deletes rows.
--
-- Parameters: what the code uses of encoding/json, fmt and go-ethereum stands in the records
-- `DepositCodec`, `VestingCodec`, `AuthorizationCodec` and `Codec`, the answers of the blockchain nodes in `Chain` and
-- `Node`, and the relay's answers to the requests for logs and for withdrawals in lists of functions of the last id. An
-- answer of a `Node` may depend on the state of the world, and while it is awaited the other tasks
-- make the calls of the table's methods that the node's `meanwhile` names. The answers of the database
-- are the schedule `faults`; a request to the relay uses the same schedule, and counts as received
-- even where it seems to have failed, as a payload does that is broadcast. The loops of the modelled
-- code run over lists: that of syncTaskFeeLogs over its rounds, each the relay's answer and what the other
-- tasks do if it waits, and that of syncWithdrawalRequests over the relay's answers; after them the context
-- is done. Two definitions use fuel: collect_transactions, where one more than the number of rows is
-- enough, and the printing of a number, where one more than the number is. A configured number of
-- seconds is taken to fit a time.Duration.
--
-- Not modelled: the polling loop around the settlement; the goroutines,
-- tickers and channels of the sender and the confirmer, which decide only when a transaction is sent
-- or confirmed; HTTP, logging, loading of the configuration, migrations, and the generated contract
-- bindings.
pub mod Base
pub mod Int
pub mod Text
pub mod Errors
pub mod Models
pub mod World
mod Fixture
pub mod Config
pub mod Transactions
pub mod FeeLog
pub mod Withdraw
pub mod Blockchain
