-- ===== src/Transactions/Queries.antt =====
-- models/blockchain_transaction.go: the queries, and `Sync`.
use crynux_relay_wallet.Base.{
  ℕ, zero, suc, String, Bool, false, ◌&&◌, ◌||◌, Option, none, some, List, [], ◌∷◌, str_eq, ◌==◌,
  length, filter, find?,
}
use crynux_relay_wallet.Models.Transaction.{
  TransactionStatus, status_eq, BlockchainTransaction, is_text,
}
use crynux_relay_wallet.World.{Action, pure, raise, gets, ◌>>=◌, ◌>>◌, db_call}
use crynux_relay_wallet.Errors.{record_not_found}

abbrev pub Transactions : Type 0
Transactions = List BlockchainTransaction

abbrev pub skip : ℕ → Transactions → Transactions
skip zero rows = rows
skip (suc n) [] = []
skip (suc n) (row ∷ rows) = skip n rows

abbrev pub first : ℕ → Transactions → Transactions
first zero rows = []
first (suc n) [] = []
first (suc n) (row ∷ rows) = row ∷ first n rows

-- The rows that a query selects, in the order of their ids.
unfoldable pub select : (BlockchainTransaction → Bool) → Action Transactions
select p = do db_call; gets (λ w. filter p w.db.transactions)

unfoldable pub or_not_found : Option BlockchainTransaction → Action BlockchainTransaction
or_not_found none = raise record_not_found
or_not_found (some row) = pure row

-- `First`: the first row that fits.
unfoldable pub select_first : (BlockchainTransaction → Bool) → Action BlockchainTransaction
unfolding or_not_found
select_first p = do db_call; or_not_found (← gets (λ w. find? p w.db.transactions))

-- `First` on a model whose primary key is zero has no condition.
unfoldable pub sync : BlockchainTransaction → Action BlockchainTransaction
unfolding select_first
sync tx = select_first (λ row. tx.id == 0 || row.id == tx.id)

-- Pages of the rows in one status, as the sender and the confirmer fetch them.
unfoldable pub get_page : TransactionStatus → ℕ → ℕ → Action Transactions
unfolding select
get_page status offset limit = do
  rows ← select (λ row. status_eq row.status status)
  pure (first limit (skip offset rows))

unfoldable pub get_pending_transactions : ℕ → ℕ → Action Transactions
unfolding get_page
get_pending_transactions = get_page TransactionStatus.pending

unfoldable pub get_broadcasting_transactions : ℕ → ℕ → Action Transactions
unfolding get_page
get_broadcasting_transactions = get_page TransactionStatus.broadcasting

unfoldable pub get_sent_transactions : ℕ → ℕ → Action Transactions
unfolding get_page
get_sent_transactions = get_page TransactionStatus.sent

unfoldable pub get_sent_transaction_count_by_network : String → Action ℕ
unfolding select
get_sent_transaction_count_by_network network = do
  rows ← select (λ row.
      str_eq row.network network
      && (status_eq row.status TransactionStatus.sent
          || status_eq row.status TransactionStatus.broadcasting))
  pure (length rows)

unfoldable pub get_broadcasting_transaction_count_by_network : String → Action ℕ
unfolding select
get_broadcasting_transaction_count_by_network network = do
  rows ←
      select
        (λ row. str_eq row.network network && status_eq row.status TransactionStatus.broadcasting)
  pure (length rows)

unfoldable pub get_transaction_by_hash : String → Action BlockchainTransaction
unfolding select_first
get_transaction_by_hash tx_hash = select_first (λ row. is_text row.tx_hash tx_hash)

unfoldable pub get_transaction_by_id : ℕ → Action BlockchainTransaction
unfolding select_first
get_transaction_by_id id = select_first (λ row. row.id == id)

abbrev pub is_retry_of : ℕ → BlockchainTransaction → Bool
is_retry_of id row = elim row.retry_transaction_id [ none ↦ false | some root ↦ root == id ]

unfoldable pub get_retry_transactions_by_id : ℕ → Action Transactions
unfolding select
get_retry_transactions_by_id id = select (is_retry_of id)

unfoldable pub list_transaction_chain : ℕ → Action Transactions
unfolding get_transaction_by_id get_retry_transactions_by_id
list_transaction_chain root_id = do
  root ← get_transaction_by_id root_id
  retries ← get_retry_transactions_by_id root_id
  pure (root ∷ retries)
