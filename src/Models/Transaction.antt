-- ===== src/Models/Transaction.antt =====
-- models/blockchain_transaction.go: the row type and its predicates.
use crynux_relay_wallet.Base.{
  ℕ, String, Bool, true, false, not, ◌&&◌, ◌||◌, Option, none, some, ◌==◌, if◌then◌else◌, is_some,
  str_eq,
}
use crynux_relay_wallet.Int.{ℤ, pos, ltb_ℤ}

pub data TransactionStatus : Type 0 where
  pending sent confirmed failed sending cancelled broadcasting : TransactionStatus

-- The `uint8` that stands for a status, in the order of the `iota` block.
abbrev pub status_code : TransactionStatus → ℕ
status_code TransactionStatus.pending = 0
status_code TransactionStatus.sent = 1
status_code TransactionStatus.confirmed = 2
status_code TransactionStatus.failed = 3
status_code TransactionStatus.sending = 4
status_code TransactionStatus.cancelled = 5
status_code TransactionStatus.broadcasting = 6

-- `a == b` on statuses.
abbrev pub status_eq : TransactionStatus → TransactionStatus → Bool
status_eq a b = status_code a == status_code b

abbrev pub transaction_receipt_delayed_message : String
transaction_receipt_delayed_message = "Transaction receipt delayed"

abbrev pub transaction_timed_out_message : String
transaction_timed_out_message = "Transaction timed out"

-- A nullable column (`sql.NullString`, `sql.NullInt64`, `sql.NullTime`) is an option; a time is a
-- number of seconds. `retry_count` and `max_retries` are `uint8`.
pub record BlockchainTransaction : Type 0 where
  pub id : ℕ
  pub network : String
  pub type : String
  pub status : TransactionStatus
  pub from_address : String
  pub to_address : String
  pub value : String
  pub call_data : Option String
  pub tx_hash : Option String
  pub block_number : Option ℤ
  pub nonce : Option ℤ
  pub gas_used : Option ℤ
  pub effective_gas_price : Option String
  pub status_message : Option String
  pub retry_count : ℕ
  pub max_retries : ℕ
  pub retry_transaction_id : Option ℕ
  pub next_retry_at : Option ℕ
  pub sent_at : Option ℕ
  pub confirmed_at : Option ℕ
  pub failed_at : Option ℕ
  pub cancellation_requested_at : Option ℕ
  pub signed_raw_tx : Option String

-- `s.Valid && s.String == text`.
abbrev pub is_text : Option String → String → Bool
is_text none text = false
is_text (some s) text = str_eq s text

-- `n.Valid && n.Int64 > 0`.
abbrev pub is_positive : Option ℤ → Bool
is_positive none = false
is_positive (some n) = ltb_ℤ (pos 0) n

unfoldable pub is_receipt_timeout_failure : BlockchainTransaction → Bool
is_receipt_timeout_failure tx =
    status_eq tx.status TransactionStatus.failed
    && is_text tx.status_message transaction_timed_out_message

unfoldable pub has_committed_broadcast : BlockchainTransaction → Bool
has_committed_broadcast tx =
    is_some tx.tx_hash
    || is_some tx.signed_raw_tx
    || status_eq tx.status TransactionStatus.broadcasting
    || status_eq tx.status TransactionStatus.sent

unfoldable pub is_proven_unbroadcasted_cancellation : BlockchainTransaction → Bool
unfolding has_committed_broadcast
is_proven_unbroadcasted_cancellation tx =
    status_eq tx.status TransactionStatus.cancelled && not (has_committed_broadcast tx)

unfoldable pub is_proven_on_chain_failure : BlockchainTransaction → Bool
unfolding is_receipt_timeout_failure
is_proven_on_chain_failure tx =
    status_eq tx.status TransactionStatus.failed
    && is_some tx.tx_hash
    && is_positive tx.block_number
    && not (is_receipt_timeout_failure tx)

unfoldable pub is_proven_terminal_failure : BlockchainTransaction → Bool
unfolding is_proven_unbroadcasted_cancellation is_proven_on_chain_failure
is_proven_terminal_failure tx =
    is_proven_unbroadcasted_cancellation tx || is_proven_on_chain_failure tx

unfoldable pub is_blocking_uncertainty : BlockchainTransaction → Bool
unfolding is_proven_terminal_failure
is_blocking_uncertainty tx =
    if is_proven_terminal_failure tx || status_eq tx.status TransactionStatus.confirmed
    then false
    else if status_eq tx.status TransactionStatus.pending
        || status_eq tx.status TransactionStatus.sending
    then false
    else true

-- `RootTransactionID`.
unfoldable pub root_transaction_id : BlockchainTransaction → ℕ
root_transaction_id tx = elim tx.retry_transaction_id [ some root ↦ root | none ↦ tx.id ]
