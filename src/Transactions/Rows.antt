-- ===== src/Transactions/Rows.antt =====
-- models/blockchain_transaction.go: the conditions and the assignments of its UPDATE statements.
use crynux_relay_wallet.Base.{
  ℕ, String, Bool, not, ◌&&◌, ◌||◌, some, str_eq, ◌==◌, if◌then◌else◌, is_some, is_none,
}
use crynux_relay_wallet.Models.Transaction.{
  TransactionStatus, status_eq, transaction_receipt_delayed_message, BlockchainTransaction, is_text,
}
use crynux_relay_wallet.Int.{ℤ}

-- `id = ? AND status = ?`
abbrev pub at_status : ℕ → TransactionStatus → BlockchainTransaction → Bool
at_status id status row = row.id == id && status_eq row.status status

-- `tx_hash IS NULL AND signed_raw_tx IS NULL`
abbrev pub is_unbroadcasted : BlockchainTransaction → Bool
is_unbroadcasted row = is_none row.tx_hash && is_none row.signed_raw_tx

-- MarkSent
unfoldable pub is_sendable : ℕ → BlockchainTransaction → Bool
is_sendable id row =
    at_status id TransactionStatus.broadcasting row
    && is_some row.tx_hash
    && is_some row.signed_raw_tx

unfoldable pub set_sent : ℕ → BlockchainTransaction → BlockchainTransaction
set_sent now row = record row { status = TransactionStatus.sent; sent_at = some now }

-- ClaimForSending
unfoldable pub is_claimable : ℕ → BlockchainTransaction → Bool
is_claimable id row =
    at_status id TransactionStatus.pending row
    && is_unbroadcasted row
    && is_none row.cancellation_requested_at

unfoldable pub set_sending : BlockchainTransaction → BlockchainTransaction
set_sending row = record row { status = TransactionStatus.sending }

-- ReleaseSending
unfoldable pub is_releasable : ℕ → BlockchainTransaction → Bool
is_releasable id row = at_status id TransactionStatus.sending row && is_unbroadcasted row

unfoldable pub set_released : ℕ → String → BlockchainTransaction → BlockchainTransaction
set_released now error_msg row =
    if is_none row.cancellation_requested_at
    then record row {
      status = TransactionStatus.pending;
      status_message = if str_eq error_msg "" then row.status_message else some error_msg;
    }
    else record row { status = TransactionStatus.cancelled; failed_at = some now }

-- PrepareBroadcast
unfoldable pub is_preparable : ℕ → BlockchainTransaction → Bool
is_preparable id row =
    at_status id TransactionStatus.sending row
    && is_unbroadcasted row
    && is_none row.cancellation_requested_at

unfoldable pub set_broadcasting :
    String → ℤ → String → BlockchainTransaction → BlockchainTransaction
set_broadcasting tx_hash nonce signed_raw_tx row = record row {
  status = TransactionStatus.broadcasting;
  tx_hash = some tx_hash;
  nonce = some nonce;
  signed_raw_tx = some signed_raw_tx;
}

-- RequestCancellation
unfoldable pub is_cancellable : ℕ → BlockchainTransaction → Bool
is_cancellable id row =
    row.id == id
    && (status_eq row.status TransactionStatus.pending
        || status_eq row.status TransactionStatus.sending)
    && is_unbroadcasted row
    && is_none row.cancellation_requested_at

unfoldable pub set_cancellation : ℕ → String → BlockchainTransaction → BlockchainTransaction
set_cancellation now reason row = record row {
  cancellation_requested_at = some now;
  status_message = some reason;
}

-- CancelRequestedUnbroadcasted
unfoldable pub is_cancel_requested : ℕ → BlockchainTransaction → Bool
is_cancel_requested id row =
    at_status id TransactionStatus.pending row
    && is_unbroadcasted row
    && is_some row.cancellation_requested_at

unfoldable pub set_cancelled : ℕ → BlockchainTransaction → BlockchainTransaction
set_cancelled now row = record row { status = TransactionStatus.cancelled; failed_at = some now }

-- MarkConfirmed
unfoldable pub set_confirmed : ℕ → ℤ → ℤ → String → BlockchainTransaction → BlockchainTransaction
set_confirmed now block_number gas_used effective_gas_price row = record row {
  status = TransactionStatus.confirmed;
  confirmed_at = some now;
  block_number = some block_number;
  gas_used = some gas_used;
  effective_gas_price = some effective_gas_price;
}

-- MarkFailedFromSent
unfoldable pub is_failable : ℕ → BlockchainTransaction → Bool
is_failable id row = at_status id TransactionStatus.sent row && is_some row.tx_hash

unfoldable pub set_failed :
    ℕ → ℤ → ℤ → String → String → BlockchainTransaction → BlockchainTransaction
set_failed now block_number gas_used effective_gas_price error_msg row = record row {
  status = TransactionStatus.failed;
  failed_at = some now;
  block_number = some block_number;
  gas_used = some gas_used;
  effective_gas_price = some effective_gas_price;
  status_message = some error_msg;
}

-- MarkReceiptDelayed
unfoldable pub is_delayable : ℕ → BlockchainTransaction → Bool
is_delayable id row =
    at_status id TransactionStatus.sent row
    && not (is_text row.status_message transaction_receipt_delayed_message)

unfoldable pub set_delayed : BlockchainTransaction → BlockchainTransaction
set_delayed row = record row { status_message = some transaction_receipt_delayed_message }

-- RecoverLegacySendingTransactions: its two statements.
unfoldable pub is_legacy_sending : BlockchainTransaction → Bool
is_legacy_sending row =
    status_eq row.status TransactionStatus.sending
    && is_unbroadcasted row
    && is_none row.cancellation_requested_at

unfoldable pub set_pending : BlockchainTransaction → BlockchainTransaction
set_pending row = record row { status = TransactionStatus.pending }

unfoldable pub is_legacy_cancelled : BlockchainTransaction → Bool
is_legacy_cancelled row =
    status_eq row.status TransactionStatus.sending
    && is_unbroadcasted row
    && is_some row.cancellation_requested_at
