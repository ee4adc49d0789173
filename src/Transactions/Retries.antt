-- ===== src/Transactions/Retries.antt =====
-- models/blockchain_transaction.go: CreateRetryTransaction, and the unconditional Update with MarkFailed.
use crynux_relay_wallet.Base.{◌+◌, ◌%◌, String, none, some, ◌==◌}
use crynux_relay_wallet.Models.Transaction.{TransactionStatus, BlockchainTransaction}
use crynux_relay_wallet.World.{Action, pure, raise, ◌>>=◌, ◌>>◌, done}
use crynux_relay_wallet.Transactions.Rows.{set_failed}
use crynux_relay_wallet.Transactions.Updates.{update, now, require_id, insert_transaction}
use crynux_relay_wallet.Int.{ℤ}
use crynux_relay_wallet.Config.{AppConfig, blockchain_of}
use crynux_relay_wallet.Errors.{network_not_found}

-- `NextRetryAt` is built without `Valid`, so that the column is null.
unfoldable pub retry_of : BlockchainTransaction → BlockchainTransaction
retry_of tx = record {
  id = 0;
  network = tx.network;
  type = tx.type;
  status = TransactionStatus.pending;
  from_address = tx.from_address;
  to_address = tx.to_address;
  value = tx.value;
  call_data = tx.call_data;
  tx_hash = none;
  block_number = none;
  nonce = none;
  gas_used = none;
  effective_gas_price = none;
  status_message = none;
  retry_count = (tx.retry_count + 1) % 256;
  max_retries = tx.max_retries;
  retry_transaction_id = elim tx.retry_transaction_id [ some root ↦ some root | none ↦ some tx.id ];
  next_retry_at = none;
  sent_at = none;
  confirmed_at = none;
  failed_at = none;
  cancellation_requested_at = none;
  signed_raw_tx = none;
}

unfoldable pub create_retry_transaction : AppConfig → BlockchainTransaction → Action (Unit {0})
unfolding retry_of
create_retry_transaction app tx = elim (blockchain_of tx.network app.blockchains) [
  | none ↦ raise network_not_found
  | some config ↦ (insert_transaction (retry_of tx) >>= λ _. done)
]

unfoldable pub update_row :
    (BlockchainTransaction → BlockchainTransaction)
    → BlockchainTransaction
    → Action BlockchainTransaction
update_row f tx = do require_id tx; update (λ row. row.id == tx.id) f >>= λ _. done; pure (f tx)

unfoldable pub mark_failed :
    BlockchainTransaction → ℤ → ℤ → String → String → Action BlockchainTransaction
unfolding update_row now
mark_failed tx block_number gas_used effective_gas_price error_msg = do
  failed_at ← now
  update_row (set_failed failed_at block_number gas_used effective_gas_price error_msg) tx
