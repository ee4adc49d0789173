-- ===== src/Blockchain/Confirmer.antt =====
-- blockchain/transaction_confirmer.go: the confirmation of one transaction from the queue. What
-- processingTxs, the queue and the ticker do is which transactions are confirmed, and when.
use crynux_relay_wallet.Base.{
  ℕ, ◌+◌, ◌-◌, String, Bool, false, not, Option, none, some, ltb, leb, if◌then◌else◌,
}
use crynux_relay_wallet.Models.Transaction.{BlockchainTransaction}
use crynux_relay_wallet.World.{Result, ok, err, Action, raise, ◌>>=◌, ◌>>◌, done, atomic, alert}
use crynux_relay_wallet.Transactions.Updates.{
  now, mark_confirmed, mark_failed_from_sent, mark_receipt_delayed,
}
use crynux_relay_wallet.Transactions.Retries.{create_retry_transaction}
use crynux_relay_wallet.Blockchain.Node.{
  Node, Codec, ask, is_not_found, uint64_of, int64_of, TransactionReceipt,
}
use crynux_relay_wallet.Blockchain.Client.{
  BlockchainClient, Clients, get_blockchain_client, get_error_message_from_transaction,
}
use crynux_relay_wallet.FeeLog.Accounts.{lift}
use crynux_relay_wallet.Withdraw.Chains.{send}
use crynux_relay_wallet.Config.{BlockchainConfig, AppConfig, blockchain_of}
use crynux_relay_wallet.Errors.{Error, network_not_found, receipt_without_block, header_unavailable}
use Prim.Native.String.{◌++◌ as text_append}

unfoldable pub receipt_has_required_confirmations : ℕ → ℕ → ℕ → Bool
receipt_has_required_confirmations latest_block receipt_block required =
    if ltb latest_block receipt_block then false else leb required (latest_block - receipt_block)

-- A call whose error the caller looks at.
abbrev pub attempted : {A : Type 0} → Action A → Action (Result A)
attempted m w = (ok (m w).0, (m w).1)

unfoldable pub handle_delayed_receipt : BlockchainTransaction → Action (Unit {0})
handle_delayed_receipt tx = do
  marked ← mark_receipt_delayed tx
  if marked.0 then (λ w. (ok tt, send alert w)) else done

unfoldable pub handle_successful_transaction :
    BlockchainTransaction → TransactionReceipt → ℕ → Action (Unit {0})
handle_successful_transaction tx receipt block =
    mark_confirmed tx (int64_of block) (int64_of receipt.gas_used) receipt.effective_gas_price
    >>= λ _. done

-- The transaction of a failure: the row is marked, and a retry is made while attempts are left. After
-- MarkFailedFromSent the row has the same counts as before.
unfoldable pub fail_and_retry :
    AppConfig → BlockchainTransaction → TransactionReceipt → ℕ → String → Action (Unit {0})
unfolding create_retry_transaction
fail_and_retry app tx receipt block error_msg = do
  marked ←
      mark_failed_from_sent tx (int64_of block) (int64_of receipt.gas_used)
        receipt.effective_gas_price error_msg
  if not marked.0
      then done
      else if ltb marked.1.retry_count marked.1.max_retries
      then create_retry_transaction app marked.1
      else done

module _ (node : Node) (codec : Codec) (clients : Clients) (app : AppConfig) where
  abbrev failure_text : Result String → String
  failure_text (ok text) = text
  failure_text (err e) = text_append "Transaction failed with status 0: " (codec.error_text e)

  unfoldable pub handle_failed_transaction :
      BlockchainClient → BlockchainTransaction → TransactionReceipt → ℕ → Action (Unit {0})
  unfolding fail_and_retry
  handle_failed_transaction client tx receipt block = do
    message ← attempted (get_error_message_from_transaction node codec client tx block)
    atomic (fail_and_retry app tx receipt block (failure_text message))

  abbrev pub required : {A : Type 0} → Error → Option A → Result A
  required e none = err e
  required e (some a) = ok a

  -- A receipt that is there.
  unfoldable pub settle_receipt :
      BlockchainConfig
      → BlockchainClient
      → BlockchainTransaction
      → TransactionReceipt
      → Action (Unit {0})
  unfolding receipt_has_required_confirmations handle_successful_transaction
      handle_failed_transaction
  settle_receipt config client tx receipt = do
    block ← lift (required receipt_without_block receipt.block_number)
    header ← ask node (λ w. node.latest_header w tx.network)
    latest ← lift (required header_unavailable header.number)
    if not (
          receipt_has_required_confirmations (uint64_of latest) (uint64_of block)
            config.receipt_confirmation_blocks)
        then done
        else if receipt.is_successful
        then handle_successful_transaction tx receipt block
        else handle_failed_transaction client tx receipt block

  -- A receipt that is not there.
  unfoldable pub await_receipt :
      BlockchainConfig → BlockchainTransaction → ℕ → Error → Action (Unit {0})
  unfolding handle_delayed_receipt now
  await_receipt config tx sent_at e = do
    if is_not_found e then done else raise e
    time ← now
    if ltb (sent_at + config.receipt_wait_time) time then handle_delayed_receipt tx else done

  unfoldable pub confirm_by_hash :
      BlockchainTransaction → Option String → Option ℕ → Action (Unit {0})
  unfolding await_receipt settle_receipt
  confirm_by_hash tx none sent_at = done
  confirm_by_hash tx (some tx_hash) none = done
  confirm_by_hash tx (some tx_hash) (some sent_at) = do
    config ← lift (required network_not_found (blockchain_of tx.network app.blockchains))
    client ← lift (get_blockchain_client tx.network clients)
    answer ← attempted (ask node (λ w. node.receipt_of w tx.network (codec.hash_hex tx_hash)))
    elim answer [
      | ok receipt ↦ settle_receipt config client tx receipt
      | err e ↦ await_receipt config tx sent_at e
    ]

  unfoldable pub confirm_transaction : BlockchainTransaction → Action (Unit {0})
  unfolding confirm_by_hash
  confirm_transaction tx = confirm_by_hash tx tx.tx_hash tx.sent_at
