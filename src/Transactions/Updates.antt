-- ===== src/Transactions/Updates.antt =====
-- models/blockchain_transaction.go: the methods that write. Each UPDATE is one conditional statement,
-- atomic in the database, and its count of affected rows decides what the method returns.
use crynux_relay_wallet.Base.{
  ℕ, suc, String, Bool, true, false, ◌&&◌, ◌||◌, none, some, [], ◌∷◌, ◌++◌, str_eq, ◌==◌,
  if◌then◌else◌, any, count, update_where,
}
use crynux_relay_wallet.Models.Transaction.{
  TransactionStatus, status_eq, BlockchainTransaction, is_text, is_proven_on_chain_failure,
}
use crynux_relay_wallet.World.{
  Db, ok, err, Action, pure, raise, gets, ◌>>=◌, ◌>>◌, done, modify, db_call, atomic,
}
use crynux_relay_wallet.Int.{ℤ}
use crynux_relay_wallet.Errors.{
  db_error, record_not_found, retry_ancestors_unsafe, broadcast_payload_incomplete,
}
use crynux_relay_wallet.Transactions.Rows.{
  is_sendable, set_sent, is_claimable, set_sending, is_releasable, set_released, is_preparable,
  set_broadcasting, is_cancellable, set_cancellation, is_cancel_requested, set_cancelled, at_status,
  set_confirmed, is_failable, set_failed, is_delayable, set_delayed, is_legacy_sending, set_pending,
  is_legacy_cancelled,
}
use crynux_relay_wallet.Transactions.Queries.{Transactions, sync, list_transaction_chain}

-- What a method that reports success returns: whether it did, and the caller's row.
abbrev pub Marked : Type 0
Marked = Bool × BlockchainTransaction

abbrev pub set_transactions : (Transactions → Transactions) → Db → Db
set_transactions f db = record db { transactions = f db.transactions }

-- `Updates`: the number of rows affected.
unfoldable pub update :
    (BlockchainTransaction → Bool) → (BlockchainTransaction → BlockchainTransaction) → Action ℕ
update p f = do
  db_call
  rows ← gets (λ w. count p w.db.transactions)
  modify (set_transactions (update_where p f))
  pure rows

-- A method on a row without an id.
abbrev pub require_id : BlockchainTransaction → Action (Unit {0})
require_id tx = if tx.id == 0 then raise record_not_found else done

unfoldable pub now : Action ℕ
now = gets (λ w. w.clock)

unfoldable pub mark_sent : BlockchainTransaction → Action Marked
unfolding now
mark_sent tx = do
  require_id tx
  sent_at ← now
  rows ← update (is_sendable tx.id) (set_sent sent_at)
  if rows == 0
      then (do tx' ← sync tx; pure (status_eq tx'.status TransactionStatus.sent, tx'))
      else pure (true, record tx { status = TransactionStatus.sent; sent_at = some sent_at })

-- The loop over the chain: it stops at the row itself, and refuses an ancestor that may still land.
unfoldable pub check_ancestors : ℕ → Transactions → Action (Unit {0})
check_ancestors id [] = done
check_ancestors id (ancestor ∷ chain) =
    let rest = check_ancestors id chain in
    if ancestor.id == id
    then done
    else if is_proven_on_chain_failure ancestor
    then rest
    else raise retry_ancestors_unsafe

unfoldable pub check_retry : BlockchainTransaction → Action (Unit {0})
check_retry tx = elim tx.retry_transaction_id [
  | none ↦ done
  | some root ↦ list_transaction_chain root >>= check_ancestors tx.id
]

unfoldable pub claim_for_sending : BlockchainTransaction → Action Marked
claim_for_sending tx = do
  require_id tx
  atomic (do
    check_retry tx
    rows ← update (is_claimable tx.id) set_sending
    pure (
        if rows == 0
        then (false, tx)
        else (true, record tx { status = TransactionStatus.sending })))

unfoldable pub release_sending : BlockchainTransaction → String → Action BlockchainTransaction
unfolding now
release_sending tx error_msg = do
  require_id tx
  released_at ← now
  rows ← update (is_releasable tx.id) (set_released released_at error_msg)
  if rows == 0 then pure tx else sync tx

-- The unique index on `tx_hash` refuses a hash that another row has.
unfoldable pub unique_hash : ℕ → String → Action (Unit {0})
unique_hash id tx_hash w = (
  if any (is_preparable id) w.db.transactions
        && any (λ row. is_text row.tx_hash tx_hash) w.db.transactions
      then err db_error
      else ok tt,
  w,
)

-- The statement of PrepareBroadcast, and what follows it.
unfoldable pub write_broadcast : BlockchainTransaction → String → ℤ → String → Action Marked
write_broadcast tx tx_hash nonce signed_raw_tx = do
  rows ← update (is_preparable tx.id) (set_broadcasting tx_hash nonce signed_raw_tx)
  if rows == 0
      then (do tx' ← sync tx; pure (false, tx'))
      else pure (true, set_broadcasting tx_hash nonce signed_raw_tx tx)

unfoldable pub prepare_broadcast : BlockchainTransaction → String → ℤ → String → Action Marked
prepare_broadcast tx tx_hash nonce signed_raw_tx = do
  require_id tx
  if str_eq tx_hash "" || str_eq signed_raw_tx "" then raise broadcast_payload_incomplete else done
  unique_hash tx.id tx_hash
  write_broadcast tx tx_hash nonce signed_raw_tx

unfoldable pub request_cancellation : BlockchainTransaction → String → Action Marked
unfolding now
request_cancellation tx reason = do
  require_id tx
  requested_at ← now
  rows ← update (is_cancellable tx.id) (set_cancellation requested_at reason)
  pure (if rows == 0 then (false, tx) else (true, set_cancellation requested_at reason tx))

unfoldable pub cancel_requested_unbroadcasted : BlockchainTransaction → Action Marked
unfolding now
cancel_requested_unbroadcasted tx = do
  require_id tx
  failed_at ← now
  rows ← update (is_cancel_requested tx.id) (set_cancelled failed_at)
  pure (if rows == 0 then (false, tx) else (true, set_cancelled failed_at tx))

unfoldable pub mark_confirmed : BlockchainTransaction → ℤ → ℤ → String → Action Marked
unfolding now
mark_confirmed tx block_number gas_used effective_gas_price = do
  require_id tx
  confirmed_at ← now
  rows ←
      update (at_status tx.id TransactionStatus.sent)
        (set_confirmed confirmed_at block_number gas_used effective_gas_price)
  if rows == 0
      then (do tx' ← sync tx; pure (status_eq tx'.status TransactionStatus.confirmed, tx'))
      else pure (true, set_confirmed confirmed_at block_number gas_used effective_gas_price tx)

unfoldable pub mark_failed_from_sent :
    BlockchainTransaction → ℤ → ℤ → String → String → Action Marked
unfolding now
mark_failed_from_sent tx block_number gas_used effective_gas_price error_msg = do
  require_id tx
  failed_at ← now
  rows ←
      update (is_failable tx.id)
        (set_failed failed_at block_number gas_used effective_gas_price error_msg)
  pure (
      if rows == 0
      then (false, tx)
      else (true, set_failed failed_at block_number gas_used effective_gas_price error_msg tx))

unfoldable pub mark_receipt_delayed : BlockchainTransaction → Action Marked
mark_receipt_delayed tx = do
  require_id tx
  rows ← update (is_delayable tx.id) set_delayed
  pure (if rows == 0 then (false, tx) else (true, set_delayed tx))

unfoldable pub recover_legacy_sending_transactions : Action (Unit {0})
unfolding now
recover_legacy_sending_transactions = atomic (do
  update is_legacy_sending set_pending >>= λ _. done
  failed_at ← now
  update is_legacy_cancelled (set_cancelled failed_at) >>= λ _. done)

abbrev pub append : BlockchainTransaction → Db → Db
append tx db = record db {
  transactions = db.transactions ++ tx ∷ [];
  next_transaction_id = suc db.next_transaction_id;
}

-- `Save` of a row that has no id yet: an INSERT, which gives it the next one.
unfoldable pub insert_transaction : BlockchainTransaction → Action BlockchainTransaction
insert_transaction tx = do
  db_call
  id ← gets (λ w. w.db.next_transaction_id)
  let saved = record tx { id = id }
  modify (append saved)
  pure saved
