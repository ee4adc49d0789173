-- ===== src/Withdraw/Chains.antt =====
-- tasks/process_withdrawal_requests.go: withdrawalChainHasCommittedBroadcast,
-- getCurrentBlockchainTransaction, ensureWithdrawalRejectSafe, ensureWithdrawalFulfillSafe,
-- rejectWithdrawalRequestSafely and stopForBlockingTimeout; models/withdraw.go: UpdateStatus.
use crynux_relay_wallet.Base.{
  ℕ, String, Bool, not, ◌||◌, Option, none, some, List, [], ◌∷◌, ◌++◌, ltb, ◌==◌, if◌then◌else◌,
  is_none, any, all, last_or, update_where,
}
use crynux_relay_wallet.Models.Transaction.{
  TransactionStatus, status_eq, BlockchainTransaction, has_committed_broadcast,
  is_proven_terminal_failure,
}
use crynux_relay_wallet.World.{
  Db, World, Result, ok, err, Action, pure, raise, ◌>>=◌, ◌>>◌, done, modify, db_call, Message,
  fulfill, reject, alert,
}
use crynux_relay_wallet.Models.Records.{WithdrawStatus, withdraw_status_eq, WithdrawRecord}
use crynux_relay_wallet.Models.Chain.{classify_transaction_chain, is_confirmed}
use crynux_relay_wallet.Transactions.Queries.{
  Transactions, get_transaction_by_id, get_retry_transactions_by_id, list_transaction_chain,
}
use crynux_relay_wallet.Errors.{
  record_not_found, relay_error, withdrawal_without_transaction,
  withdrawal_request_transaction_unconfirmed_timeout,
}

unfoldable pub withdrawal_chain_has_committed_broadcast : ℕ → Action Bool
unfolding list_transaction_chain has_committed_broadcast
withdrawal_chain_has_committed_broadcast root_id = do
  transactions ← list_transaction_chain root_id
  pure (any has_committed_broadcast transactions)

-- The last retry, if the first attempt has failed and there is one.
unfoldable pub get_current_blockchain_transaction : ℕ → Action BlockchainTransaction
unfolding get_transaction_by_id get_retry_transactions_by_id
get_current_blockchain_transaction id = do
  tx ← get_transaction_by_id id
  if not (status_eq tx.status TransactionStatus.failed)
      then pure tx
      else (do retries ← get_retry_transactions_by_id id; pure (last_or tx retries))

-- A message to the outside.
abbrev pub send : Message → World → World
send message w = record w { sent = w.sent ++ message ∷ [] }

-- It alerts the operators and stops the processor.
unfoldable pub stop_for_blocking_timeout : {A : Type 0} → Action A
stop_for_blocking_timeout w = (err withdrawal_request_transaction_unconfirmed_timeout, send alert w)

-- A request to the relay; the relay may have received it even where it seems to have failed.
unfoldable pub answer : Result (Unit {0}) × World → Result (Unit {0}) × World
answer (ok u, w) = (ok u, w)
answer (err e, w) = (err relay_error, w)

unfoldable pub request : Message → Action (Unit {0})
unfolding answer db_call
request message w = answer (db_call (send message w))

unfoldable pub check_reject_chain : Transactions → Action (Unit {0})
unfolding stop_for_blocking_timeout classify_transaction_chain
check_reject_chain transactions =
    if ltb 0 (classify_transaction_chain transactions).confirmed_count
    then stop_for_blocking_timeout
    else if not (classify_transaction_chain transactions).all_proven_fail
    then stop_for_blocking_timeout
    else done

unfoldable pub ensure_reject_safe_at : Option ℕ → Action (Unit {0})
unfolding list_transaction_chain check_reject_chain
ensure_reject_safe_at none = done
ensure_reject_safe_at (some root_id) = list_transaction_chain root_id >>= check_reject_chain

unfoldable pub ensure_withdrawal_reject_safe : WithdrawRecord → Action (Unit {0})
unfolding ensure_reject_safe_at
ensure_withdrawal_reject_safe r = ensure_reject_safe_at r.blockchain_transaction_id

unfoldable pub check_fulfill_chain : Transactions → Action (Unit {0})
unfolding stop_for_blocking_timeout classify_transaction_chain is_proven_terminal_failure
check_fulfill_chain transactions =
    if not ((classify_transaction_chain transactions).confirmed_count == 1)
    then stop_for_blocking_timeout
    else if not (all (λ tx. is_confirmed tx || is_proven_terminal_failure tx) transactions)
    then stop_for_blocking_timeout
    else done

unfoldable pub ensure_fulfill_safe_at : Option ℕ → BlockchainTransaction → Action (Unit {0})
unfolding list_transaction_chain check_fulfill_chain stop_for_blocking_timeout
ensure_fulfill_safe_at none current = raise withdrawal_without_transaction
ensure_fulfill_safe_at (some root_id) current =
    if not (is_confirmed current) || is_none current.tx_hash
    then stop_for_blocking_timeout
    else list_transaction_chain root_id >>= check_fulfill_chain

unfoldable pub ensure_withdrawal_fulfill_safe :
    WithdrawRecord → BlockchainTransaction → Action (Unit {0})
unfolding ensure_fulfill_safe_at
ensure_withdrawal_fulfill_safe r = ensure_fulfill_safe_at r.blockchain_transaction_id

abbrev pub set_withdraw_records : (List WithdrawRecord → List WithdrawRecord) → Db → Db
set_withdraw_records f db = record db { withdraw_records = f db.withdraw_records }

abbrev pub set_status : WithdrawStatus → WithdrawRecord → WithdrawRecord
set_status status r = record r { status = status }

-- The status in the table; the caller's copy of the record then has it too.
unfoldable pub update_status : WithdrawRecord → WithdrawStatus → Action (Unit {0})
update_status r status = do
  if r.id == 0 then raise record_not_found else done
  db_call
  modify (set_withdraw_records (update_where (λ row. row.id == r.id) (set_status status)))

unfoldable pub reject_withdrawal_request_safely : WithdrawRecord → Action (Unit {0})
unfolding ensure_withdrawal_reject_safe request update_status
reject_withdrawal_request_safely r = do
  ensure_withdrawal_reject_safe r
  request (reject r.remote_id)
  update_status r WithdrawStatus.finished_rejected

abbrev pub text_or_empty : Option String → String
text_or_empty none = ""
text_or_empty (some s) = s

-- The end of processWithdrawalRecord for a payout that was confirmed.
unfoldable pub fulfill_withdrawal : WithdrawRecord → BlockchainTransaction → Action (Unit {0})
unfolding ensure_withdrawal_fulfill_safe request update_status
fulfill_withdrawal r current = do
  ensure_withdrawal_fulfill_safe r current
  request (fulfill r.remote_id (text_or_empty current.tx_hash))
  update_status r WithdrawStatus.finished

-- Where no attempt is at hand, the current one is read.
unfoldable pub attempt_of :
    WithdrawRecord → Option BlockchainTransaction → Action BlockchainTransaction
unfolding get_current_blockchain_transaction
attempt_of r (some current) = pure current
attempt_of r none = elim r.blockchain_transaction_id [
  | none ↦ raise withdrawal_without_transaction
  | some root_id ↦ get_current_blockchain_transaction root_id
]

-- What processWithdrawalRecord does once the record is no longer pending.
unfoldable pub finish_withdrawal : WithdrawRecord → Option BlockchainTransaction → Action (Unit {0})
unfolding fulfill_withdrawal reject_withdrawal_request_safely attempt_of
finish_withdrawal r current =
    if withdraw_status_eq r.status WithdrawStatus.success
    then attempt_of r current >>= fulfill_withdrawal r
    else reject_withdrawal_request_safely r
