-- ===== src/Withdraw/Settle.antt =====
-- tasks/process_withdrawal_requests.go: what processWithdrawalRecord does with an attempt that is at its
-- end, the debit above all.
use crynux_relay_wallet.Base.{String, Option, none, some, [], ◌∷◌, str_eq, leb, if◌then◌else◌}
use crynux_relay_wallet.Models.Transaction.{TransactionStatus, status_eq, BlockchainTransaction}
use crynux_relay_wallet.Int.{ℤ, ◌-ℤ◌, ltb_ℤ}
use crynux_relay_wallet.World.{
  World, Result, ok, err, Action, raise, gets, ◌>>=◌, ◌>>◌, done, modify, db_call, atomic,
}
use crynux_relay_wallet.Models.Records.{WithdrawStatus, WithdrawRecord, RelayAccount}
use crynux_relay_wallet.Errors.{record_not_found, withdrawal_request_task_fee_not_enough}
use crynux_relay_wallet.Models.Chain.{is_confirmed}
use crynux_relay_wallet.FeeLog.Accounts.{Accounts, account_at, set_accounts}
use crynux_relay_wallet.Withdraw.Amounts.{withdrawal_total_amount}
use crynux_relay_wallet.Withdraw.Chains.{ensure_withdrawal_fulfill_safe, set_status, update_status}

unfoldable pub total_of : WithdrawRecord → ℤ
unfolding withdrawal_total_amount
total_of r = withdrawal_total_amount r.amount r.withdrawal_fee

-- `tx.Save(&account)`, for the account that was read: its row.
unfoldable pub set_balance_at : String → ℤ → Accounts → Accounts
set_balance_at address balance [] = []
set_balance_at address balance (a ∷ rows) =
    let rest = set_balance_at address balance rows in
    if str_eq a.address address then record a { balance = balance } ∷ rows else a ∷ rest

unfoldable pub debit_account : String → ℤ → Option RelayAccount → Action (Unit {0})
unfolding set_balance_at
debit_account address amount none = raise record_not_found
debit_account address amount (some account) =
    if ltb_ℤ account.balance amount
    then raise withdrawal_request_task_fee_not_enough
    else (do db_call; modify (set_accounts (set_balance_at address (account.balance -ℤ amount))))

-- The body of the transaction.
unfoldable pub debit_body : WithdrawRecord → Action (Unit {0})
unfolding debit_account update_status
debit_body r = do
  db_call
  account ← gets (λ w. account_at r.address w.db.accounts)
  debit_account r.address (total_of r) account
  update_status r WithdrawStatus.success

unfoldable pub debit_withdrawal : WithdrawRecord → Action (Unit {0})
unfolding debit_body
debit_withdrawal r = atomic (debit_body r)

-- The caller's copy of the record after the transaction: UpdateStatus has set its status inside the
-- transaction, and a commit that fails does not take it back.
abbrev after_update : Result (Unit {0}) → WithdrawRecord → WithdrawRecord
after_update (ok u) r = set_status WithdrawStatus.success r
after_update (err e) r = r

unfoldable pub record_after_debit : WithdrawRecord → World → WithdrawRecord
unfolding debit_body
record_after_debit r w = after_update (debit_body r w).0 r

-- An attempt that is confirmed, cancelled, or failed for the last time; any other is tried again.
unfoldable pub settle_withdrawal : WithdrawRecord → BlockchainTransaction → Action (Unit {0})
unfolding debit_withdrawal ensure_withdrawal_fulfill_safe update_status
settle_withdrawal r current =
    if is_confirmed current
    then (do ensure_withdrawal_fulfill_safe r current; debit_withdrawal r)
    else if status_eq current.status TransactionStatus.cancelled
    then update_status r WithdrawStatus.failed
    else if leb current.max_retries current.retry_count
    then update_status r WithdrawStatus.failed
    else done
