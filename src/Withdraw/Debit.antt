-- ===== src/Withdraw/Debit.antt =====
-- Lemmas on tasks/process_withdrawal_requests.go: the debit of a withdrawal.
use crynux_relay_wallet.Base.{
  String, ◌≡◌, refl, ◌∙◌, inl, inr, some, [], ◌∷◌, arith, str_eq, eq_iff, ◌==◌, if◌then◌else◌,
  Option-cases, update_where,
}
use crynux_relay_wallet.Int.{ℤ, ◌-ℤ◌, ◌+ℤ◌, ◌≤ℤ◌}
use crynux_relay_wallet.World.{Db, World, Result, ok, err, done, db_call, atomic}
use crynux_relay_wallet.Models.Records.{WithdrawStatus, WithdrawRecord, RelayAccount}
use crynux_relay_wallet.World.{call_with, Result-cases}
use crynux_relay_wallet.World.Inversion.{atomic-ok, atomic-err}
use crynux_relay_wallet.Errors.{Error}
use crynux_relay_wallet.FeeLog.Accounts.{Accounts, account_at}
use crynux_relay_wallet.FeeLog.Balances.{balance_of}
use crynux_relay_wallet.Withdraw.Chains.{set_status, update_status}
use crynux_relay_wallet.Withdraw.Amounts.{withdrawal_total_amount}
use crynux_relay_wallet.Withdraw.Settle.{
  total_of, set_balance_at, debit_account, debit_body, debit_withdrawal,
}

-- The tables after a debit.
abbrev debited_db : WithdrawRecord → RelayAccount → Db → Db
debited_db r account db = record db {
  accounts = set_balance_at r.address (account.balance -ℤ total_of r) db.accounts;
  withdraw_records =
      update_where (λ row. row.id == r.id) (set_status WithdrawStatus.success) db.withdraw_records;
}

debit_body-ok :
    (r : WithdrawRecord) (w : World)
    → (debit_body r w).0 ≡ ok tt
    → (account : RelayAccount) × (account_at r.address w.db.accounts ≡ some account)
      × (total_of r ≤ℤ account.balance)
      × ((debit_body r w).1.db ≡ debited_db r account w.db)
unfolding debit_body debit_account update_status db_call call_with
debit_body-ok r w h = elim (Option-cases (account_at r.address w.db.accounts)) [
  | inl absent ↦ absurd (ground arith)
  | inr (account, found) ↦ (account, found, ground arith, ground arith)
]

account_at-set_balance_at :
    (a b : String) (n : ℤ) (rows : Accounts) {account : RelayAccount}
    → account_at b rows ≡ some account
    → balance_of a (set_balance_at b n rows) ≡ (if str_eq b a then n else balance_of a rows)
unfolding set_balance_at
account_at-set_balance_at a b n [] found = cc
account_at-set_balance_at a b n (x ∷ rows) {account} found = ground (
  arith,
  eq_iff x.address a,
  eq_iff x.address b,
  eq_iff b a,
  account_at-set_balance_at a b n rows {account = account},
)

-- What a successful debit is.
pub record IsDebited (r : WithdrawRecord) (before after : Db) : Type 0 where
  pub covered : r.amount +ℤ r.withdrawal_fee ≤ℤ balance_of r.address before.accounts
  pub balances :
      (a : String)
      → balance_of a after.accounts ≡ (
          if str_eq r.address a
          then balance_of a before.accounts -ℤ (r.amount +ℤ r.withdrawal_fee)
          else balance_of a before.accounts)
  pub marked :
      after.withdraw_records
      ≡ update_where
          (λ row. row.id == r.id)
          (set_status WithdrawStatus.success)
          before.withdraw_records
  pub same_transactions : after.transactions ≡ before.transactions

debit_body-IsDebited :
    (r : WithdrawRecord) (w : World)
    → (debit_body r w).0 ≡ ok tt
    → IsDebited r w.db (debit_body r w).1.db
unfolding total_of withdrawal_total_amount
debit_body-IsDebited r w h =
    let (account, found, covered, written) = debit_body-ok r w h in
    let n : ℤ = account.balance -ℤ total_of r in
    let balance : balance_of r.address w.db.accounts ≡ account.balance = rw found refl in
    rw written (record {
      covered = rw balance covered;
      balances = λ a.
          account_at-set_balance_at a r.address n w.db.accounts {account = account} found
          ∙ ground (arith, eq_iff r.address a);
      marked = refl;
      same_transactions = refl;
    })

-- The result of a debit, and the tables after it.
pub data DebitOutcome (r : WithdrawRecord) (before : Db) : Result (Unit {0}) → Db → Type 0 where
  debited : (after : Db) → IsDebited r before after → DebitOutcome r before (ok tt) after
  refused : (e : Error) → DebitOutcome r before (err e) before

-- A debit that succeeds takes the amount and the fee of the withdrawal from the balance of its address,
-- which covered them, leaves all other balances and the blockchain transactions as they were, and marks
-- the withdrawal as paid out; a debit that fails, the commit included, changes no table.
pub debit_withdrawal-exact :
    (r : WithdrawRecord) (w : World)
    → DebitOutcome r w.db (debit_withdrawal r w).0 (debit_withdrawal r w).1.db
unfolding debit_withdrawal
debit_withdrawal-exact r w = elim (Result-cases (atomic (debit_body r) w).0) [
  | inl (u, done) ↦
      let (ran, committed) = atomic-ok (debit_body r) w {a = tt} done in
      rw (done, committed) (debited (debit_body r w).1.db (debit_body-IsDebited r w ran))
  | inr (e, failed) ↦ rw (failed, atomic-err (debit_body r) w {e = e} failed) (refused e)
]
