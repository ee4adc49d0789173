-- ===== src/FeeLog/Accounts.antt =====
-- tasks/sync_task_fee_logs.go: processTaskFeeLogs.
use crynux_relay_wallet.Base.{
  String, Bool, true, false, Option, none, some, List, [], ◌∷◌, ◌++◌, map, str_eq, if◌then◌else◌,
  is_some, filter, find?,
}
use crynux_relay_wallet.Int.{◌+ℤ◌}
use crynux_relay_wallet.World.{Db, Result, Action, gets, ◌>>=◌, ◌>>◌, done, modify, db_call}
use crynux_relay_wallet.Models.Records.{RelayAccount}
use crynux_relay_wallet.FeeLog.Types.{TaskFeeLog}
use crynux_relay_wallet.FeeLog.Merge.{Amounts, lookup, merge_task_fee_logs}

abbrev pub Accounts : Type 0
Accounts = List RelayAccount

abbrev pub account_at : String → Accounts → Option RelayAccount
account_at a rows = find? (λ r. str_eq r.address a) rows

-- `address IN (?)`, for the addresses of the merged map.
abbrev pub is_merged : Amounts → RelayAccount → Bool
is_merged merged account = is_some (lookup account.address merged)

-- `account.Balance.Add(&account.Balance.Int, amount)`, where the map has the address.
unfoldable pub add_merged : Amounts → RelayAccount → RelayAccount
add_merged merged account = elim (lookup account.address merged) [
  | none ↦ account
  | some n ↦ record account { balance = account.balance +ℤ n }
]

-- The merged addresses without an account.
unfoldable pub new_accounts : Amounts → Accounts → Accounts
new_accounts [] existed = []
new_accounts ((a, n) ∷ merged) existed =
    let rest = new_accounts merged existed in
    if is_some (account_at a existed) then rest else record { address = a; balance = n } ∷ rest

-- `balance = CASE WHEN address = ... END` for the addresses of the listed accounts.
unfoldable pub set_balance : Accounts → RelayAccount → RelayAccount
set_balance listed row = elim (account_at row.address listed) [
  | none ↦ row
  | some account ↦ record row { balance = account.balance }
]

abbrev pub lift : {A : Type 0} → Result A → Action A
lift r w = (r, w)

abbrev pub set_accounts : (Accounts → Accounts) → Db → Db
set_accounts f db = record db { accounts = f db.accounts }

abbrev pub is_empty {ℓ} : {A : Type ℓ} → List A → Bool
is_empty [] = true
is_empty (_ ∷ _) = false

unfoldable pub create_accounts : Accounts → Action (Unit {0})
create_accounts [] = done
create_accounts (a ∷ rest) = do db_call; modify (set_accounts (λ rows. rows ++ a ∷ rest))

unfoldable pub update_balances : Accounts → Action (Unit {0})
update_balances [] = done
update_balances (a ∷ rest) = do db_call; modify (set_accounts (map (set_balance (a ∷ rest))))

-- What follows the merge, where it is not empty.
unfoldable pub apply_merged : Amounts → Action (Unit {0})
unfolding create_accounts update_balances
apply_merged merged = do
  db_call
  existed ← gets (λ w. filter (is_merged merged) w.db.accounts)
  create_accounts (new_accounts merged existed)
  update_balances (map (add_merged merged) existed)

unfoldable pub process_task_fee_logs : List TaskFeeLog → Action (Unit {0})
process_task_fee_logs logs = do
  merged ← lift (merge_task_fee_logs logs)
  if is_empty merged then done else apply_merged merged
