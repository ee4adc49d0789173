-- ===== src/Withdraw/Limits.antt =====
-- tasks/process_withdrawal_requests.go: checkWithdrawalDailyLimit and checkWithdrawalRequests.
use crynux_relay_wallet.Base.{
  ℕ, suc, ◌-◌, ◌*◌, ◌%◌, String, Bool, not, ◌&&◌, ◌||◌, none, some, List, [], ◌∷◌, str_eq, leb,
  ◌==◌, if◌then◌else◌, length, filter, any,
}
use crynux_relay_wallet.World.{World, Result, ok, Action, gets, ◌>>=◌, ◌>>◌, done, db_call}
use crynux_relay_wallet.Int.{ℤ, pos, ◌+ℤ◌, ltb_ℤ, leb_ℤ, eqb_ℤ}
use crynux_relay_wallet.Models.Records.{
  WithdrawStatus, withdraw_status_eq, WithdrawRecord, RelayAccount,
}
use crynux_relay_wallet.Config.{AppConfig, blockchain_of}
use crynux_relay_wallet.FeeLog.Deposits.{◌then_ok◌}
use crynux_relay_wallet.FeeLog.Accounts.{lift, is_empty}
use crynux_relay_wallet.Withdraw.Amounts.{parse_withdrawal_amount, withdrawal_total_amount}
use crynux_relay_wallet.Withdraw.Authorization.{WithdrawalRequest, demand}
use crynux_relay_wallet.Blockchain.Node.{Node}
use crynux_relay_wallet.Blockchain.Client.{Clients}
use crynux_relay_wallet.Blockchain.Start.{get_benefit_address}
use crynux_relay_wallet.Text.{equal_fold}
use crynux_relay_wallet.Errors.{
  withdrawal_request_amount_invalid, withdrawal_request_amount_too_small,
  withdrawal_request_amount_too_large, withdrawal_request_status_invalid,
  withdrawal_request_address_not_exists, withdrawal_request_network_invalid,
  withdrawal_request_daily_limit_exceeded, withdrawal_request_beneficial_address_invalid,
}

-- A test of each element, up to the first that fails.
unfoldable pub each : {A : Type 0} → (A → Result (Unit {0})) → List A → Result (Unit {0})
each test [] = ok tt
each test (a ∷ rest) = let others = each test rest in (test a then_ok λ _. others)

-- A network and an address.
abbrev pub WithdrawalDailyLimitKey : Type 0
WithdrawalDailyLimitKey = String × String

abbrev pub key_eq : WithdrawalDailyLimitKey → WithdrawalDailyLimitKey → Bool
key_eq a b = str_eq a.0 b.0 && str_eq a.1 b.1

abbrev pub KeyCounts : Type 0
KeyCounts = List (WithdrawalDailyLimitKey × ℕ)

-- `counts[key]++`.
unfoldable pub increment_key : WithdrawalDailyLimitKey → KeyCounts → KeyCounts
increment_key key [] = (key, 1) ∷ []
increment_key key ((k, n) ∷ m) =
    let rest = increment_key key m in if key_eq k key then (k, suc n) ∷ m else (k, n) ∷ rest

-- `counts[key]++` for a key that is there.
unfoldable pub increment_known : WithdrawalDailyLimitKey → KeyCounts → KeyCounts
increment_known key [] = []
increment_known key ((k, n) ∷ m) =
    let rest = increment_known key m in if key_eq k key then (k, suc n) ∷ m else (k, n) ∷ rest

abbrev pub limit_of : AppConfig → String → ℕ
limit_of app network = elim (blockchain_of network app.blockchains) [
  | none ↦ 0
  | some c ↦ c.max_withdrawals_per_day
]

-- The start of the day in UTC.
abbrev pub day_start : ℕ → ℕ
day_start now = now - now % 86400

-- The batch, counted by a key of its requests: their requester, or their destination.
unfoldable pub count_requests :
    (WithdrawalRequest → WithdrawalDailyLimitKey) → List WithdrawalRequest → KeyCounts → KeyCounts
unfolding increment_key
count_requests key_of [] counts = counts
count_requests key_of (r ∷ rest) counts =
    count_requests key_of rest (increment_key (key_of r) counts)

abbrev pub requester_of : WithdrawalRequest → WithdrawalDailyLimitKey
requester_of r = (r.network, r.address)

abbrev pub destination_of : WithdrawalRequest → WithdrawalDailyLimitKey
destination_of r = (r.network, r.benefit_address)

-- The records of the day that count, but for those of the requests.
unfoldable pub counts_today : List WithdrawalRequest → ℕ → WithdrawRecord → Bool
counts_today requests start r =
    (any (λ request. str_eq request.network r.network) requests
      && (any (λ request. str_eq request.address r.address) requests
          || any (λ request. str_eq request.benefit_address r.benefit_address) requests)
      && leb start r.created_at
      && not (withdraw_status_eq r.status WithdrawStatus.failed)
      && not (withdraw_status_eq r.status WithdrawStatus.finished_rejected)
      && not (any (λ request. request.id == r.remote_id) requests))

-- The stored records, counted by the same key where the batch has it.
unfoldable pub count_records :
    (WithdrawRecord → WithdrawalDailyLimitKey) → List WithdrawRecord → KeyCounts → KeyCounts
unfolding increment_known
count_records key_of [] counts = counts
count_records key_of (r ∷ rest) counts =
    count_records key_of rest (increment_known (key_of r) counts)

abbrev pub record_requester_of : WithdrawRecord → WithdrawalDailyLimitKey
record_requester_of r = (r.network, r.address)

abbrev pub record_destination_of : WithdrawRecord → WithdrawalDailyLimitKey
record_destination_of r = (r.network, r.benefit_address)

module _ (app : AppConfig) where
  -- The network is configured, with a limit.
  unfoldable pub check_network : WithdrawalRequest → Result (Unit {0})
  check_network request =
      demand (not (limit_of app request.network == 0)) withdrawal_request_network_invalid

  unfoldable pub check_withdrawal_daily_limit_counts : KeyCounts → Result (Unit {0})
  unfolding each
  check_withdrawal_daily_limit_counts counts =
      each (λ c. demand (leb c.1 (limit_of app c.0.0)) withdrawal_request_daily_limit_exceeded)
        counts

  abbrev pub check_stored : List WithdrawalRequest → List WithdrawRecord → Action (Unit {0})
  check_stored requests stored = do
    lift (
        check_withdrawal_daily_limit_counts
          (count_records record_requester_of stored (count_requests requester_of requests [])))
    lift (
        check_withdrawal_daily_limit_counts
          (count_records record_destination_of stored (count_requests destination_of requests [])))

  unfoldable pub check_withdrawal_daily_limit : List WithdrawalRequest → Action (Unit {0})
  unfolding check_network count_requests count_records counts_today
      check_withdrawal_daily_limit_counts
  check_withdrawal_daily_limit requests = if is_empty requests then done else (do
    lift (each check_network requests)
    db_call
    stored ← gets (λ w. filter (counts_today requests (day_start w.clock)) w.db.withdraw_records)
    check_stored requests stored)

-- `amountMap`, in the order of insertion.
abbrev pub RequestAmounts : Type 0
RequestAmounts = List (String × ℤ)

unfoldable pub add_request_amount : String → ℤ → RequestAmounts → RequestAmounts
add_request_amount address amount [] = (address, amount) ∷ []
add_request_amount address amount ((a, n) ∷ m) =
    let rest = add_request_amount address amount m in
    if str_eq a address then (a, n +ℤ amount) ∷ m else (a, n) ∷ rest

unfoldable pub amount_of_address : String → RequestAmounts → ℤ
amount_of_address address [] = pos 0
amount_of_address address ((a, n) ∷ m) =
    let rest = amount_of_address address m in if str_eq a address then n else rest

module _ (app : AppConfig) where
  unfoldable pub check_request_amount : WithdrawalRequest → Result (Unit {0})
  check_request_amount request = parse_withdrawal_amount request.amount then_ok λ amount.
      parse_withdrawal_amount request.withdrawal_fee then_ok λ fee.
      demand (not (ltb_ℤ amount (pos (app.min_withdrawal_amount * 1000000000000000000))))
        withdrawal_request_amount_too_small
      then_ok λ _.
          demand (ltb_ℤ (pos 0) (withdrawal_total_amount amount fee))
            withdrawal_request_amount_invalid

  -- A request is pending at the relay; its total is added to that of its address.
  unfoldable pub sum_request : WithdrawalRequest → RequestAmounts → Result RequestAmounts
  sum_request request amounts =
      demand (eqb_ℤ request.status (pos 0)) withdrawal_request_status_invalid then_ok λ _.
      parse_withdrawal_amount request.amount then_ok λ amount.
      parse_withdrawal_amount request.withdrawal_fee then_ok λ fee.
      ok (add_request_amount request.address (withdrawal_total_amount amount fee) amounts)

  unfoldable pub sum_requests : List WithdrawalRequest → RequestAmounts → Result RequestAmounts
  unfolding sum_request
  sum_requests [] amounts = ok amounts
  sum_requests (request ∷ rest) amounts =
      sum_request request amounts then_ok λ sum. sum_requests rest sum

  -- The accounts of the addresses, each with enough for all its requests.
  unfoldable pub check_balances : RequestAmounts → List RelayAccount → Result (Unit {0})
  unfolding amount_of_address each
  check_balances amounts accounts =
      demand (length accounts == length amounts) withdrawal_request_address_not_exists then_ok λ _.
      each
        (λ account.
          demand (leb_ℤ (amount_of_address account.address amounts) account.balance)
            withdrawal_request_amount_too_large)
        accounts

  unfoldable pub accounts_of : RequestAmounts → List RelayAccount → List RelayAccount
  accounts_of amounts accounts =
      filter (λ account. any (λ a. str_eq a.0 account.address) amounts) accounts

  -- `normal` writes an address as go-ethereum does, with `common.HexToAddress` and `Hex`.
  module _ (node : Node) (clients : Clients) (is_zero : String → Bool)
      (contract : World → String → String → Result String) (normal : String → String) where
    unfoldable pub check_benefit_addresses : List WithdrawalRequest → Action (Unit {0})
    check_benefit_addresses [] = done
    check_benefit_addresses (request ∷ rest) = do
      ba ←
          get_benefit_address node clients is_zero contract (normal request.address) request.network
      lift (
          demand (equal_fold ba request.benefit_address)
            withdrawal_request_beneficial_address_invalid)
      check_benefit_addresses rest

    unfoldable pub check_withdrawal_requests : List WithdrawalRequest → Action (Unit {0})
    unfolding check_request_amount sum_requests check_balances accounts_of check_benefit_addresses
        check_withdrawal_daily_limit
    check_withdrawal_requests requests = do
      lift (each check_request_amount requests)
      amounts ← lift (sum_requests requests [])
      db_call
      accounts ← gets (λ w. accounts_of amounts w.db.accounts)
      lift (check_balances amounts accounts)
      check_withdrawal_daily_limit app requests
      check_benefit_addresses requests
