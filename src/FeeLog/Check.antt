-- ===== src/FeeLog/Check.antt =====
-- tasks/sync_task_fee_logs.go: checkTaskFeeLogs.
use crynux_relay_wallet.Base.{
  ◌-◌, ◌+◌, ◌%◌, ◌^◌, ℕ, suc, ◌*◌, String, not, ◌&&◌, Option, none, some, List, [], ◌∷◌, str_eq,
  ltb, leb, if◌then◌else◌, is_none, all, count,
}
use crynux_relay_wallet.Int.{negsuc, ℤ, pos, ltb_ℤ, eqb_ℤ}
use crynux_relay_wallet.World.{Result, ok, err, Action, raise, gets, ◌>>=◌, ◌>>◌, done, db_call}
use crynux_relay_wallet.Config.{AppConfig}
use crynux_relay_wallet.Errors.{
  task_fee_unknown_event_type, task_fee_amount_invalid, task_fee_amount_too_large,
  task_fee_withdrawal_fee_address_mismatch, task_fee_vesting_payload_invalid,
  task_fee_address_count_too_large, task_fee_new_address_count_too_large,
}
use crynux_relay_wallet.Text.{parse_int, equal_fold}
use crynux_relay_wallet.FeeLog.Types.{
  TaskFeeLogType, TaskFeeLog, is_supported_task_fee_log_type, is_balance_ignored_task_fee_log_type,
}
use crynux_relay_wallet.FeeLog.Accounts.{lift, account_at, is_empty}
use crynux_relay_wallet.FeeLog.Deposits.{DepositCodec, ◌then_ok◌}
use crynux_relay_wallet.FeeLog.Vesting.{
  VestingCodec, parse_vesting_payload, parse_vesting_release_payload,
}
use crynux_relay_wallet.FeeLog.Validation.{Chain, validate_deposit_log}

-- `addressLogCount`, in the order of insertion.
abbrev pub Counts : Type 0
Counts = List (String × ℕ)

unfoldable pub increment : String → Counts → Counts
increment a [] = (a, 1) ∷ []
increment a ((b, n) ∷ m) =
    let rest = increment a m in if str_eq b a then (b, suc n) ∷ m else (b, n) ∷ rest

-- The conversion of a `uint64` to an `int64`, which wraps.
abbrev pub to_int64 : ℕ → ℤ
to_int64 n =
    if ltb (n % 2 ^ 64) (2 ^ 63) then pos (n % 2 ^ 64) else negsuc (2 ^ 64 - n % 2 ^ 64 - 1)

abbrev pub times_ether : ℤ → ℤ
times_ether (pos n) = pos (n * 1000000000000000000)
times_ether (negsuc n) = negsuc (n * 1000000000000000000 + 999999999999999999)

module _ (chain : Chain) (deposit_codec : DepositCodec) (vesting_codec : VestingCodec)
    (app : AppConfig) (now : ℕ) where
  -- `utils.EtherToWei` of the configured number, which is converted to an `int64`.
  abbrev pub max_task_fee_amount_in_wei : ℤ
  max_task_fee_amount_in_wei = times_ether (to_int64 app.max_task_fee_amount)

  unfoldable pub check_amount : TaskFeeLogType → ℤ → Result (Unit {0})
  check_amount type amount =
      if not (is_balance_ignored_task_fee_log_type type) && ltb_ℤ max_task_fee_amount_in_wei amount
      then err task_fee_amount_too_large
      else ok tt

  -- The chain of tests on the type.
  unfoldable pub check_by_type : TaskFeeLogType → TaskFeeLog → ℤ → Result (Unit {0})
  unfolding check_amount
  check_by_type TaskFeeLogType.deposit log amount =
      validate_deposit_log chain app now deposit_codec log
  check_by_type TaskFeeLogType.withdrawal_fee_income log amount =
      if equal_fold log.address app.withdrawal_fee_address
      then ok tt
      else err task_fee_withdrawal_fee_address_mismatch
  check_by_type TaskFeeLogType.vesting_created log amount =
      if eqb_ℤ amount (pos 0)
      then (parse_vesting_payload vesting_codec log then_ok λ _. ok tt)
      else err task_fee_vesting_payload_invalid
  check_by_type TaskFeeLogType.vesting_release log amount =
      parse_vesting_release_payload vesting_codec log then_ok λ _. ok tt
  check_by_type type log amount = check_amount type amount

  abbrev pub amount_or_invalid : Option ℤ → Result ℤ
  amount_or_invalid none = err task_fee_amount_invalid
  amount_or_invalid (some n) = ok n

  unfoldable pub check_log : TaskFeeLog → Result (Unit {0})
  unfolding check_by_type
  check_log log =
      if not (is_supported_task_fee_log_type log.type)
      then err task_fee_unknown_event_type
      else (amount_or_invalid (parse_int log.amount) then_ok λ amount.
          check_by_type log.type log amount)

  -- The loop over the logs.
  unfoldable pub check_logs : List TaskFeeLog → Counts → Result Counts
  unfolding check_log increment
  check_logs [] counts = ok counts
  check_logs (log ∷ logs) counts = check_log log then_ok λ _. check_logs logs (
      if is_balance_ignored_task_fee_log_type log.type
      then counts
      else increment log.address counts)

-- The tests on the counted addresses.
unfoldable pub check_counts : AppConfig → Counts → Action (Unit {0})
check_counts app counts =
    if not (all (λ c. leb c.1 app.max_address_logs_count_in_batch) counts)
    then raise task_fee_address_count_too_large
    else if is_empty counts
    then done
    else (do
      db_call
      accounts ← gets (λ w. w.db.accounts)
      if ltb app.max_new_address_count_in_batch
            (count (λ c. is_none (account_at c.0 accounts)) counts)
          then raise task_fee_new_address_count_too_large
          else done)

unfoldable pub check_task_fee_logs :
    Chain → DepositCodec → VestingCodec → AppConfig → List TaskFeeLog → Action (Unit {0})
unfolding check_logs check_counts
check_task_fee_logs chain deposit_codec vesting_codec app logs = do
  now ← gets (λ w. w.clock)
  counts ← lift (check_logs chain deposit_codec vesting_codec app now logs [])
  check_counts app counts
