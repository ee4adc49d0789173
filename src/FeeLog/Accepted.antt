-- ===== src/FeeLog/Accepted.antt =====
-- Lemmas on checkTaskFeeLogs of tasks/sync_task_fee_logs.go: the logs of a batch that it accepts.
use crynux_relay_wallet.Base.{
  ℕ, String, ◌≡◌, ◌⊎◌, Bool, true, false, not, ◌&&◌, some, [], ◌∷◌, str_eq, if◌then◌else◌,
}
use crynux_relay_wallet.Int.{ℤ, pos, ◌≤ℤ◌}
use crynux_relay_wallet.World.{World, ok}
use crynux_relay_wallet.Config.{AppConfig}
use crynux_relay_wallet.Text.{parse_int, equal_fold}
use crynux_relay_wallet.FeeLog.Types.{
  TaskFeeLogType, TaskFeeLog, is_balance_ignored_task_fee_log_type,
}
use crynux_relay_wallet.FeeLog.Deposits.{DepositCodec}
use crynux_relay_wallet.FeeLog.Vesting.{
  VestingCodec, VestingPayload, parse_vesting_payload, parse_vesting_release_payload,
}
use crynux_relay_wallet.FeeLog.Validation.{Chain}
use crynux_relay_wallet.FeeLog.Paid.{IsPaid}
use crynux_relay_wallet.FeeLog.Check.{Counts, max_task_fee_amount_in_wei}

abbrev count_at : String → Counts → ℕ
count_at a [] = 0
count_at a ((b, n) ∷ m) = let rest = count_at a m in if str_eq b a then n else rest

-- A type that only moves a balance, by an amount in the log.
abbrev pub is_plain : TaskFeeLogType → Bool
is_plain TaskFeeLogType.task_income = true
is_plain TaskFeeLogType.dao_task_share = true
is_plain TaskFeeLogType.task_payment = true
is_plain TaskFeeLogType.task_refund = true
is_plain TaskFeeLogType.user_delegation = true
is_plain _ = false

-- The logs of an address that count.
abbrev pub is_counted : String → TaskFeeLog → Bool
is_counted a log = not (is_balance_ignored_task_fee_log_type log.type) && str_eq log.address a

module _ (chain : Chain) (deposit_codec : DepositCodec) (vesting_codec : VestingCodec)
    (app : AppConfig) (now : ℕ) where
  -- A log that is accepted, by its type.
  pub data IsAcceptable (log : TaskFeeLog) : Type 0 where
    paid_deposit :
        log.type ≡ TaskFeeLogType.deposit
        → IsPaid chain app now deposit_codec log
        → IsAcceptable log
    fee_income :
        log.type ≡ TaskFeeLogType.withdrawal_fee_income
        → equal_fold log.address app.withdrawal_fee_address ≡ true
        → IsAcceptable log
    new_vesting :
        (payload : VestingPayload)
        → log.type ≡ TaskFeeLogType.vesting_created
        → parse_int log.amount ≡ some (pos 0)
        → parse_vesting_payload vesting_codec log ≡ ok payload
        → IsAcceptable log
    release :
        (vesting_id : ℕ)
        → log.type ≡ TaskFeeLogType.vesting_release
        → parse_vesting_release_payload vesting_codec log ≡ ok vesting_id
        → IsAcceptable log
    without_balance :
        (log.type ≡ TaskFeeLogType.withdraw) ⊎ (log.type ≡ TaskFeeLogType.withdraw_refund)
        → IsAcceptable log
    bounded :
        (n : ℤ)
        → is_plain log.type ≡ true
        → parse_int log.amount ≡ some n
        → n ≤ℤ max_task_fee_amount_in_wei chain deposit_codec vesting_codec app now
        → IsAcceptable log
