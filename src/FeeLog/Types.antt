-- ===== src/FeeLog/Types.antt =====
-- relay_api/task_fee_log.go, and the tests on log types of tasks/sync_task_fee_logs.go.
use crynux_relay_wallet.Base.{ℕ, String, Bool, true, false}
use crynux_relay_wallet.Int.{ℤ}

-- An `int8`: the relay may send a number that the wallet does not know.
pub data TaskFeeLogType : Type 0 where
  task_income dao_task_share withdrawal_fee_income deposit task_payment task_refund : TaskFeeLogType
  withdraw withdraw_refund user_delegation vesting_created vesting_release : TaskFeeLogType
  unknown : ℤ → TaskFeeLogType

pub record TaskFeeLog : Type 0 where
  pub id : ℕ
  pub created_at : ℕ
  pub address : String
  pub amount : String
  pub type : TaskFeeLogType
  pub payload : String

unfoldable pub is_supported_task_fee_log_type : TaskFeeLogType → Bool
is_supported_task_fee_log_type (TaskFeeLogType.unknown n) = false
is_supported_task_fee_log_type _ = true

unfoldable pub is_balance_ignored_task_fee_log_type : TaskFeeLogType → Bool
is_balance_ignored_task_fee_log_type TaskFeeLogType.withdraw = true
is_balance_ignored_task_fee_log_type TaskFeeLogType.withdraw_refund = true
is_balance_ignored_task_fee_log_type TaskFeeLogType.vesting_created = true
is_balance_ignored_task_fee_log_type _ = false
