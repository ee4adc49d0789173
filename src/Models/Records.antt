-- ===== src/Models/Records.antt =====
-- models/: the other tables (withdraw.go, relay_account.go, checkpoint.go, deposit_record.go and the
-- record type of vesting.go).
use crynux_relay_wallet.Base.{ℕ, String, Bool, Option, ◌==◌}
use crynux_relay_wallet.Int.{ℤ}

pub data WithdrawStatus : Type 0 where
  pending success failed finished finished_rejected : WithdrawStatus

abbrev pub withdraw_status_code : WithdrawStatus → ℕ
withdraw_status_code WithdrawStatus.pending = 0
withdraw_status_code WithdrawStatus.success = 1
withdraw_status_code WithdrawStatus.failed = 2
withdraw_status_code WithdrawStatus.finished = 3
withdraw_status_code WithdrawStatus.finished_rejected = 4

abbrev pub withdraw_status_eq : WithdrawStatus → WithdrawStatus → Bool
withdraw_status_eq a b = withdraw_status_code a == withdraw_status_code b

pub record WithdrawRecord : Type 0 where
  pub id : ℕ
  pub created_at : ℕ
  pub remote_id : ℕ
  pub address : String
  pub benefit_address : String
  pub amount : ℤ
  pub withdrawal_fee : ℤ
  pub network : String
  pub status : WithdrawStatus
  pub blockchain_transaction_id : Option ℕ
  pub timestamp : Option ℤ
  pub signature : Option String
  pub authorization_fingerprint : Option String

pub record RelayAccount : Type 0 where
  pub address : String
  pub balance : ℤ

pub record TaskFeeCheckpoint : Type 0 where
  pub latest_task_fee_log_id : ℕ
  pub latest_task_fee_log_timestamp : ℕ

pub record WithdrawalRequestCheckpoint : Type 0 where
  pub latest_withdrawal_request_id : ℕ
  pub latest_withdrawal_request_timestamp : ℕ

pub record DepositRecord : Type 0 where
  pub network : String
  pub tx_hash : String
  pub deposit_address : String
  pub from_address : String
  pub amount : ℤ
  pub relay_account_event_id : ℕ

pub data VestingStatus : Type 0 where
  active completed deprecated : VestingStatus

-- A time is a number of seconds since 1970.
pub record VestingRecord : Type 0 where
  pub relay_vesting_id : ℕ
  pub address : String
  pub total_amount : ℤ
  pub released_amount : ℤ
  pub start_time : ℤ
  pub duration_days : ℕ
  pub type : String
  pub admin_signature : String
  pub status : VestingStatus
