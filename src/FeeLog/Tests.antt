-- ===== src/FeeLog/Tests.antt =====
-- The theorems on the account log, at small batches.
use crynux_relay_wallet.Base.{
  String, ◌≡◌, refl, true, false, none, some, List, [], ◌∷◌, ◌++◌, arith, All, any,
}
use crynux_relay_wallet.Int.{ℤ, pos, ◌+ℤ◌, ◌-ℤ◌, ◌≤ℤ◌}
use crynux_relay_wallet.World.{World, db_call}
use crynux_relay_wallet.Models.Records.{DepositRecord, VestingStatus, VestingRecord}
use crynux_relay_wallet.FeeLog.Vesting.{VestingCodec}
use crynux_relay_wallet.FeeLog.Releases.{
  is_releasable_vesting, set_released_amount, write_release, apply_vesting_release_log,
  apply_vesting_logs,
}
use crynux_relay_wallet.Fixture.{db_with, world_of}
use crynux_relay_wallet.Config.{AppConfig}
use crynux_relay_wallet.Text.{is_blank, equal_fold, parse_int}
use crynux_relay_wallet.FeeLog.Types.{TaskFeeLogType, TaskFeeLog}
use crynux_relay_wallet.FeeLog.Merge.{
  add_amount, sub_amount, amount_at, credits, merge_task_fee_logs, merge-credits,
}
use crynux_relay_wallet.FeeLog.Accounts.{
  new_accounts, process_task_fee_logs, create_accounts, update_balances, apply_merged,
}
use crynux_relay_wallet.FeeLog.Balances.{balance_of, process-credits}
use crynux_relay_wallet.FeeLog.Deposits.{
  insert_deposits, parse_deposit_payload, deposit_record, write_deposits, DepositCodec,
  same_deposit, build_deposit_records, save_deposit_records,
}
use crynux_relay_wallet.FeeLog.Recorded.{AreDepositsOf}
use crynux_relay_wallet.FeeLog.DepositKeys.{AreDistinct, with_deposits, save_deposit_records-fresh}
use crynux_relay_wallet.FeeLog.Schedule.{
  elapsed_days, compute_vesting_should_released, compute_vesting_should_released-bounds,
  compute_vesting_should_released_mono,
}
use crynux_relay_wallet.FeeLog.Vested.{AreSound, apply_vesting_logs-AreSound}
use crynux_relay_wallet.FeeLog.Released.{IsRelease, apply_vesting_release_log-IsRelease}
use crynux_relay_wallet.FeeLog.Batch.{
  BatchOutcome, apply_task_fee_log_batch, apply_task_fee_log_batch-all_or_nothing,
}

-- Alice is paid 7 for a task, pays 2, and deposits 5.
abbrev income : TaskFeeLog
income = record {
  id = 1;
  created_at = 90;
  address = "0xalice";
  amount = "7";
  type = TaskFeeLogType.task_income;
  payload = "";
}

abbrev payment : TaskFeeLog
payment = record income { id = 2; amount = "2"; type = TaskFeeLogType.task_payment }

abbrev deposit_log : TaskFeeLog
deposit_log = record income { id = 3; amount = "5"; type = TaskFeeLogType.deposit; payload = "{}" }

abbrev logs : List TaskFeeLog
logs = income ∷ payment ∷ deposit_log ∷ []

abbrev start : World
start = world_of (db_with [] 1)

abbrev deposit_codec : DepositCodec
deposit_codec = record {
  unmarshal = λ _. some (record { tx_hash = "0xAB"; network = "eth" });
  decoded_length = λ _. some 32;
  hash_hex = λ s. s;
}

-- A vesting of 100 over ten days, of which 10 are released.
abbrev vesting : VestingRecord
vesting = record {
  relay_vesting_id = 4;
  address = "0xalice";
  total_amount = pos 100;
  released_amount = pos 10;
  start_time = pos 0;
  duration_days = 10;
  type = "node";
  admin_signature = "0x00";
  status = VestingStatus.active;
}

abbrev release_log : TaskFeeLog
release_log = record income {
  id = 4;
  created_at = 259200;
  amount = "20";
  type = TaskFeeLogType.vesting_release;
  payload = "{}";
}

abbrev vesting_codec : VestingCodec
vesting_codec = record {
  unmarshal_vesting = λ _. none;
  unmarshal_release = λ _. some 4;
  is_hex_address = λ _. true;
  decimal = λ _. "0";
  decode = λ _. none;
  signer_of = λ _ _. none;
}

abbrev app : AppConfig
app = record {
  blockchains = [];
  deposit_address = "0xpool";
  withdrawal_fee_address = "0xfee";
  vesting_signer_address = "0xadmin";
  max_task_fee_amount = 10;
  max_address_logs_count_in_batch = 10;
  max_new_address_count_in_batch = 10;
  deposit_max_age_seconds = 10;
  min_withdrawal_amount = 1;
  cancellation_settlement_timeout_seconds = 10;
}

-- Three days after the start of the vesting.
abbrev third_day : World
third_day = record start { clock = 259200; db = record start.db { vestings = vesting ∷ [] } }

merge-credits_example : amount_at "0xalice" (("0xalice", pos 10) ∷ []) ≡ credits "0xalice" logs
unfolding merge_task_fee_logs parse_int add_amount sub_amount ◌+ℤ◌ ◌-ℤ◌
merge-credits_example = merge-credits "0xalice" logs {m = ("0xalice", pos 10) ∷ []} refl

process-credits_example :
    ((a : String)
      → balance_of a (process_task_fee_logs logs start).1.db.accounts
        ≡ balance_of a start.db.accounts +ℤ credits a logs)
    × ((process_task_fee_logs logs start).1.db
        ≡ record start.db { accounts = (process_task_fee_logs logs start).1.db.accounts })
unfolding process_task_fee_logs merge_task_fee_logs parse_int apply_merged create_accounts
    update_balances db_call add_amount sub_amount new_accounts
process-credits_example = process-credits logs start refl

save_deposit_records-fresh_example :
    (ds : List DepositRecord) × AreDepositsOf deposit_codec "0xpool" logs ds
    × ((save_deposit_records deposit_codec "0xpool" logs start).1.db
        ≡ with_deposits start.db (start.db.deposits ++ ds))
    × All (λ d. any (same_deposit d) start.db.deposits ≡ false) ds
    × AreDistinct (start.db.deposits ++ ds)
unfolding save_deposit_records write_deposits build_deposit_records deposit_record parse_int
    is_blank db_call parse_deposit_payload insert_deposits
save_deposit_records-fresh_example =
    save_deposit_records-fresh deposit_codec "0xpool" logs start tt refl

compute_vesting_should_released-bounds_example :
    (pos 0 ≤ℤ compute_vesting_should_released (pos 100) (pos 0) 10 (pos 259200))
    × (compute_vesting_should_released (pos 100) (pos 0) 10 (pos 259200) ≤ℤ pos 100)
compute_vesting_should_released-bounds_example =
    compute_vesting_should_released-bounds (pos 100) (pos 0) 10 (pos 259200) (omega arith)

compute_vesting_should_released_mono_example :
    compute_vesting_should_released (pos 100) (pos 0) 10 (pos 259200)
    ≤ℤ compute_vesting_should_released (pos 100) (pos 0) 10 (pos 432000)
compute_vesting_should_released_mono_example =
    compute_vesting_should_released_mono (pos 100) (pos 0) 10 (pos 259200) (pos 432000)
      (omega arith)

vesting-AreSound : AreSound third_day.db
vesting-AreSound = ground arith

apply_vesting_logs-AreSound_example :
    AreSound (apply_vesting_logs vesting_codec "0xadmin" (release_log ∷ []) third_day).1.db
apply_vesting_logs-AreSound_example =
    apply_vesting_logs-AreSound vesting_codec "0xadmin" (release_log ∷ []) third_day
      vesting-AreSound

apply_vesting_release_log-IsRelease_example :
    (r : VestingRecord) × (n : ℤ) × IsRelease release_log 4 259200 third_day.db
      (apply_vesting_release_log release_log 4 third_day).1.db
      r
      n
unfolding apply_vesting_release_log write_release is_releasable_vesting set_released_amount
    parse_int equal_fold compute_vesting_should_released db_call ◌+ℤ◌ ◌-ℤ◌ elapsed_days
apply_vesting_release_log-IsRelease_example =
    apply_vesting_release_log-IsRelease release_log 4 third_day refl

apply_task_fee_log_batch-all_or_nothing_example :
    BatchOutcome deposit_codec vesting_codec app income
      (payment ∷ deposit_log ∷ [])
      start.db
      (apply_task_fee_log_batch deposit_codec vesting_codec app income
        (payment ∷ deposit_log ∷ [])
        start).0
      (apply_task_fee_log_batch deposit_codec vesting_codec app income
        (payment ∷ deposit_log ∷ [])
        start).1.db
apply_task_fee_log_batch-all_or_nothing_example =
    apply_task_fee_log_batch-all_or_nothing deposit_codec vesting_codec app income
      (payment ∷ deposit_log ∷ []) start
