-- ===== src/FeeLog/CheckTests.antt =====
-- The theorems on accepted logs, for a deposit of 5 that was paid by a plain transfer.
use crynux_relay_wallet.Int.{pos}
use crynux_relay_wallet.Base.{List, refl, true, none, some, [], ◌∷◌}
use crynux_relay_wallet.World.{World}
use crynux_relay_wallet.Fixture.{alice, db_with, world_of}
use crynux_relay_wallet.Config.{BlockchainConfig, AppConfig, blockchain_of}
use crynux_relay_wallet.Text.{parse_int, equal_fold, is_blank}
use crynux_relay_wallet.FeeLog.Types.{TaskFeeLogType, TaskFeeLog}
use crynux_relay_wallet.FeeLog.Deposits.{DepositCodec, parse_deposit_payload}
use crynux_relay_wallet.FeeLog.Vesting.{VestingCodec}
use crynux_relay_wallet.FeeLog.Validation.{
  Chain, found, validate_deposit_log, validate_by_token, validate_native_deposit_log,
  is_native_deposit, check_age,
}
use crynux_relay_wallet.FeeLog.Paid.{IsPaid, validate_deposit_log-IsPaid}
use crynux_relay_wallet.FeeLog.Sync.{Round, sync_task_fee_logs}
use crynux_relay_wallet.FeeLog.Followed.{IsFollowed, sync_task_fee_logs-IsFollowed}

abbrev deposit_log : TaskFeeLog
deposit_log = record {
  id = 3;
  created_at = 90;
  address = "0xalice";
  amount = "5";
  type = TaskFeeLogType.deposit;
  payload = "{}";
}

abbrev deposit_codec : DepositCodec
deposit_codec = record {
  unmarshal = λ _. some (record { tx_hash = "0xAB"; network = "eth" });
  decoded_length = λ _. some 32;
  hash_hex = λ s. s;
}

abbrev vesting_codec : VestingCodec
vesting_codec = record {
  unmarshal_vesting = λ _. none;
  unmarshal_release = λ _. none;
  is_hex_address = λ _. true;
  decimal = λ _. "0";
  decode = λ _. none;
  signer_of = λ _ _. none;
}

abbrev eth : BlockchainConfig
eth = record {
  token_type = "native";
  token_address = "";
  account_address = "0xhot";
  gas_limit = 21000;
  gas_limit_buffer_percent = 20;
  max_fee_per_gas = 100;
  max_priority_fee_per_gas = 2;
  max_retries = 2;
  retry_interval = 60;
  receipt_wait_time = 60;
  receipt_confirmation_blocks = 3;
  sent_transaction_count_limit = 5;
  max_withdrawals_per_day = 3;
}

abbrev app : AppConfig
app = record {
  blockchains = ("eth", eth) ∷ [];
  deposit_address = "0xpool";
  withdrawal_fee_address = "0xfee";
  vesting_signer_address = "0xadmin";
  max_task_fee_amount = 10;
  max_address_logs_count_in_batch = 10;
  max_new_address_count_in_batch = 10;
  deposit_max_age_seconds = 10;
  min_withdrawal_amount = 1;
  cancellation_settlement_timeout_seconds = 10;
}

-- The node knows the transaction of the deposit, in a block of the time 95.
abbrev node : Chain
node = record {
  has_client = λ _. true;
  receipt_of = λ _ _. found (record { is_successful = true; block_number = some 7; logs = [] });
  transfer_of =
      λ _ _. found (record { to = some "0xPOOL"; from = "0xAlice"; value = some 5; input = [] });
  block_time = λ _ _. found 95;
  transfer_topic = "0xdd";
  address_topic = λ a. a;
  topic_address = λ t. t;
  zero_address = "0x0";
  set_bytes = λ _. 0;
}

abbrev start : World
start = world_of (db_with [] 1)

validate_deposit_log-IsPaid_example : IsPaid node app 100 deposit_codec deposit_log
unfolding validate_deposit_log parse_int parse_deposit_payload is_blank blockchain_of
    validate_by_token validate_native_deposit_log is_native_deposit equal_fold check_age
validate_deposit_log-IsPaid_example =
    validate_deposit_log-IsPaid node app 100 deposit_codec deposit_log refl

-- The deposit, and then nothing new, while a withdrawal takes 2.
abbrev rounds : List Round
rounds =
    (record { relay = λ _. some (deposit_log ∷ []); meanwhile = λ db. db }
      ∷ record {
        relay = λ _. some [];
        meanwhile = λ db. record db { accounts = record alice { balance = pos 103 } ∷ [] };
      }
      ∷ [])

sync_task_fee_logs-IsFollowed_example :
    IsFollowed deposit_codec vesting_codec app rounds start.db.fee_checkpoint start.db
      (sync_task_fee_logs node deposit_codec vesting_codec app rounds start).1.db
sync_task_fee_logs-IsFollowed_example =
    sync_task_fee_logs-IsFollowed node deposit_codec vesting_codec app rounds start
      (λ db. refl, (λ db. refl, tt))
