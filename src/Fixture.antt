-- ===== src/Fixture.antt =====
-- A small database for the tests.
use crynux_relay_wallet.Base.{ℕ, none, some, List, [], ◌∷◌}
use crynux_relay_wallet.Models.Transaction.{TransactionStatus, BlockchainTransaction}
use crynux_relay_wallet.Models.Records.{RelayAccount}
use crynux_relay_wallet.World.{Db, World}
use crynux_relay_wallet.Config.{BlockchainConfig, AppConfig}
use crynux_relay_wallet.Int.{pos}

-- A pending payout of 5 on "eth".
abbrev pub payout : BlockchainTransaction
payout = record {
  id = 1;
  network = "eth";
  type = "SendETH";
  status = TransactionStatus.pending;
  from_address = "0xhot";
  to_address = "0xalice";
  value = "5";
  call_data = none;
  tx_hash = none;
  block_number = none;
  nonce = none;
  gas_used = none;
  effective_gas_price = none;
  status_message = none;
  retry_count = 0;
  max_retries = 2;
  retry_transaction_id = none;
  next_retry_at = none;
  sent_at = none;
  confirmed_at = none;
  failed_at = none;
  cancellation_requested_at = none;
  signed_raw_tx = none;
}

-- It has failed on chain, in block 7.
abbrev pub failed_payout : BlockchainTransaction
failed_payout = record payout {
  status = TransactionStatus.failed;
  tx_hash = some "0xaa";
  signed_raw_tx = some "0x01";
  nonce = some (pos 3);
  block_number = some (pos 7);
  sent_at = some 40;
  failed_at = some 50;
  status_message = some "out of gas";
}

-- Its retry.
abbrev pub retry_payout : BlockchainTransaction
retry_payout = record payout { id = 2; retry_count = 1; retry_transaction_id = some 1 }

-- The retry, taken by the sender.
abbrev pub sending_payout : BlockchainTransaction
sending_payout = record retry_payout { status = TransactionStatus.sending }

abbrev pub alice : RelayAccount
alice = record { address = "0xalice"; balance = pos 100 }

abbrev pub db_with : List BlockchainTransaction → ℕ → Db
db_with rows next = record {
  transactions = rows;
  next_transaction_id = next;
  withdraw_records = [];
  next_record_id = 1;
  accounts = alice ∷ [];
  deposits = [];
  vestings = [];
  fee_checkpoint = record { latest_task_fee_log_id = 0; latest_task_fee_log_timestamp = 0 };
  request_checkpoint = record {
    latest_withdrawal_request_id = 0;
    latest_withdrawal_request_timestamp = 0;
  };
}

-- At time 100, with a database that answers.
abbrev pub world_of : Db → World
world_of db = record { db = db; clock = 100; faults = []; others = []; sent = []; nonces = [] }

-- A network for native payouts, and the settings.
abbrev pub eth : BlockchainConfig
eth = record {
  token_type = "native";
  token_address = "";
  account_address = "0xhot";
  gas_limit = 100000;
  gas_limit_buffer_percent = 20;
  max_fee_per_gas = 100;
  max_priority_fee_per_gas = 10;
  max_retries = 2;
  retry_interval = 60;
  receipt_wait_time = 30;
  receipt_confirmation_blocks = 2;
  sent_transaction_count_limit = 4;
  max_withdrawals_per_day = 2;
}

abbrev pub settings : AppConfig
settings = record {
  blockchains = ("eth", eth) ∷ [];
  deposit_address = "0xdeposit";
  withdrawal_fee_address = "0xfee";
  vesting_signer_address = "0xsigner";
  max_task_fee_amount = 1000;
  max_address_logs_count_in_batch = 10;
  max_new_address_count_in_batch = 10;
  deposit_max_age_seconds = 100;
  min_withdrawal_amount = 1;
  cancellation_settlement_timeout_seconds = 60;
}
