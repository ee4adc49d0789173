-- ===== src/Config.antt =====
-- config/app_config.go: the settings that the modelled tasks read.
use crynux_relay_wallet.Base.{ℕ, String, Option, none, some, List, [], ◌∷◌, str_eq, if◌then◌else◌}

pub record BlockchainConfig : Type 0 where
  pub token_type : String
  pub token_address : String
  pub account_address : String
  pub gas_limit : ℕ
  pub gas_limit_buffer_percent : ℕ
  pub max_fee_per_gas : ℕ
  pub max_priority_fee_per_gas : ℕ
  pub max_retries : ℕ
  pub retry_interval : ℕ
  pub receipt_wait_time : ℕ
  pub receipt_confirmation_blocks : ℕ
  pub sent_transaction_count_limit : ℕ
  pub max_withdrawals_per_day : ℕ

pub record AppConfig : Type 0 where
  pub blockchains : List (String × BlockchainConfig)
  pub deposit_address : String
  pub withdrawal_fee_address : String
  pub vesting_signer_address : String
  pub max_task_fee_amount : ℕ
  pub max_address_logs_count_in_batch : ℕ
  pub max_new_address_count_in_batch : ℕ
  pub deposit_max_age_seconds : ℕ
  pub min_withdrawal_amount : ℕ
  pub cancellation_settlement_timeout_seconds : ℕ

-- `Blockchains[network]`.
unfoldable pub blockchain_of : String → List (String × BlockchainConfig) → Option BlockchainConfig
blockchain_of network [] = none
blockchain_of network ((name, c) ∷ rest) =
    let found = blockchain_of network rest in if str_eq name network then some c else found
