-- ===== src/Errors.antt =====
-- The errors of the program, one constructor for each; an error that the source builds from a text
-- on the spot is named after that text.
use crynux_relay_wallet.Base.{ℕ, String}
use crynux_relay_wallet.Int.{ℤ}

pub data Error : Type 0 where
  -- the database and the context
  db_error record_not_found context_done : Error
  -- models/blockchain_transaction.go
  retry_ancestors_unsafe broadcast_payload_incomplete network_not_found : Error
  -- tasks/sync_task_fee_logs.go
  task_fee_amount_too_large task_fee_amount_invalid task_fee_address_count_too_large : Error
  task_fee_new_address_count_too_large task_fee_deposit_payload_invalid : Error
  task_fee_deposit_tx_mismatch task_fee_deposit_tx_hash_duplicate task_fee_deposit_tx_too_old :
      Error
  task_fee_unknown_event_type task_fee_vesting_payload_invalid task_fee_vesting_signer_mismatch :
      Error
  task_fee_vesting_signature_invalid task_fee_vesting_record_not_found : Error
  task_fee_vesting_release_invalid task_fee_withdrawal_fee_address_mismatch : Error
  -- tasks/process_withdrawal_requests.go
  withdrawal_request_amount_invalid withdrawal_request_task_fee_not_enough : Error
  withdrawal_request_transaction_unconfirmed_timeout : Error
  withdrawal_request_daily_limit_exceeded withdrawal_request_network_invalid : Error
  withdrawal_without_transaction relay_error : Error
  withdrawal_request_status_invalid withdrawal_request_address_not_exists : Error
  withdrawal_request_amount_too_large withdrawal_request_amount_too_small : Error
  withdrawal_request_beneficial_address_invalid : Error
  withdrawal_authorization_missing withdrawal_authorization_invalid : Error
  withdrawal_authorization_address_mismatch withdrawal_authorization_replayed : Error
  -- the blockchain clients, and the deposits that they do not find
  blockchain_not_found deposit_transaction_not_found rpc_error : Error
  -- blockchain/: what a node or go-ethereum answers, and the errors of the client and the sender
  node_error : String → Error
  ethereum_not_found receipt_without_block header_unavailable : Error
  from_address_mismatch transaction_value_invalid transfer_data_invalid balance_result_invalid :
      Error
  from_address_invalid to_address_invalid tx_hash_mismatch tx_input_empty : Error
  gas_limit_too_large gas_limit_zero base_fee_missing tx_result_too_short tx_result_not_error :
      Error
  gas_limit_over_cap : ℕ → ℕ → Error
  max_fee_over_cap priority_fee_over_cap : ℤ → ℤ → Error
  native_balance_insufficient erc20_balance_insufficient gas_fee_insufficient :
      String → ℤ → ℤ → Error
  broadcast_payload_missing not_marked_sent : ℕ → Error
