-- ===== src/Blockchain/Payouts.antt =====
-- blockchain/client.go: the rows of payouts, and the clients at the start.
use crynux_relay_wallet.Base.{ℕ, String, Option, none, some}
use crynux_relay_wallet.Models.Transaction.{TransactionStatus, BlockchainTransaction}
use crynux_relay_wallet.World.{Result, ok, err, Action, ◌>>=◌}
use crynux_relay_wallet.Int.{ℤ}
use crynux_relay_wallet.Blockchain.Node.{Codec}
use crynux_relay_wallet.Transactions.Updates.{insert_transaction}
use crynux_relay_wallet.FeeLog.Accounts.{lift}
use crynux_relay_wallet.FeeLog.Deposits.{◌then_ok◌}
use crynux_relay_wallet.Config.{BlockchainConfig, AppConfig, blockchain_of}
use crynux_relay_wallet.Text.Print.{print_int}
use crynux_relay_wallet.Errors.{blockchain_not_found}

-- `big.Int.String()`, which is package math/big's.
abbrev new_payout :
    String → String → String → String → String → Option String → ℕ → BlockchainTransaction
new_payout network type from to value call_data max_retries = record {
  id = 0;
  network = network;
  type = type;
  status = TransactionStatus.pending;
  from_address = from;
  to_address = to;
  value = value;
  call_data = call_data;
  tx_hash = none;
  block_number = none;
  nonce = none;
  gas_used = none;
  effective_gas_price = none;
  status_message = none;
  retry_count = 0;
  max_retries = max_retries;
  retry_transaction_id = none;
  next_retry_at = none;
  sent_at = none;
  confirmed_at = none;
  failed_at = none;
  cancellation_requested_at = none;
  signed_raw_tx = none;
}

abbrev pub network_config : String → AppConfig → Result BlockchainConfig
network_config network app = elim (blockchain_of network app.blockchains) [
  | none ↦ err blockchain_not_found
  | some c ↦ ok c
]

module _ (codec : Codec) (app : AppConfig) where
  unfoldable pub new_send_eth_transaction : String → ℤ → String → Result BlockchainTransaction
  unfolding print_int
  new_send_eth_transaction to amount network = network_config network app then_ok λ config. ok (
      new_payout network "SendETH" config.account_address to (print_int amount) none
        config.max_retries)

  unfoldable pub new_send_erc20_transaction :
      String → String → ℤ → String → Result BlockchainTransaction
  new_send_erc20_transaction token to amount network = network_config network app then_ok λ config.
      codec.pack_transfer to amount then_ok λ bytes. ok (
        new_payout network "ERC20::transfer" config.account_address token "0"
          (some (codec.encode_hex bytes)) config.max_retries)

  unfoldable pub queue_send_eth : String → ℤ → String → Action BlockchainTransaction
  unfolding new_send_eth_transaction
  queue_send_eth to amount network = do
    transaction ← lift (new_send_eth_transaction to amount network)
    insert_transaction transaction

  unfoldable pub queue_send_erc20 : String → String → ℤ → String → Action BlockchainTransaction
  unfolding new_send_erc20_transaction
  queue_send_erc20 token to amount network = do
    transaction ← lift (new_send_erc20_transaction token to amount network)
    insert_transaction transaction
