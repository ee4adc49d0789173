-- ===== src/Blockchain/GasKept.antt =====
-- Lemmas on blockchain/transaction_sender.go: what is asked before a transaction is signed leaves the
-- table in order.
use crynux_relay_wallet.Base.{ℕ}
use crynux_relay_wallet.Models.Transaction.{BlockchainTransaction}
use crynux_relay_wallet.World.Keeps.{Keeps, keeping}
use crynux_relay_wallet.Int.{ℤ}
use crynux_relay_wallet.World.Keeps.{keeping}
use crynux_relay_wallet.Transactions.Queries.{Transactions}
use crynux_relay_wallet.Transactions.Table.{GrownFrom}
use crynux_relay_wallet.Blockchain.Node.{Node, Codec}
use crynux_relay_wallet.Blockchain.Client.{BlockchainClient}
use crynux_relay_wallet.Blockchain.Gas.{
  validate_hot_wallet_payout_balance, validate_hot_wallet_gas_balance,
  estimate_transaction_gas_limit, suggest_dynamic_fee_caps, build_signed_transaction,
}
use crynux_relay_wallet.Blockchain.Kept.{Keeps-given, Keeps-ask, token_balance_at-Keeps}
use crynux_relay_wallet.Config.{AppConfig}

module _ (old : Transactions) (node : Node) (codec : Codec) (app : AppConfig)
    (client : BlockchainClient) (tx : BlockchainTransaction) where
  payout_balance-Keeps :
      Keeps (GrownFrom old) (validate_hot_wallet_payout_balance node codec app client tx)
  unfolding validate_hot_wallet_payout_balance
  payout_balance-Keeps = search (keeping, Keeps-given, Keeps-ask, token_balance_at-Keeps) depth 14

  gas_balance-Keeps :
      (gas_limit : ℕ) (gas_fee_cap : ℤ)
      → Keeps
          (GrownFrom old)
          (validate_hot_wallet_gas_balance node codec app client tx gas_limit gas_fee_cap)
  unfolding validate_hot_wallet_gas_balance
  gas_balance-Keeps gas_limit gas_fee_cap = search (keeping, Keeps-given, Keeps-ask) depth 14

  gas_limit-Keeps : Keeps (GrownFrom old) (estimate_transaction_gas_limit node codec app client tx)
  unfolding estimate_transaction_gas_limit
  gas_limit-Keeps = search (keeping, Keeps-given, Keeps-ask) depth 14

  fee_caps-Keeps : Keeps (GrownFrom old) (suggest_dynamic_fee_caps node codec app client)
  unfolding suggest_dynamic_fee_caps
  fee_caps-Keeps = search (keeping, Keeps-given, Keeps-ask) depth 14

  pub build_signed-Keeps :
      (nonce : ℕ) → Keeps (GrownFrom old) (build_signed_transaction node codec app client tx nonce)
  unfolding build_signed_transaction
  build_signed-Keeps nonce =
      search
        (
          keeping, Keeps-given, payout_balance-Keeps, gas_limit-Keeps, fee_caps-Keeps,
          gas_balance-Keeps,
        )
        depth 14
