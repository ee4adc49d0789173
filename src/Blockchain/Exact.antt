-- ===== src/Blockchain/Exact.antt =====
-- Lemmas on blockchain/client.go with blockchain/transaction_sender.go: from the amount of a payout to what
-- is signed.
use crynux_relay_wallet.Base.{ℕ, String, ◌≡◌, sym, ap, ◌∙◌, some, arith}
use crynux_relay_wallet.Models.Transaction.{BlockchainTransaction}
use crynux_relay_wallet.World.{World, ok}
use crynux_relay_wallet.Int.{ℤ}
use crynux_relay_wallet.Blockchain.Node.{Node, Codec, DynamicFeeTx, SignedTransaction}
use crynux_relay_wallet.Blockchain.Client.{BlockchainClient}
use crynux_relay_wallet.Blockchain.Gas.{build_signed_transaction}
use crynux_relay_wallet.Blockchain.Signed.{build_signed_transaction-IsSigned}
use crynux_relay_wallet.Blockchain.Payouts.{network_config, new_send_eth_transaction}
use crynux_relay_wallet.FeeLog.Paid.{then_ok-ok}
use crynux_relay_wallet.Config.{AppConfig}
use crynux_relay_wallet.Text.{parse_int}
use crynux_relay_wallet.Text.Print.{print_int, parse_int-print_int}

payout_of :
    (codec : Codec) (app : AppConfig) (to : String) (amount : ℤ) (network : String)
    {tx : BlockchainTransaction}
    → new_send_eth_transaction codec app to amount network ≡ ok tx
    → (tx.value ≡ print_int amount) × (tx.to_address ≡ to)
unfolding new_send_eth_transaction
payout_of codec app to amount network {tx} h =
    let (config, _, made) = then_ok-ok (network_config network app) _ {b = tx} h in ground arith

-- What is signed for a native payout of an amount pays exactly that amount, a whole number of either sign,
-- to the payee, with the given nonce.
pub new_send_eth_transaction-exact :
    (node : Node) (codec : Codec) (app : AppConfig) (client : BlockchainClient) (to : String)
    (amount : ℤ) (network : String) (nonce : ℕ) (w : World) {tx : BlockchainTransaction}
    {signed : SignedTransaction}
    → new_send_eth_transaction codec app to amount network ≡ ok tx
    → (build_signed_transaction node codec app client tx nonce w).0 ≡ ok signed
    → (raw : DynamicFeeTx) × (codec.sign client.network raw ≡ ok signed)
      × (raw.value ≡ amount)
      × (raw.to ≡ codec.address_hex to)
      × (raw.nonce ≡ nonce)
new_send_eth_transaction-exact node codec app client to amount network nonce w {tx} {signed} made
      h =
    let (value, payee) = payout_of codec app to amount network {tx = tx} made in
    let s =
      build_signed_transaction-IsSigned node codec app client tx nonce w {signed = signed} h in
    (
      s.raw,
      s.signs,
      some_eq (sym s.same_value ∙ ap parse_int value ∙ parse_int-print_int amount),
      s.same_payee ∙ ap codec.address_hex payee,
      s.same_nonce,
    )
  where
    some_eq : {a b : ℤ} → some a ≡ some b → a ≡ b
    some_eq e = cc
