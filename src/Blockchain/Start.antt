-- ===== src/Blockchain/Start.antt =====
-- blockchain/client.go and blockchain/transaction_manager.go: the start of the clients and of the manager.
use crynux_relay_wallet.Base.{ℕ, String, Bool, true, List, [], ◌∷◌, if◌then◌else◌}
use crynux_relay_wallet.World.{World, Result, Action, pure, ◌>>=◌, ◌>>◌}
use crynux_relay_wallet.Transactions.Updates.{recover_legacy_sending_transactions}
use crynux_relay_wallet.Blockchain.Node.{Node, Codec, ask}
use crynux_relay_wallet.Blockchain.Client.{
  Clients, init_chain_id, init_nonce, store_nonce, without_nonce, optional_uint64_big_int,
  get_blockchain_client,
}
use crynux_relay_wallet.Blockchain.Payouts.{network_config}
use crynux_relay_wallet.FeeLog.Accounts.{lift}
use crynux_relay_wallet.Config.{BlockchainConfig, AppConfig}

-- `dial` stands for the connection to the endpoint of a network and the instance of its contract, and
-- `chain_id` for the configured chain id of a network.
module _ (node : Node) (codec : Codec) (app : AppConfig) (dial : String → Result (Unit {0}))
    (chain_id : String → ℕ) where
  unfoldable pub init_blockchain_client : String → Clients → Action Clients
  unfolding init_chain_id init_nonce without_nonce optional_uint64_big_int
  init_blockchain_client network clients = do
    config ← lift (network_config network app)
    lift (dial network)
    id ← init_chain_id node codec network (chain_id network)
    nonce ← init_nonce node codec network config.account_address
    store_nonce network nonce
    pure (
        (
          network,
          record {
            network = network;
            chain_id = id;
            gas_limit = config.gas_limit;
            gas_limit_buffer_percent = config.gas_limit_buffer_percent;
            max_fee_per_gas = optional_uint64_big_int config.max_fee_per_gas;
            max_priority_fee_per_gas = optional_uint64_big_int config.max_priority_fee_per_gas;
            address = config.account_address;
            sent_transaction_count_limit = config.sent_transaction_count_limit;
          },
        )
        ∷ clients)

  unfoldable pub init_each : List (String × BlockchainConfig) → Clients → Action Clients
  unfolding init_blockchain_client
  init_each [] clients = pure clients
  init_each ((network, config) ∷ rest) clients = do
    more ← init_blockchain_client network clients
    init_each rest more

  -- `Init`; Go's map has each network once.
  unfoldable pub init : Action Clients
  unfolding init_each
  init = init_each app.blockchains []

-- The manager's `isRunning`; the sender and the confirmer start with it.
unfoldable pub start : Bool → Action Bool
start is_running =
    if is_running then pure true else (do recover_legacy_sending_transactions; pure true)

module _ (node : Node) (clients : Clients) (is_zero : String → Bool)
    (contract : World → String → String → Result String) where
  -- `contract` is the answer of the contract instance, and `is_zero` tests for the zero address.
  unfoldable pub get_benefit_address : String → String → Action String
  unfolding get_blockchain_client
  get_benefit_address node_address network = do
    client ← lift (get_blockchain_client network clients)
    address ← ask node (λ w. contract w client.network node_address)
    pure (if is_zero address then node_address else address)
