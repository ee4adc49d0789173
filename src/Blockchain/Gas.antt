-- ===== src/Blockchain/Gas.antt =====
-- blockchain/transaction_sender.go: the gas limit, the fee caps, the hot wallet's balance, and the
-- transaction that is signed.
use crynux_relay_wallet.Base.{
  ℕ, suc, ◌+◌, ◌*◌, ◌/◌, ◌%◌, ◌^◌, ◌&&◌, Option, none, some, List, [], ◌∷◌, str_eq, ltb, ◌==◌,
  if◌then◌else◌,
}
use crynux_relay_wallet.Models.Transaction.{BlockchainTransaction}
use crynux_relay_wallet.World.{Result, ok, err, Action, pure, raise, ◌>>=◌, ◌>>◌, done}
use crynux_relay_wallet.Int.{ℤ, pos, negsuc, ◌+ℤ◌, ◌-ℤ◌, ltb_ℤ}
use crynux_relay_wallet.Blockchain.Node.{
  Node, Codec, ask, DynamicFeeTx, SignedTransaction, AbiValue, big_int_value,
}
use crynux_relay_wallet.Blockchain.Client.{
  BlockchainClient, Clients, get_blockchain_client, token_balance_at, require_ok, number_of_value,
  parse_transaction_data, build_call_msg_from_transaction,
}
use crynux_relay_wallet.Blockchain.Payouts.{network_config}
use crynux_relay_wallet.FeeLog.Accounts.{lift}
use crynux_relay_wallet.FeeLog.Deposits.{◌then_ok◌}
use crynux_relay_wallet.Config.{BlockchainConfig, AppConfig}
use crynux_relay_wallet.Errors.{
  Error, blockchain_not_found, gas_limit_too_large, gas_limit_zero, gas_limit_over_cap,
  base_fee_missing, max_fee_over_cap, priority_fee_over_cap, native_balance_insufficient,
  erc20_balance_insufficient, gas_fee_insufficient, to_address_invalid, transfer_data_invalid,
  from_address_mismatch,
}
use crynux_relay_wallet.Text.{parse_int}

-- `math.MaxUint64`.
abbrev pub max_uint64 : ℕ
max_uint64 = 18446744073709551615

unfoldable pub add_gas_limit_buffer : ℕ → ℕ → Result ℕ
add_gas_limit_buffer estimated_gas buffer_percent =
    let factor = (100 + buffer_percent) % 2 ^ 64 in
    if ltb (max_uint64 / factor) estimated_gas
    then err gas_limit_too_large
    else let gas_limit = estimated_gas * factor % 2 ^ 64 / 100 in
      if gas_limit == 0 then err gas_limit_zero else ok gas_limit

-- The test of `cap != nil && n.Cmp(cap) > 0`.
abbrev pub over_error : (ℤ → ℤ → Error) → Option ℤ → ℤ → Result (Unit {0})
over_error e none n = ok tt
over_error e (some cap) n = if ltb_ℤ cap n then err (e n cap) else ok tt

unfoldable pub validate_dynamic_fee_caps : ℤ → ℤ → Option ℤ → Option ℤ → Result (Unit {0})
validate_dynamic_fee_caps gas_fee_cap gas_tip_cap max_fee max_priority_fee =
    over_error max_fee_over_cap max_fee gas_fee_cap then_ok λ _.
    over_error priority_fee_over_cap max_priority_fee gas_tip_cap

-- The prefix of a list, and the rest behind it.
abbrev pub after_prefix : List ℕ → List ℕ → Option (List ℕ)
after_prefix [] bytes = some bytes
after_prefix (p ∷ ps) [] = none
after_prefix (p ∷ ps) (b ∷ bytes) =
    let rest = after_prefix ps bytes in if p == b then rest else none

-- The product of a natural number and an integer.
abbrev pub times : ℕ → ℤ → ℤ
times n (pos m) = pos (n * m)
times n (negsuc m) = pos 0 -ℤ pos (n * suc m)

module _ (node : Node) (codec : Codec) (app : AppConfig) where
  abbrev pub the_amount : List AbiValue → Result ℤ
  the_amount (_ ∷ big_int_value n ∷ []) = ok n
  the_amount _ = err transfer_data_invalid

  abbrev pub transfer_arguments : Option (List ℕ) → Result (List ℕ)
  transfer_arguments none = err transfer_data_invalid
  transfer_arguments (some bytes) = ok bytes

  unfoldable pub parse_erc20_transfer_amount : BlockchainTransaction → Result ℤ
  unfolding parse_transaction_data
  parse_erc20_transfer_amount tx = parse_transaction_data node codec tx.call_data then_ok λ bytes.
      transfer_arguments (after_prefix codec.transfer_id bytes) then_ok λ rest.
      codec.unpack_transfer rest then_ok the_amount

  unfoldable pub validate_hot_wallet_payout_balance :
      BlockchainClient → BlockchainTransaction → Action (Unit {0})
  unfolding parse_erc20_transfer_amount token_balance_at
  validate_hot_wallet_payout_balance client tx = do
    config ← lift (network_config tx.network app)
    if str_eq config.token_type "native"
        then (do
          value ← lift (number_of_value node codec (parse_int tx.value))
          balance ←
              ask node (λ w. node.balance_at w client.network (codec.address_hex client.address))
          if ltb_ℤ balance value
              then raise (native_balance_insufficient tx.network balance value)
              else done)
        else if str_eq config.token_type "erc20"
        then (do
          amount ← lift (parse_erc20_transfer_amount tx)
          balance ←
              token_balance_at node codec client (codec.address_hex config.token_address)
                (codec.address_hex client.address)
          if ltb_ℤ balance amount
              then raise (erc20_balance_insufficient tx.network balance amount)
              else done)
        else raise blockchain_not_found

  -- What the gas costs at most, with the value that a native payout moves.
  unfoldable pub required_for_gas : BlockchainConfig → BlockchainTransaction → ℕ → ℤ → Result ℤ
  required_for_gas config tx gas_limit gas_fee_cap =
      if str_eq config.token_type "native"
      then (number_of_value node codec (parse_int tx.value) then_ok λ value.
          ok (times gas_limit gas_fee_cap +ℤ value))
      else ok (times gas_limit gas_fee_cap)

  unfoldable pub validate_hot_wallet_gas_balance :
      BlockchainClient → BlockchainTransaction → ℕ → ℤ → Action (Unit {0})
  unfolding required_for_gas
  validate_hot_wallet_gas_balance client tx gas_limit gas_fee_cap = do
    config ← lift (network_config tx.network app)
    needed ← lift (required_for_gas config tx gas_limit gas_fee_cap)
    balance ← ask node (λ w. node.balance_at w client.network (codec.address_hex client.address))
    if ltb_ℤ balance needed then raise (gas_fee_insufficient tx.network balance needed) else done

  unfoldable pub estimate_transaction_gas_limit :
      BlockchainClient → BlockchainTransaction → Action ℕ
  unfolding build_call_msg_from_transaction add_gas_limit_buffer
  estimate_transaction_gas_limit client tx = do
    msg ← lift (build_call_msg_from_transaction node codec tx)
    ask node (λ w. node.wait w client.network)
    estimated ← ask node (λ w. node.estimate_gas w client.network msg)
    gas_limit ← lift (add_gas_limit_buffer estimated client.gas_limit_buffer_percent)
    if ltb 0 client.gas_limit && ltb client.gas_limit gas_limit
        then raise (gas_limit_over_cap gas_limit client.gas_limit)
        else pure gas_limit

  abbrev pub base_fee_of : Option ℤ → Result ℤ
  base_fee_of none = err base_fee_missing
  base_fee_of (some n) = ok n

  -- The fee cap, twice the base fee and the tip, and the tip cap.
  unfoldable pub suggest_dynamic_fee_caps : BlockchainClient → Action (ℤ × ℤ)
  unfolding validate_dynamic_fee_caps
  suggest_dynamic_fee_caps client = do
    ask node (λ w. node.wait w client.network)
    header ← ask node (λ w. node.latest_header w client.network)
    base_fee ← lift (base_fee_of header.base_fee)
    ask node (λ w. node.wait w client.network)
    gas_tip_cap ← ask node (λ w. node.suggest_gas_tip_cap w client.network)
    let gas_fee_cap = base_fee +ℤ base_fee +ℤ gas_tip_cap
    lift (
        validate_dynamic_fee_caps gas_fee_cap gas_tip_cap client.max_fee_per_gas
          client.max_priority_fee_per_gas)
    pure (gas_fee_cap, gas_tip_cap)

  unfoldable pub validate_transaction_fee_caps : Clients → BlockchainTransaction → Action (Unit {0})
  unfolding estimate_transaction_gas_limit suggest_dynamic_fee_caps get_blockchain_client
  validate_transaction_fee_caps clients tx = do
    client ← lift (get_blockchain_client tx.network clients)
    estimate_transaction_gas_limit client tx >>= λ _. done
    suggest_dynamic_fee_caps client >>= λ _. done

  unfoldable pub build_dynamic_fee_transaction :
      BlockchainTransaction → ℕ → ℕ → ℤ → ℤ → ℕ → Result DynamicFeeTx
  unfolding parse_transaction_data
  build_dynamic_fee_transaction tx nonce gas_limit gas_fee_cap gas_tip_cap chain_id =
      number_of_value node codec (parse_int tx.value) then_ok λ value.
      require_ok node codec (codec.is_hex_address tx.to_address) to_address_invalid then_ok λ _.
      parse_transaction_data node codec tx.call_data then_ok λ bytes. ok (record {
        chain_id = chain_id;
        nonce = nonce;
        gas_tip_cap = gas_tip_cap;
        gas_fee_cap = gas_fee_cap;
        gas = gas_limit;
        to = codec.address_hex tx.to_address;
        value = value;
        call_data = bytes;
      })

  unfoldable pub build_signed_transaction :
      BlockchainClient → BlockchainTransaction → ℕ → Action SignedTransaction
  unfolding validate_hot_wallet_payout_balance estimate_transaction_gas_limit
      suggest_dynamic_fee_caps validate_hot_wallet_gas_balance build_dynamic_fee_transaction
  build_signed_transaction client tx nonce = do
    if str_eq tx.from_address client.address then done else raise from_address_mismatch
    validate_hot_wallet_payout_balance client tx
    gas_limit ← estimate_transaction_gas_limit client tx
    caps ← suggest_dynamic_fee_caps client
    validate_hot_wallet_gas_balance client tx gas_limit caps.0
    raw ← lift (build_dynamic_fee_transaction tx nonce gas_limit caps.0 caps.1 client.chain_id)
    lift (codec.sign client.network raw)
