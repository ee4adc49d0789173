-- ===== src/Blockchain/Client.antt =====
-- blockchain/client.go: the clients, their nonces, and the requests of one payout to a node.
use crynux_relay_wallet.Base.{
  ℕ, ◌+◌, ◌%◌, ◌^◌, String, Bool, not, ◌&&◌, ◌||◌, Option, none, some, List, [], ◌∷◌, str_eq, ltb,
  ◌==◌, if◌then◌else◌,
}
use crynux_relay_wallet.Models.Transaction.{BlockchainTransaction}
use crynux_relay_wallet.World.{
  broadcast, Result, ok, err, Action, pure, raise, gets, ◌>>=◌, ◌>>◌, done,
}
use crynux_relay_wallet.Int.{ℤ, pos, ◌-ℤ◌}
use crynux_relay_wallet.Blockchain.Node.{
  Node, Codec, ask, unsigned_of, RawTransactionTransfer, TransactionTransfer, CallMsg,
  SignedTransaction, AbiValue, big_int_value,
}
use crynux_relay_wallet.FeeLog.Accounts.{lift}
use crynux_relay_wallet.FeeLog.Deposits.{◌then_ok◌}
use crynux_relay_wallet.Withdraw.Chains.{send}
use crynux_relay_wallet.Errors.{
  Error, blockchain_not_found, ethereum_not_found, balance_result_invalid, tx_input_empty,
  tx_hash_mismatch, transaction_value_invalid, from_address_invalid, to_address_invalid,
  tx_result_not_error, tx_result_too_short,
}
use crynux_relay_wallet.Text.{parse_int, contains, to_lower}

pub record BlockchainClient : Type 0 where
  pub network : String
  pub chain_id : ℕ
  pub gas_limit : ℕ
  pub gas_limit_buffer_percent : ℕ
  pub max_fee_per_gas : Option ℤ
  pub max_priority_fee_per_gas : Option ℤ
  pub address : String
  pub sent_transaction_count_limit : ℕ

abbrev pub Clients : Type 0
Clients = List (String × BlockchainClient)

unfoldable pub get_blockchain_client : String → Clients → Result BlockchainClient
get_blockchain_client network [] = err blockchain_not_found
get_blockchain_client network ((name, c) ∷ rest) =
    let found = get_blockchain_client network rest in if str_eq name network then ok c else found

-- The nonce of the client of a network, if it has one.
unfoldable pub nonce_at : String → List (String × ℕ) → Option ℕ
nonce_at network [] = none
nonce_at network ((name, n) ∷ rest) =
    let found = nonce_at network rest in if str_eq name network then some n else found

unfoldable pub without_nonce : String → List (String × ℕ) → List (String × ℕ)
without_nonce network [] = []
without_nonce network ((name, n) ∷ rest) =
    let others = without_nonce network rest in
    if str_eq name network then others else (name, n) ∷ others

-- `client.Nonce = &nonce` and `client.Nonce = nil`.
abbrev pub store_nonce : String → ℕ → Action (Unit {0})
store_nonce network n w =
    (ok tt, record w { nonces = (network, n) ∷ without_nonce network w.nonces })

unfoldable pub forget_nonce : String → Action (Unit {0})
unfolding without_nonce
forget_nonce network w = (ok tt, record w { nonces = without_nonce network w.nonces })

-- The new nonce of AdvanceNoncePast: it never goes back.
unfoldable pub advanced : Option ℕ → ℕ → ℕ
advanced none next = next
advanced (some n) next = if ltb n next then next else n

unfoldable pub advance_nonce_past : String → ℤ → Action (Unit {0})
unfolding nonce_at advanced without_nonce
advance_nonce_past network nonce w =
    store_nonce network (advanced (nonce_at network w.nonces) ((unsigned_of nonce + 1) % 2 ^ 64)) w

unfoldable pub optional_uint64_big_int : ℕ → Option ℤ
optional_uint64_big_int value = if value == 0 then none else some (pos value)

-- The pattern [Nn]once.
unfoldable pub match_nonce_error : String → Bool
unfolding contains
match_nonce_error text = contains text "Nonce" || contains text "nonce"

unfoldable pub is_already_known_transaction_error : String → Bool
unfolding contains to_lower
is_already_known_transaction_error text =
    contains (to_lower text) "already known"
    || contains (to_lower text) "known transaction"
    || contains (to_lower text) "already imported"

module _ (node : Node) (codec : Codec) where
  unfoldable pub init_chain_id : String → ℕ → Action ℕ
  init_chain_id network configured =
      if ltb 0 configured then pure configured else ask node (λ w. node.chain_id_of w network)

  unfoldable pub init_nonce : String → String → Action ℕ
  init_nonce network address = ask node (λ w. node.pending_nonce_at w network address)

  unfoldable pub get_nonce : BlockchainClient → Action ℕ
  unfolding init_nonce nonce_at without_nonce
  get_nonce client = do
    known ← gets (λ w. nonce_at client.network w.nonces)
    elim known [
      | some n ↦ pure n
      | none ↦ (do
        n ← init_nonce client.network client.address
        store_nonce client.network n
        pure n)
    ]

  unfoldable pub process_sending_tx_error : BlockchainClient → Error → Action (Unit {0})
  unfolding match_nonce_error forget_nonce
  process_sending_tx_error client e =
      if match_nonce_error (codec.error_text e) then forget_nonce client.network else done

  -- `RpcClient.SendTransaction`: the payload is out, whatever the node answers.
  unfoldable pub submit : String → String → SignedTransaction → Action (Result (Unit {0}))
  submit network raw signed w =
      ask node (λ w. ok (node.submit w network signed)) (send (broadcast network raw) w)

  unfoldable pub send_signed_raw_transaction : BlockchainClient → String → Action SignedTransaction
  unfolding process_sending_tx_error submit
  send_signed_raw_transaction client raw = do
    bytes ← lift (codec.decode_hex raw)
    signed ← lift (codec.unmarshal bytes)
    ask node (λ w. node.wait w client.network)
    answer ← submit client.network raw signed
    elim answer [ ok _ ↦ pure signed | err e ↦ (process_sending_tx_error client e >> raise e) ]

  unfoldable pub encode_signed_raw_transaction : SignedTransaction → Result String
  encode_signed_raw_transaction signed =
      codec.marshal signed then_ok λ bytes. ok (codec.encode_hex bytes)

  abbrev pub the_big_int : List AbiValue → Result ℤ
  the_big_int (big_int_value n ∷ []) = ok n
  the_big_int _ = err balance_result_invalid

  unfoldable pub token_balance_at : BlockchainClient → String → String → Action ℤ
  token_balance_at client token address = do
    bytes ← lift (codec.pack_balance_of address)
    ask node (λ w. node.wait w client.network)
    result ← ask node (λ w.
        node.call_contract w client.network
          (record { from = none; to = token; value = pos 0; call_data = bytes }) none)
    values ← lift (codec.unpack_balance_of result)
    lift (the_big_int values)

  abbrev pub require_ok : Bool → Error → Result (Unit {0})
  require_ok holds e = if holds then ok tt else err e

  unfoldable pub parse_transaction_input : String → String → Result (List ℕ)
  parse_transaction_input input call_data =
      let chosen = if str_eq input "" then call_data else input in
      if str_eq chosen "" then err tx_input_empty else codec.decode_hex chosen

  unfoldable pub parse_raw_transaction_transfer :
      Option RawTransactionTransfer → String → Result TransactionTransfer
  unfolding parse_transaction_input
  parse_raw_transaction_transfer none expected = err ethereum_not_found
  parse_raw_transaction_transfer (some raw) expected =
      require_ok (not (str_eq raw.hash "") && str_eq (codec.hash_hex raw.hash) expected)
        tx_hash_mismatch
      then_ok λ _. require_ok (codec.is_hex_address raw.from) from_address_invalid then_ok λ _.
          require_ok (codec.is_hex_address raw.to) to_address_invalid then_ok λ _.
          codec.decode_big raw.value then_ok λ value.
          parse_transaction_input raw.input raw.call_data then_ok λ input. ok (record {
            hash = codec.hash_hex raw.hash;
            from = codec.address_hex raw.from;
            to = some (codec.address_hex raw.to);
            value = value;
            input = input;
          })

  unfoldable pub get_transaction_transfer : BlockchainClient → String → Action TransactionTransfer
  unfolding parse_raw_transaction_transfer
  get_transaction_transfer client tx_hash = do
    raw ← ask node (λ w. node.raw_transfer_of w client.network tx_hash)
    lift (parse_raw_transaction_transfer raw tx_hash)

  abbrev pub number_of_value : Option ℤ → Result ℤ
  number_of_value none = err transaction_value_invalid
  number_of_value (some n) = ok n

  unfoldable pub parse_transaction_data : Option String → Result (List ℕ)
  parse_transaction_data none = ok []
  parse_transaction_data (some text) = if str_eq text "" then ok [] else codec.decode_hex text

  unfoldable pub build_call_msg_from_transaction : BlockchainTransaction → Result CallMsg
  unfolding parse_transaction_data
  build_call_msg_from_transaction tx = number_of_value (parse_int tx.value) then_ok λ value.
      parse_transaction_data tx.call_data then_ok λ bytes.
      require_ok (codec.is_hex_address tx.from_address) from_address_invalid then_ok λ _.
      require_ok (codec.is_hex_address tx.to_address) to_address_invalid then_ok λ _. ok (record {
        from = some (codec.address_hex tx.from_address);
        to = codec.address_hex tx.to_address;
        value = value;
        call_data = bytes;
      })

  -- The first four bytes are the identifier of Error(string), and the text follows.
  unfoldable pub unpack_error : List ℕ → Result String
  unpack_error (a ∷ b ∷ c ∷ d ∷ rest) =
      if a == 0x08 && b == 0xc3 && c == 0x79 && d == 0xa0
      then codec.unpack_string rest
      else err tx_result_not_error
  unpack_error _ = err tx_result_too_short

  unfoldable pub get_error_message_from_transaction :
      BlockchainClient → BlockchainTransaction → ℕ → Action String
  unfolding build_call_msg_from_transaction unpack_error
  get_error_message_from_transaction client tx block = do
    msg ← lift (build_call_msg_from_transaction tx)
    result ← ask node (λ w. node.call_contract w client.network msg (some (pos block -ℤ pos 1)))
    lift (unpack_error result)
