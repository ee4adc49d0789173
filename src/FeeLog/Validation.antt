-- ===== src/FeeLog/Validation.antt =====
-- tasks/sync_task_fee_logs.go: validateDepositLog, validateNativeDepositLog and validateERC20DepositLog.
use crynux_relay_wallet.Base.{
  ℕ, ◌+◌, ◌%◌, ◌^◌, String, Bool, true, false, not, ◌&&◌, Option, none, some, List, [], ◌∷◌, str_eq,
  ltb, ◌==◌, if◌then◌else◌, length, any,
}
use crynux_relay_wallet.Int.{ℤ, pos, eqb_ℤ}
use crynux_relay_wallet.World.{Result, ok, err}
use crynux_relay_wallet.Config.{BlockchainConfig, AppConfig, blockchain_of}
use crynux_relay_wallet.Errors.{
  task_fee_amount_invalid, task_fee_deposit_tx_mismatch, task_fee_deposit_tx_too_old,
  blockchain_not_found, deposit_transaction_not_found, rpc_error,
}
use crynux_relay_wallet.Text.{parse_int, equal_fold}
use crynux_relay_wallet.FeeLog.Types.{TaskFeeLog}
use crynux_relay_wallet.FeeLog.Deposits.{DepositCodec, ◌then_ok◌, parse_deposit_payload}

-- An event in a receipt; a topic is a hash as text, and the data is a list of bytes.
pub record ReceiptLog : Type 0 where
  pub address : String
  pub topics : List String
  pub bytes : List ℕ

pub record Receipt : Type 0 where
  pub is_successful : Bool
  pub block_number : Option ℕ
  pub logs : List ReceiptLog

pub record Transfer : Type 0 where
  pub to : Option String
  pub from : String
  pub value : Option ℕ
  pub input : List ℕ

pub data Answer (A : Type 0) : Type 0 where
  found : A → Answer A
  not_found : Answer A
  failed : Answer A

-- What the validation uses of the blockchain clients and of go-ethereum: the answers of the node of a
-- network on a transaction hash, the time of a block, the topic of the ERC-20 event Transfer, the topic
-- of an address, the address in a topic, the zero address, and the number that bytes stand for.
pub record Chain : Type 0 where
  pub has_client : String → Bool
  pub receipt_of : String → String → Answer Receipt
  pub transfer_of : String → String → Answer Transfer
  pub block_time : String → ℕ → Answer ℕ
  pub transfer_topic : String
  pub address_topic : String → String
  pub topic_address : String → String
  pub zero_address : String
  pub set_bytes : List ℕ → ℕ

abbrev pub answered : {A : Type 0} → Answer A → Result A
answered (found a) = ok a
answered not_found = err deposit_transaction_not_found
answered failed = err rpc_error

-- `require` of the conditions of a deposit.
abbrev pub matching : Bool → Result (Unit {0})
matching true = ok tt
matching false = err task_fee_deposit_tx_mismatch

-- The block of the receipt, and the test of its age.
abbrev pub block_of : Option ℕ → Result ℕ
block_of none = err task_fee_deposit_tx_mismatch
block_of (some n) = ok n

abbrev pub is_number : Option ℕ → ℤ → Bool
is_number none amount = false
is_number (some n) amount = eqb_ℤ (pos n) amount

abbrev pub is_address : Option String → String → Bool
is_address none address = false
is_address (some a) address = equal_fold a address

abbrev pub is_nil : List ℕ → Bool
is_nil [] = true
is_nil (_ ∷ _) = false

module _ (chain : Chain) (app : AppConfig) (now : ℕ) where
  -- A header that is not found is an error of the node like any other.
  abbrev pub header_time : Answer ℕ → Result ℕ
  header_time (found t) = ok t
  header_time _ = err rpc_error

  -- `header.Time+maxAgeSeconds` is a sum of `uint64`.
  unfoldable pub check_age : String → Receipt → Result (Unit {0})
  check_age network receipt = block_of receipt.block_number then_ok λ block.
      header_time (chain.block_time network block) then_ok λ time.
      if ltb ((time + app.deposit_max_age_seconds) % 2 ^ 64) now
      then err task_fee_deposit_tx_too_old
      else ok tt

  unfoldable pub is_native_deposit : TaskFeeLog → ℤ → Transfer → Bool
  is_native_deposit log amount transfer =
      is_address transfer.to app.deposit_address
      && equal_fold transfer.from log.address
      && is_number transfer.value amount
      && is_nil transfer.input

  unfoldable pub validate_native_deposit_log :
      String → Receipt → String → TaskFeeLog → ℤ → Result (Unit {0})
  unfolding is_native_deposit check_age
  validate_native_deposit_log network receipt tx_hash log amount =
      answered (chain.transfer_of network tx_hash) then_ok λ transfer.
      matching (is_native_deposit log amount transfer) then_ok λ _. check_age network receipt

  -- The event is a transfer of the token from the address of the log to the deposit address.
  abbrev pub has_topics : TaskFeeLog → List String → Bool
  has_topics log (event ∷ from ∷ to ∷ []) =
      str_eq event chain.transfer_topic
      && str_eq to (chain.address_topic app.deposit_address)
      && not (str_eq (chain.topic_address from) chain.zero_address)
      && equal_fold (chain.topic_address from) log.address
  has_topics log _ = false

  unfoldable pub is_erc20_deposit : String → TaskFeeLog → ℤ → ReceiptLog → Bool
  is_erc20_deposit token_address log amount event =
      has_topics log event.topics
      && equal_fold event.address token_address
      && length event.bytes == 32
      && eqb_ℤ (pos (chain.set_bytes event.bytes)) amount

  -- The loop: the first event that fits decides.
  unfoldable pub validate_erc20_deposit_log :
      String → Receipt → TaskFeeLog → ℤ → String → Result (Unit {0})
  unfolding is_erc20_deposit check_age
  validate_erc20_deposit_log network receipt log amount token_address =
      if any (is_erc20_deposit token_address log amount) receipt.logs
      then check_age network receipt
      else err task_fee_deposit_tx_mismatch

  abbrev pub number_of : Option ℤ → Result ℤ
  number_of none = err task_fee_amount_invalid
  number_of (some n) = ok n

  abbrev pub configured : Option BlockchainConfig → Result BlockchainConfig
  configured none = err blockchain_not_found
  configured (some c) = ok c

  unfoldable pub validate_by_token :
      String → Receipt → String → TaskFeeLog → ℤ → BlockchainConfig → Result (Unit {0})
  unfolding validate_native_deposit_log validate_erc20_deposit_log
  validate_by_token network receipt tx_hash log amount config =
      if str_eq config.token_type "native"
      then validate_native_deposit_log network receipt tx_hash log amount
      else if str_eq config.token_type "erc20"
      then validate_erc20_deposit_log network receipt log amount config.token_address
      else err blockchain_not_found

  unfoldable pub validate_deposit_log : DepositCodec → TaskFeeLog → Result (Unit {0})
  unfolding parse_deposit_payload validate_by_token blockchain_of
  validate_deposit_log codec log = number_of (parse_int log.amount) then_ok λ amount.
      parse_deposit_payload codec log then_ok λ payload.
      (if chain.has_client payload.network then ok tt else err blockchain_not_found) then_ok λ _.
      answered (chain.receipt_of payload.network (codec.hash_hex payload.tx_hash))
      then_ok λ receipt. matching receipt.is_successful then_ok λ _.
          configured (blockchain_of payload.network app.blockchains) then_ok λ config.
          validate_by_token payload.network receipt (codec.hash_hex payload.tx_hash) log amount
            config
