-- ===== src/Transactions/Invariant.antt =====
-- What every row of the table satisfies, and how a row may change over its life.
use crynux_relay_wallet.Base.{ℕ, ◌≤◌, ◌≡◌, true, none, arith, is_some}
use crynux_relay_wallet.Models.Transaction.{TransactionStatus, BlockchainTransaction}

-- The row carries the signed payload of a broadcast, or nothing of one.
abbrev pub HasPayload : BlockchainTransaction → Type 0
HasPayload r =
    (is_some r.tx_hash ≡ true) × (is_some r.signed_raw_tx ≡ true) × (is_some r.nonce ≡ true)

abbrev pub HasNoPayload : BlockchainTransaction → Type 0
HasNoPayload r = (r.tx_hash ≡ none) × (r.signed_raw_tx ≡ none)

-- What a status says of the other columns.
abbrev pub Agrees : TransactionStatus → BlockchainTransaction → Type 0
Agrees TransactionStatus.pending r = HasNoPayload r
Agrees TransactionStatus.sending r = HasNoPayload r
Agrees TransactionStatus.cancelled r =
    HasNoPayload r × (is_some r.cancellation_requested_at ≡ true) × (is_some r.failed_at ≡ true)
Agrees TransactionStatus.broadcasting r = HasPayload r × (r.cancellation_requested_at ≡ none)
Agrees TransactionStatus.sent r =
    HasPayload r × (r.cancellation_requested_at ≡ none) × (is_some r.sent_at ≡ true)
Agrees TransactionStatus.confirmed r =
    HasPayload r
    × (r.cancellation_requested_at ≡ none)
    × (is_some r.confirmed_at ≡ true)
    × (is_some r.block_number ≡ true)
Agrees TransactionStatus.failed r =
    HasPayload r
    × (r.cancellation_requested_at ≡ none)
    × (is_some r.failed_at ≡ true)
    × (is_some r.block_number ≡ true)

pub record IsConsistent (r : BlockchainTransaction) : Type 0 where
  pub agrees : Agrees r.status r

-- How far a row has come: not broadcast, broadcast, acknowledged, settled.
abbrev pub phase : TransactionStatus → ℕ
phase TransactionStatus.pending = 0
phase TransactionStatus.sending = 0
phase TransactionStatus.broadcasting = 1
phase TransactionStatus.sent = 2
phase TransactionStatus.confirmed = 3
phase TransactionStatus.failed = 3
phase TransactionStatus.cancelled = 3

-- The row `r'` is a later state of the row `r`.
pub record Evolves (r r' : BlockchainTransaction) : Type 0 where
  pub same_id : r'.id ≡ r.id
  pub same_root : r'.retry_transaction_id ≡ r.retry_transaction_id
  pub same_network : r'.network ≡ r.network
  pub same_to_address : r'.to_address ≡ r.to_address
  pub same_value : r'.value ≡ r.value
  pub same_call_data : r'.call_data ≡ r.call_data
  pub same_retry_count : r'.retry_count ≡ r.retry_count
  pub same_max_retries : r'.max_retries ≡ r.max_retries
  pub onward : phase r.status ≤ phase r'.status
  pub settled : phase r.status ≡ 3 → r'.status ≡ r.status
  pub hash_kept : is_some r.tx_hash ≡ true → r'.tx_hash ≡ r.tx_hash
  pub raw_kept : is_some r.signed_raw_tx ≡ true → r'.signed_raw_tx ≡ r.signed_raw_tx
  pub nonce_kept : is_some r.tx_hash ≡ true → is_some r.nonce ≡ true → r'.nonce ≡ r.nonce
  pub request_kept :
      is_some r.cancellation_requested_at ≡ true
      → r'.cancellation_requested_at ≡ r.cancellation_requested_at

pub Evolves-refl : (r : BlockchainTransaction) → Evolves r r
Evolves-refl r = ground arith

pub Evolves-trans : {a b c : BlockchainTransaction} → Evolves a b → Evolves b c → Evolves a c
Evolves-trans p q = ground arith
