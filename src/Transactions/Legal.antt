-- ===== src/Transactions/Legal.antt =====
-- Each UPDATE of models/blockchain_transaction.go, on a row that its condition selects.
use crynux_relay_wallet.Base.{ℕ, String, ◌≡◌, Bool, true, arith}
use crynux_relay_wallet.Models.Transaction.{TransactionStatus, BlockchainTransaction}
use crynux_relay_wallet.Int.{ℤ}
use crynux_relay_wallet.Transactions.Rows.{
  is_sendable, set_sent, is_claimable, set_sending, is_releasable, set_released, is_preparable,
  set_broadcasting, is_cancellable, set_cancellation, is_cancel_requested, set_cancelled, at_status,
  set_confirmed, is_failable, set_failed, is_delayable, set_delayed, is_legacy_sending, set_pending,
  is_legacy_cancelled,
}
use crynux_relay_wallet.Transactions.Invariant.{IsConsistent, Evolves}

-- The statement keeps a consistent row consistent, and lets it evolve.
pub record Legal (p : BlockchainTransaction → Bool)
    (f : BlockchainTransaction → BlockchainTransaction) : Type 0 where
  pub next : (r : BlockchainTransaction) → IsConsistent r → p r ≡ true → IsConsistent (f r)
  pub onward : (r : BlockchainTransaction) → IsConsistent r → p r ≡ true → Evolves r (f r)

pub set_sent-Legal : (id now : ℕ) → Legal (is_sendable id) (set_sent now)
unfolding is_sendable set_sent
set_sent-Legal id now = record { next = λ r c h. ground arith; onward = λ r c h. ground arith }

pub set_sending-Legal : (id : ℕ) → Legal (is_claimable id) set_sending
unfolding is_claimable set_sending
set_sending-Legal id = record { next = λ r c h. ground arith; onward = λ r c h. ground arith }

pub set_released-Legal :
    (id now : ℕ) (msg : String) → Legal (is_releasable id) (set_released now msg)
unfolding is_releasable set_released
set_released-Legal id now msg = record {
  next = λ r c h. ground arith;
  onward = λ r c h. ground arith;
}

pub set_broadcasting-Legal :
    (id : ℕ) (tx_hash : String) (nonce : ℤ) (raw : String)
    → Legal (is_preparable id) (set_broadcasting tx_hash nonce raw)
unfolding is_preparable set_broadcasting
set_broadcasting-Legal id tx_hash nonce raw = record {
  next = λ r c h. ground arith;
  onward = λ r c h. ground arith;
}

pub set_cancellation-Legal :
    (id now : ℕ) (reason : String) → Legal (is_cancellable id) (set_cancellation now reason)
unfolding is_cancellable set_cancellation
set_cancellation-Legal id now reason = record {
  next = λ r c h. ground arith;
  onward = λ r c h. ground arith;
}

pub set_cancelled-Legal : (id now : ℕ) → Legal (is_cancel_requested id) (set_cancelled now)
unfolding is_cancel_requested set_cancelled
set_cancelled-Legal id now = record { next = λ r c h. ground arith; onward = λ r c h. ground arith }

pub set_confirmed-Legal :
    (id now : ℕ) (block gas : ℤ) (price : String)
    → Legal (at_status id TransactionStatus.sent) (set_confirmed now block gas price)
unfolding set_confirmed
set_confirmed-Legal id now block gas price = record {
  next = λ r c h. ground arith;
  onward = λ r c h. ground arith;
}

pub set_failed-Legal :
    (id now : ℕ) (block gas : ℤ) (price msg : String)
    → Legal (is_failable id) (set_failed now block gas price msg)
unfolding is_failable set_failed
set_failed-Legal id now block gas price msg = record {
  next = λ r c h. ground arith;
  onward = λ r c h. ground arith;
}

pub set_delayed-Legal : (id : ℕ) → Legal (is_delayable id) set_delayed
unfolding is_delayable set_delayed
set_delayed-Legal id = record { next = λ r c h. ground arith; onward = λ r c h. ground arith }

pub set_pending-Legal : Legal is_legacy_sending set_pending
unfolding is_legacy_sending set_pending
set_pending-Legal = record { next = λ r c h. ground arith; onward = λ r c h. ground arith }

pub set_legacy_cancelled-Legal : (now : ℕ) → Legal is_legacy_cancelled (set_cancelled now)
unfolding is_legacy_cancelled set_cancelled
set_legacy_cancelled-Legal now = record {
  next = λ r c h. ground arith;
  onward = λ r c h. ground arith;
}
