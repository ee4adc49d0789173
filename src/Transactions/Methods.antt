-- ===== src/Transactions/Methods.antt =====
-- Lemmas on the methods of models/blockchain_transaction.go, each against the table in order.
use crynux_relay_wallet.Base.{
  String, ◌≡◌, refl, Bool, ◌||◌, none, arith, str_eq, ◌==◌, update_where,
}
use crynux_relay_wallet.Models.Transaction.{TransactionStatus, BlockchainTransaction}
use crynux_relay_wallet.Int.{ℤ}
use crynux_relay_wallet.World.{Db}
use crynux_relay_wallet.World.Keeps.{
  Keeps, Keeps-pure, Keeps-raise, Keeps-gets, Keeps-modify, Keeps-bind, Keeps-then, Keeps-if,
  Keeps-db_call, Keeps-atomic,
}
use crynux_relay_wallet.Transactions.Queries.{Transactions}
use crynux_relay_wallet.Transactions.Updates.{
  write_broadcast, set_transactions, update, mark_sent, claim_for_sending, release_sending,
  prepare_broadcast, request_cancellation, cancel_requested_unbroadcasted, mark_confirmed,
  mark_failed_from_sent, mark_receipt_delayed, recover_legacy_sending_transactions, append,
  insert_transaction,
}
use crynux_relay_wallet.Errors.{broadcast_payload_incomplete}
use crynux_relay_wallet.Transactions.Legal.{
  Legal, set_sent-Legal, set_sending-Legal, set_released-Legal, set_broadcasting-Legal,
  set_cancellation-Legal, set_cancelled-Legal, set_confirmed-Legal, set_failed-Legal,
  set_delayed-Legal, set_pending-Legal, set_legacy_cancelled-Legal,
}
use crynux_relay_wallet.Transactions.Table.{
  Ascends-append, update_where-Ascends, Grows-trans, Grows-append, update_where-IsConsistent,
  update_where-Grows, append-IsConsistent, GrownFrom,
}
use crynux_relay_wallet.Transactions.Reads.{
  Keeps-sync, Keeps-check_retry, Keeps-require_id, Keeps-now, Keeps-unique_hash,
}

module _ (old : Transactions) where
  pub Keeps-update :
      {p : BlockchainTransaction → Bool} {f : BlockchainTransaction → BlockchainTransaction}
      → Legal p f
      → Keeps (GrownFrom old) (update p f)
  unfolding update
  Keeps-update {p} {f} legal =
      Keeps-then Keeps-db_call
        (Keeps-bind (Keeps-gets _) λ rows. Keeps-then (Keeps-modify _ written) (Keeps-pure rows))
    where
      written :
          (db : Db) → GrownFrom old db → GrownFrom old (set_transactions (update_where p f) db)
      written db g = record {
        table = record {
          consistent = update_where-IsConsistent legal db.transactions g.table.consistent;
          ascends =
              update_where-Ascends p f 1 db.transactions db.next_transaction_id legal
                g.table.consistent g.table.ascends;
        };
        grown =
            Grows-trans old db.transactions _ g.grown
              (update_where-Grows legal db.transactions g.table.consistent);
      }

  pub mark_sent-Keeps : (tx : BlockchainTransaction) → Keeps (GrownFrom old) (mark_sent tx)
  unfolding mark_sent
  mark_sent-Keeps tx = Keeps-then (Keeps-require_id tx) (
      Keeps-bind Keeps-now λ t. Keeps-bind (Keeps-update (set_sent-Legal tx.id t)) λ rows.
        Keeps-if (rows == 0) (Keeps-bind (Keeps-sync tx) λ tx'. Keeps-pure _) (Keeps-pure _))

  pub claim_for_sending-Keeps :
      (tx : BlockchainTransaction) → Keeps (GrownFrom old) (claim_for_sending tx)
  unfolding claim_for_sending
  claim_for_sending-Keeps tx = Keeps-then (Keeps-require_id tx) (
      Keeps-atomic (
        Keeps-then (Keeps-check_retry tx)
          (Keeps-bind (Keeps-update (set_sending-Legal tx.id)) λ rows. Keeps-pure _)))

  pub release_sending-Keeps :
      (tx : BlockchainTransaction) (msg : String) → Keeps (GrownFrom old) (release_sending tx msg)
  unfolding release_sending
  release_sending-Keeps tx msg = Keeps-then (Keeps-require_id tx) (
      Keeps-bind Keeps-now λ t.
        Keeps-bind (Keeps-update (set_released-Legal tx.id t msg))
          λ rows. Keeps-if (rows == 0) (Keeps-pure tx) (Keeps-sync tx))

  pub prepare_broadcast-Keeps :
      (tx : BlockchainTransaction) (hash : String) (nonce : ℤ) (raw : String)
      → Keeps (GrownFrom old) (prepare_broadcast tx hash nonce raw)
  unfolding prepare_broadcast write_broadcast
  prepare_broadcast-Keeps tx hash nonce raw = Keeps-then (Keeps-require_id tx) (
      Keeps-then
        (Keeps-if (str_eq hash "" || str_eq raw "") (Keeps-raise broadcast_payload_incomplete)
          (Keeps-pure tt))
        (Keeps-then (Keeps-unique_hash tx.id hash) (
          Keeps-bind (Keeps-update (set_broadcasting-Legal tx.id hash nonce raw)) λ rows.
            Keeps-if (rows == 0) (Keeps-bind (Keeps-sync tx) λ tx'. Keeps-pure _) (Keeps-pure _))))

  pub request_cancellation-Keeps :
      (tx : BlockchainTransaction) (reason : String)
      → Keeps (GrownFrom old) (request_cancellation tx reason)
  unfolding request_cancellation
  request_cancellation-Keeps tx reason = Keeps-then (Keeps-require_id tx) (
      Keeps-bind Keeps-now
        λ t. Keeps-bind (Keeps-update (set_cancellation-Legal tx.id t reason)) λ rows. Keeps-pure _)

  pub cancel_requested_unbroadcasted-Keeps :
      (tx : BlockchainTransaction) → Keeps (GrownFrom old) (cancel_requested_unbroadcasted tx)
  unfolding cancel_requested_unbroadcasted
  cancel_requested_unbroadcasted-Keeps tx = Keeps-then (Keeps-require_id tx) (
      Keeps-bind Keeps-now
        λ t. Keeps-bind (Keeps-update (set_cancelled-Legal tx.id t)) λ rows. Keeps-pure _)

  pub mark_confirmed-Keeps :
      (tx : BlockchainTransaction) (block gas : ℤ) (price : String)
      → Keeps (GrownFrom old) (mark_confirmed tx block gas price)
  unfolding mark_confirmed
  mark_confirmed-Keeps tx block gas price = Keeps-then (Keeps-require_id tx) (
      Keeps-bind Keeps-now λ t.
        Keeps-bind (Keeps-update (set_confirmed-Legal tx.id t block gas price)) λ rows.
          Keeps-if (rows == 0) (Keeps-bind (Keeps-sync tx) λ tx'. Keeps-pure _) (Keeps-pure _))

  pub mark_failed_from_sent-Keeps :
      (tx : BlockchainTransaction) (block gas : ℤ) (price msg : String)
      → Keeps (GrownFrom old) (mark_failed_from_sent tx block gas price msg)
  unfolding mark_failed_from_sent
  mark_failed_from_sent-Keeps tx block gas price msg = Keeps-then (Keeps-require_id tx) (
      Keeps-bind Keeps-now λ t.
        Keeps-bind (Keeps-update (set_failed-Legal tx.id t block gas price msg))
          λ rows. Keeps-pure _)

  pub mark_receipt_delayed-Keeps :
      (tx : BlockchainTransaction) → Keeps (GrownFrom old) (mark_receipt_delayed tx)
  unfolding mark_receipt_delayed
  mark_receipt_delayed-Keeps tx =
      Keeps-then (Keeps-require_id tx)
        (Keeps-bind (Keeps-update (set_delayed-Legal tx.id)) λ rows. Keeps-pure _)

  pub recover_legacy_sending_transactions-Keeps :
      Keeps (GrownFrom old) recover_legacy_sending_transactions
  unfolding recover_legacy_sending_transactions
  recover_legacy_sending_transactions-Keeps = Keeps-atomic (
      Keeps-then (Keeps-bind (Keeps-update set_pending-Legal) λ _. Keeps-pure tt) (
        Keeps-bind Keeps-now
          λ t. Keeps-bind (Keeps-update (set_legacy_cancelled-Legal t)) λ _. Keeps-pure tt))

  pub insert_transaction-Keeps :
      (tx : BlockchainTransaction)
      → tx.status ≡ TransactionStatus.pending
      → tx.tx_hash ≡ none
      → tx.signed_raw_tx ≡ none
      → Keeps (GrownFrom old) (insert_transaction tx)
  unfolding insert_transaction
  insert_transaction-Keeps tx s h r =
      Keeps-then Keeps-db_call (record { at = λ w g. written w.db g; quiet = λ w. refl })
    where
      written :
          (db : Db)
          → GrownFrom old db
          → GrownFrom old (append (record tx { id = db.next_transaction_id }) db)
      written db g = record {
        table = record {
          consistent = append-IsConsistent db.transactions g.table.consistent (ground arith);
          ascends = Ascends-append 1 db.transactions db.next_transaction_id _ g.table.ascends refl;
        };
        grown = Grows-trans old db.transactions _ g.grown (Grows-append db.transactions _);
      }
