-- ===== src/Transactions/Safety.antt =====
-- Lemmas on models/blockchain_transaction.go over sequences of calls by all tasks.
use crynux_relay_wallet.Base.{
  ℕ, String, ◌≡◌, refl, ◌≢◌, inl, inr, true, false, none, some, List, [], ◌∷◌, arith, ◌==◌, is_some,
  Bool-cases, All,
}
use crynux_relay_wallet.Models.Transaction.{
  TransactionStatus, BlockchainTransaction, has_committed_broadcast,
}
use crynux_relay_wallet.World.{World, ok}
use crynux_relay_wallet.Transactions.Rows.{is_cancellable, set_cancellation}
use crynux_relay_wallet.Transactions.Queries.{Transactions}
use crynux_relay_wallet.Transactions.Updates.{update, now, request_cancellation}
use mathlib.Core.Path.{subst}
use crynux_relay_wallet.World.{Result-cases}
use crynux_relay_wallet.Transactions.Invariant.{IsConsistent, Evolves}
use crynux_relay_wallet.Transactions.Table.{row_at, Grows-refl, IsTable}
use crynux_relay_wallet.Transactions.Methods.{request_cancellation-Keeps}
use crynux_relay_wallet.Transactions.Outcomes.{update_hit}
use crynux_relay_wallet.Transactions.Runs.{Call, run, run-GrownFrom, later_row}

pub row_at-IsConsistent :
    (id : ℕ) (rows : Transactions) {r : BlockchainTransaction}
    → All IsConsistent rows
    → row_at id rows ≡ some r
    → IsConsistent r
row_at-IsConsistent id [] c e = cc
row_at-IsConsistent id (x ∷ rows) {r} (c, cs) e = elim (Bool-cases (x.id == id)) [
  | inl here ↦ let same : x ≡ r = ground arith in subst IsConsistent same c
  | inr there ↦ row_at-IsConsistent id rows {r = r} cs (ground arith)
]

-- What stays of a broadcast row in every later state of it.
pub record StaysBroadcast (r s : BlockchainTransaction) : Type 0 where
  pub same_hash : s.tx_hash ≡ r.tx_hash
  pub same_raw : s.signed_raw_tx ≡ r.signed_raw_tx
  pub same_nonce : s.nonce ≡ r.nonce
  pub same_value : s.value ≡ r.value
  pub same_to_address : s.to_address ≡ r.to_address
  pub not_requested : s.cancellation_requested_at ≡ none
  pub not_pending : s.status ≢ TransactionStatus.pending
  pub not_sending : s.status ≢ TransactionStatus.sending
  pub not_cancelled : s.status ≢ TransactionStatus.cancelled

pub stays_broadcast :
    {r s : BlockchainTransaction}
    → IsConsistent r
    → IsConsistent s
    → Evolves r s
    → is_some r.tx_hash ≡ true
    → StaysBroadcast r s
stays_broadcast c d v h = ground arith

-- A row that has a transaction hash keeps its hash, its signed payload, its nonce and its payee and
-- value for ever: under every sequence of calls it is never pending, sending or cancelled again, and
-- no cancellation is ever requested for it.
pub broadcast_is_final :
    (cs : List Call) (w : World) (id : ℕ) {r : BlockchainTransaction}
    → IsTable w.db
    → row_at id w.db.transactions ≡ some r
    → is_some r.tx_hash ≡ true
    → (s : BlockchainTransaction) × (row_at id (run cs w).db.transactions ≡ some s)
      × StaysBroadcast r s
broadcast_is_final cs w id {r} t e h =
    let (s, f, v) = later_row cs w id {r = r} t e in
    let before = row_at-IsConsistent id w.db.transactions {r = r} t.consistent e in
    let later =
      row_at-IsConsistent id (run cs w).db.transactions {r = s}
        (run-GrownFrom cs w t).table.consistent f in
    (s, f, stays_broadcast before later v h)

-- What stays of a row for which a cancellation was requested before its broadcast.
pub record StaysUnbroadcasted (requested_at : ℕ) (s : BlockchainTransaction) : Type 0 where
  pub no_hash : s.tx_hash ≡ none
  pub no_raw : s.signed_raw_tx ≡ none
  pub requested : s.cancellation_requested_at ≡ some requested_at
  pub uncommitted : has_committed_broadcast s ≡ false

stays_unbroadcasted :
    (t : ℕ) {r s : BlockchainTransaction}
    → IsConsistent s
    → Evolves r s
    → r.cancellation_requested_at ≡ some t
    → StaysUnbroadcasted t s
unfolding has_committed_broadcast
stays_unbroadcasted t d v h = ground arith

request_cancellation_hit :
    (tx : BlockchainTransaction) (reason : String) (w : World) {tx' : BlockchainTransaction}
    → IsTable w.db
    → (request_cancellation tx reason w).0 ≡ ok (true, tx')
    → (r : BlockchainTransaction) × (row_at tx.id
          (request_cancellation tx reason w).1.db.transactions
        ≡ some r)
      × (r.cancellation_requested_at ≡ some w.clock)
unfolding request_cancellation now is_cancellable set_cancellation
request_cancellation_hit tx reason w t h =
    elim (Result-cases (update (is_cancellable tx.id) (set_cancellation w.clock reason) w).0) [
      | inr (e, broken) ↦ absurd (ground arith)
      | inl (n, counted) ↦
          let (r, found, fits, written) =
            update_hit (is_cancellable tx.id) (set_cancellation w.clock reason) tx.id w
              (λ r q. ground arith) (λ r. refl) t counted (ground arith) in
          (set_cancellation w.clock reason r, ground arith, ground arith)
    ]

-- Once RequestCancellation has returned true, the row is never broadcast: under every sequence of calls
-- it has no hash and no signed payload, and it keeps the time of that request.
pub cancellation_is_final :
    (cs : List Call) (tx : BlockchainTransaction) (reason : String) (w : World)
    {tx' : BlockchainTransaction}
    → IsTable w.db
    → (request_cancellation tx reason w).0 ≡ ok (true, tx')
    → (s : BlockchainTransaction) × (row_at tx.id
          (run cs (request_cancellation tx reason w).1).db.transactions
        ≡ some s)
      × StaysUnbroadcasted w.clock s
cancellation_is_final cs tx reason w {tx'} t h =
    let w₁ : World = (request_cancellation tx reason w).1 in
    let t₁ : IsTable w₁.db =
      ((request_cancellation-Keeps w.db.transactions tx reason).at w
        (record { table = t; grown = Grows-refl w.db.transactions })).table in
    let (r, found, asked) = request_cancellation_hit tx reason w {tx' = tx'} t h in
    let (s, f, v) = later_row cs w₁ tx.id {r = r} t₁ found in
    let later =
      row_at-IsConsistent tx.id (run cs w₁).db.transactions {r = s}
        (run-GrownFrom cs w₁ t₁).table.consistent f in
    (s, f, stays_unbroadcasted w.clock later v asked)
