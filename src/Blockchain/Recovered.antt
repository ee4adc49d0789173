-- ===== src/Blockchain/Recovered.antt =====
-- Lemmas on blockchain/transaction_manager.go: what a start leaves of the rows that a crash left behind.
use crynux_relay_wallet.Base.{
  none, some, is_some, if◌then◌else◌, inl, inr, Bool-cases, ℕ, ◌≡◌, sym, ap, ◌∙◌, ◌≢◌, Bool, true,
  false, [], ◌∷◌, arith, All, update_where,
}
use crynux_relay_wallet.Models.Transaction.{status_eq, TransactionStatus, BlockchainTransaction}
use crynux_relay_wallet.World.{World, ok, pure, ◌>>=◌, ◌>>◌, done}
use crynux_relay_wallet.Transactions.Rows.{
  set_cancelled, is_legacy_sending, set_pending, is_legacy_cancelled,
}
use crynux_relay_wallet.Transactions.Queries.{Transactions}
use crynux_relay_wallet.Transactions.Updates.{
  set_transactions, update, now, recover_legacy_sending_transactions,
}
use mathlib.Core.Path.{subst}
use crynux_relay_wallet.World.Inversion.{bind-ok, atomic-ok}
use crynux_relay_wallet.Transactions.Invariant.{IsConsistent}
use crynux_relay_wallet.Transactions.Table.{IsTable, update_where-IsConsistent}
use crynux_relay_wallet.Transactions.Legal.{set_pending-Legal}
use crynux_relay_wallet.Blockchain.Start.{start}
use crynux_relay_wallet.Blockchain.Writes.{update_ok}

-- After the first statement, no row that is sending has no request; after the second, none has one.
not_sending_pending :
    (rows : Transactions)
    → All (λ r. is_legacy_sending r ≡ false) (update_where is_legacy_sending set_pending rows)
unfolding is_legacy_sending set_pending
not_sending_pending [] = tt
not_sending_pending (r ∷ rows) = (ground arith, not_sending_pending rows)

none_sending :
    (time : ℕ) (rows : Transactions)
    → All (λ r. is_legacy_sending r ≡ false) rows
    → All IsConsistent rows
    → All
        (λ r. r.status ≢ TransactionStatus.sending)
        (update_where is_legacy_cancelled (set_cancelled time) rows)
unfolding is_legacy_sending is_legacy_cancelled set_cancelled
none_sending time [] h c = tt
none_sending time (r ∷ rows) (h, hs) (c, cs) = (ground arith, none_sending time rows hs cs)

-- What a start does to a row: one that was left sending is pending again, or cancelled if that was asked
-- for; any other stays.
pub data IsRecovered (r : BlockchainTransaction) : BlockchainTransaction → Type 0 where
  kept : r.status ≢ TransactionStatus.sending → IsRecovered r r
  requeued :
      r.status ≡ TransactionStatus.sending
      → r.cancellation_requested_at ≡ none
      → IsRecovered r (record r { status = TransactionStatus.pending })
  cancelled :
      (time : ℕ)
      → r.status ≡ TransactionStatus.sending
      → is_some r.cancellation_requested_at ≡ true
      → IsRecovered r (record r { status = TransactionStatus.cancelled; failed_at = some time })

pub data AreRecovered : Transactions → Transactions → Type 0 where
  no_rows : AreRecovered [] []
  row :
      {r s : BlockchainTransaction} {rows rows' : Transactions}
      → IsRecovered r s
      → AreRecovered rows rows'
      → AreRecovered (r ∷ rows) (s ∷ rows')

abbrev recovered_row : ℕ → BlockchainTransaction → BlockchainTransaction
recovered_row time r =
    let r' = if is_legacy_sending r then set_pending r else r in
    if is_legacy_cancelled r' then set_cancelled time r' else r'

recovered_row-IsRecovered :
    (time : ℕ) (r : BlockchainTransaction) → IsConsistent r → IsRecovered r (recovered_row time r)
unfolding is_legacy_sending is_legacy_cancelled set_pending set_cancelled
recovered_row-IsRecovered time r c =
    elim (Bool-cases (status_eq r.status TransactionStatus.sending)) [
      | inr away ↦
          let same : recovered_row time r ≡ r = ground (arith, away) in
          rw same (kept (ground (arith, away)))
      | inl here ↦ elim (Bool-cases (is_some r.cancellation_requested_at)) [
        | inl asked ↦
            let same : recovered_row time r
                ≡ record r { status = TransactionStatus.cancelled; failed_at = some time } =
              ground arith in
            rw same (cancelled time (ground arith) asked)
        | inr unasked ↦
            let same : recovered_row time r ≡ record r { status = TransactionStatus.pending } =
              ground arith in
            rw same (requeued (ground arith) (ground arith))
      ]
    ]

recovered_rows :
    (time : ℕ) (rows : Transactions)
    → All IsConsistent rows
    → AreRecovered rows (
        update_where is_legacy_cancelled
          (set_cancelled time)
          (update_where is_legacy_sending set_pending rows))
recovered_rows time [] c = no_rows
recovered_rows time (r ∷ rows) (c, cs) =
    row (recovered_row-IsRecovered time r c) (recovered_rows time rows cs)

-- An UPDATE whose count is not looked at.
updated :
    (p : BlockchainTransaction → Bool) (f : BlockchainTransaction → BlockchainTransaction)
    (w : World) {u : Unit {0}}
    → ((update p f >>= λ _. done) w).0 ≡ ok u
    → ((update p f >>= λ _. done) w).1.db ≡ set_transactions (update_where p f) w.db
updated p f w {u} h =
    let (n, counted, _, q) = bind-ok (update p f) (λ _. done) w {b = u} h in
    ap (λ r. r.1.db) q ∙ (update_ok p f w n counted).1

-- When the manager has started, no row of a table in order is left sending: what a crash has left so is
-- pending again, or cancelled if that was asked for, and every other row is as it was.
pub start-none_sending :
    (w : World) {b : Bool}
    → IsTable w.db
    → (start false w).0 ≡ ok b
    → All (λ r. r.status ≢ TransactionStatus.sending) (start false w).1.db.transactions
      × AreRecovered w.db.transactions (start false w).1.db.transactions
unfolding start recover_legacy_sending_transactions now
start-none_sending w {b} t h =
    let (u, ran, _, q) = bind-ok recover_legacy_sending_transactions (λ _. pure true) w {b = b} h in
    let (body, same) =
      atomic-ok
        ((update is_legacy_sending set_pending >>= (λ _. done))
          >> (now >>= λ time. update is_legacy_cancelled (set_cancelled time) >>= λ _. done))
        w {a = u} ran in
    let (_, first_ran, rest, q₁) =
      bind-ok (update is_legacy_sending set_pending >>= λ _. done) _ w {b = u} body in
    let v : World = ((update is_legacy_sending set_pending >>= λ _. done) w).1 in
    let first : v.db ≡ set_transactions (update_where is_legacy_sending set_pending) w.db =
      updated is_legacy_sending set_pending w first_ran in
    let second = updated is_legacy_cancelled (set_cancelled v.clock) v {u = u} rest in
    let rows = update_where is_legacy_sending set_pending w.db.transactions in
    subst
      (λ d.
        All (λ r. r.status ≢ TransactionStatus.sending) d.transactions
        × AreRecovered w.db.transactions d.transactions)
      (sym (
        ap (λ r. r.1.db) q
        ∙ same
        ∙ ap (λ r. r.1.db) q₁
        ∙ second
        ∙ ap (set_transactions (update_where is_legacy_cancelled (set_cancelled v.clock))) first))
      (
        (none_sending v.clock rows (not_sending_pending w.db.transactions)
            (update_where-IsConsistent set_pending-Legal w.db.transactions t.consistent)),
        recovered_rows v.clock w.db.transactions t.consistent,
      )
