-- ===== src/Transactions/Outcomes.antt =====
-- What a method of models/blockchain_transaction.go that reports success has found and has written.
use crynux_relay_wallet.Base.{
  ℕ, suc, ◌≤◌, ◌≡◌, inl, inr, Bool, true, false, some, [], ◌∷◌, arith, ◌==◌, if◌then◌else◌,
  Bool-cases, count, update_where,
}
use crynux_relay_wallet.Models.Transaction.{BlockchainTransaction}
use crynux_relay_wallet.World.{call_with, World, ok, db_call}
use crynux_relay_wallet.Transactions.Queries.{Transactions}
use crynux_relay_wallet.Transactions.Updates.{update}
use crynux_relay_wallet.Transactions.Table.{row_at, Ascends, IsTable}

row_at-le :
    (id lo : ℕ) (rows : Transactions) (hi : ℕ) (r : BlockchainTransaction)
    → Ascends lo rows hi
    → row_at id rows ≡ some r
    → (lo ≤ id) × (r.id ≡ id)
row_at-le id lo [] hi r h e = cc
row_at-le id lo (x ∷ rows) hi r h e = ground (arith, row_at-le id (suc x.id) rows hi r h.1)

-- The condition of an UPDATE that names an id selects the row at that id, if it selects any.
selected :
    (p : BlockchainTransaction → Bool) (id lo : ℕ) (rows : Transactions) (hi : ℕ)
    → ((r : BlockchainTransaction) → p r ≡ true → r.id ≡ id)
    → Ascends lo rows hi
    → (count p rows == 0) ≡ false
    → (r : BlockchainTransaction) × (row_at id rows ≡ some r) × (p r ≡ true)
selected p id lo [] hi only h c = cc
selected p id lo (x ∷ rows) hi only h c = elim (Bool-cases (p x)) [
  | inl fits ↦ (x, ground (arith, only x fits), fits)
  | inr misses ↦
      let (r, e, q) = selected p id (suc x.id) rows hi only h.1 (ground arith) in
      (r, ground (arith, row_at-le id (suc x.id) rows hi r h.1 e), q)
]

row_at-update_where :
    (p : BlockchainTransaction → Bool) (f : BlockchainTransaction → BlockchainTransaction) (id : ℕ)
    (rows : Transactions) {r : BlockchainTransaction}
    → ((r : BlockchainTransaction) → (f r).id ≡ r.id)
    → row_at id rows ≡ some r
    → row_at id (update_where p f rows) ≡ some (if p r then f r else r)
row_at-update_where p f id [] same e = cc
row_at-update_where p f id (x ∷ rows) {r} same e =
    ground (arith, same x, row_at-update_where p f id rows {r = r} same)

-- An UPDATE that counted rows found the row at its id, and wrote it.
pub update_hit :
    (p : BlockchainTransaction → Bool) (f : BlockchainTransaction → BlockchainTransaction) (id : ℕ)
    (w : World) {n : ℕ}
    → ((r : BlockchainTransaction) → p r ≡ true → r.id ≡ id)
    → ((r : BlockchainTransaction) → (f r).id ≡ r.id)
    → IsTable w.db
    → (update p f w).0 ≡ ok n
    → (n == 0) ≡ false
    → (r : BlockchainTransaction) × (row_at id w.db.transactions ≡ some r)
      × (p r ≡ true)
      × (row_at id (update p f w).1.db.transactions ≡ some (f r))
unfolding update db_call call_with
update_hit p f id w {n} only same t e hit =
    let (r, found, fits) =
      selected p id 1 w.db.transactions w.db.next_transaction_id only t.ascends (ground arith) in
    (
      r,
      found,
      fits,
      ground (arith, row_at-update_where p f id w.db.transactions {r = r} same found),
    )
