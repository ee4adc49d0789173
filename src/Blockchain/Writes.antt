-- ===== src/Blockchain/Writes.antt =====
-- Lemmas on the writes of blockchain/transaction_confirmer.go: one UPDATE, or a failure with its retry.
use crynux_relay_wallet.Base.{
  ℕ, String, ◌≡◌, refl, sym, ap, ◌∙◌, ◌⊎◌, inl, inr, Bool, true, false, not, [], ◌∷◌, ◌++◌, arith,
  ltb, ◌==◌, if◌then◌else◌, Bool-cases, count, update_where,
}
use crynux_relay_wallet.Models.Transaction.{TransactionStatus, BlockchainTransaction}
use crynux_relay_wallet.World.{Db, World, Result, ok, err, Action, continue, done, db_call, atomic}
use crynux_relay_wallet.Transactions.Rows.{
  at_status, set_confirmed, is_failable, set_failed, is_delayable, set_delayed,
}
use crynux_relay_wallet.Transactions.Queries.{Transactions}
use crynux_relay_wallet.Transactions.Updates.{
  set_transactions, update, now, mark_confirmed, mark_failed_from_sent, mark_receipt_delayed,
  insert_transaction, Marked,
}
use crynux_relay_wallet.Int.{ℤ}
use crynux_relay_wallet.Transactions.Retries.{create_retry_transaction, retry_of}
use crynux_relay_wallet.Blockchain.Node.{int64_of, TransactionReceipt}
use crynux_relay_wallet.Blockchain.Confirmer.{
  handle_delayed_receipt, handle_successful_transaction, fail_and_retry,
}
use crynux_relay_wallet.Config.{AppConfig}
use crynux_relay_wallet.World.Keeps.{Keeps-pure, Keeps-bind, Keeps-if}
use crynux_relay_wallet.World.Inversion.{bind-ok, atomic-ok, atomic-err}
use crynux_relay_wallet.Transactions.Reads.{Keeps-sync}
use mathlib.Core.List.{append-nil}
use crynux_relay_wallet.Errors.{Error}
use crynux_relay_wallet.World.{continue, call_with, Result-cases}

-- Either end of a bind.
pub ends_bind :
    {A B : Type 0} (Q : World → Type 0) (p : Result A × World) (f : A → Action B)
    → ((e : Error) → p.0 ≡ err e → Q p.1)
    → ((a : A) → p.0 ≡ ok a → Q (f a p.1).1)
    → Q (continue p f).1
ends_bind Q (ok a, w) f failed went = went a refl
ends_bind Q (err e, w) f failed went = failed e refl

then_done : {A : Type 0} (p : Result A × World) → (continue p (λ _. done)).1 ≡ p.1
then_done (ok a, w) = refl
then_done (err e, w) = refl

update_err :
    (p : BlockchainTransaction → Bool) (f : BlockchainTransaction → BlockchainTransaction)
    (w : World) (e : Error)
    → (update p f w).0 ≡ err e
    → (update p f w).1.db ≡ w.db
unfolding update db_call call_with
update_err p f w e h = ground arith

-- What an UPDATE that succeeds has counted and written.
pub update_ok :
    (p : BlockchainTransaction → Bool) (f : BlockchainTransaction → BlockchainTransaction)
    (w : World) (n : ℕ)
    → (update p f w).0 ≡ ok n
    → (n ≡ count p w.db.transactions)
      × ((update p f w).1.db ≡ set_transactions (update_where p f) w.db)
unfolding update db_call call_with
update_ok p f w n h = ground arith

-- Nothing after an UPDATE writes.
update_then :
    {A : Type 0} (p : BlockchainTransaction → Bool)
    (f : BlockchainTransaction → BlockchainTransaction) (k : ℕ → Action A) (w : World)
    → ((n : ℕ) (v : World) → (k n v).1.db ≡ v.db)
    → ((continue (update p f w) k).1.db.transactions ≡ w.db.transactions)
      ⊎ ((continue (update p f w) k).1.db.transactions ≡ update_where p f w.db.transactions)
update_then p f k w quiet =
    ends_bind
      (λ v.
        (v.db.transactions ≡ w.db.transactions)
        ⊎ (v.db.transactions ≡ update_where p f w.db.transactions))
      (update p f w) k (λ e h. inl (ap (λ d. d.transactions) (update_err p f w e h)))
      (λ n h. inr (ap (λ d. d.transactions) (quiet n _ ∙ (update_ok p f w n h).1)))

-- The row of the retry.
unfoldable pub retry_at : ℕ → BlockchainTransaction → BlockchainTransaction
unfolding retry_of
retry_at id tx = record (retry_of tx) { id = id }

-- The retry that a failed row gets, if the failure was recorded and attempts are left.
abbrev pub retries : BlockchainTransaction → ℕ → Transactions → Transactions
retries tx next rows =
    if count (is_failable tx.id) rows == 0
    then []
    else if ltb tx.retry_count tx.max_retries
    then retry_at next tx ∷ []
    else []

pub marked_delayed :
    (tx : BlockchainTransaction) (w : World)
    → ((handle_delayed_receipt tx w).1.db.transactions ≡ w.db.transactions)
      ⊎ ((handle_delayed_receipt tx w).1.db.transactions
          ≡ update_where (is_delayable tx.id) set_delayed w.db.transactions)
unfolding handle_delayed_receipt mark_receipt_delayed update db_call call_with
marked_delayed tx w = ground arith

pub marked_confirmed :
    (tx : BlockchainTransaction) (receipt : TransactionReceipt) (block : ℕ) (w : World)
    → ((handle_successful_transaction tx receipt block w).1.db.transactions ≡ w.db.transactions)
      ⊎ ((handle_successful_transaction tx receipt block w).1.db.transactions
          ≡ update_where
              (at_status tx.id TransactionStatus.sent)
              (set_confirmed w.clock
                (int64_of block)
                (int64_of receipt.gas_used)
                receipt.effective_gas_price)
              w.db.transactions)
unfolding handle_successful_transaction mark_confirmed now update db_call call_with
marked_confirmed tx receipt block w = elim (Bool-cases (tx.id == 0)) [
  | inl missing ↦ rw missing (inl refl)
  | inr there ↦
      rw (there, then_done)
        (update_then _ _ _ w (λ n v.
          (Keeps-if {P = λ d. d ≡ v.db} (n == 0) (Keeps-bind (Keeps-sync tx) λ tx'. Keeps-pure _)
              (Keeps-pure _)).at
            v refl))
]

same_retry :
    (id : ℕ) (tx : BlockchainTransaction) (block gas : ℤ) (price msg : String) (w : World)
    (m : Marked)
    → (mark_failed_from_sent tx block gas price msg w).0 ≡ ok m
    → retry_at id m.1 ≡ retry_at id tx
unfolding mark_failed_from_sent now update db_call call_with retry_at set_failed
same_retry id tx block gas price msg w m h = ground arith

-- A failure that was recorded.
failed_ok :
    (tx : BlockchainTransaction) (block gas : ℤ) (price msg : String) (w : World) (m : Marked)
    → (mark_failed_from_sent tx block gas price msg w).0 ≡ ok m
    → (m.0 ≡ not (count (is_failable tx.id) w.db.transactions == 0))
      × ((id : ℕ) → retry_at id m.1 ≡ retry_at id tx)
      × (m.1.retry_count ≡ tx.retry_count)
      × (m.1.max_retries ≡ tx.max_retries)
      × ((mark_failed_from_sent tx block gas price msg w).1.db
          ≡ set_transactions
              (update_where (is_failable tx.id) (set_failed w.clock block gas price msg))
              w.db)
unfolding mark_failed_from_sent now update db_call call_with set_failed
failed_ok tx block gas price msg w m h = (
  ground arith,
  (λ id. same_retry id tx block gas price msg w m h),
  ground arith,
  ground arith,
  ground arith,
)

created_ok :
    (app : AppConfig) (tx : BlockchainTransaction) (w : World) {a : Unit {0}}
    → (create_retry_transaction app tx w).0 ≡ ok a
    → (create_retry_transaction app tx w).1.db.transactions
      ≡ w.db.transactions ++ retry_at w.db.next_transaction_id tx ∷ []
unfolding retry_at create_retry_transaction insert_transaction db_call call_with
created_ok app tx w h = ground arith

-- The retry of a failure that was recorded, or not.
retried :
    (app : AppConfig) (tx : BlockchainTransaction) (missed left : Bool) (w : World) {a : Unit {0}}
    → ((if missed then done else if left then create_retry_transaction app tx else done) w).0 ≡ ok a
    → ((if missed then done else if left then create_retry_transaction app tx else done)
        w).1.db.transactions
      ≡ w.db.transactions
        ++ (if missed then [] else if left then retry_at w.db.next_transaction_id tx ∷ [] else [])
retried app tx true left w h = sym (append-nil w.db.transactions)
retried app tx false true w h = created_ok app tx w h
retried app tx false false w h = sym (append-nil w.db.transactions)

same_retries :
    (tx : BlockchainTransaction) (m : Marked) (f : BlockchainTransaction → BlockchainTransaction)
    (db db' : Db)
    → m.0 ≡ not (count (is_failable tx.id) db.transactions == 0)
    → ((id : ℕ) → retry_at id m.1 ≡ retry_at id tx)
    → m.1.retry_count ≡ tx.retry_count
    → m.1.max_retries ≡ tx.max_retries
    → db' ≡ set_transactions (update_where (is_failable tx.id) f) db
    → db'.transactions
        ++ (if not m.0
            then []
            else if ltb m.1.retry_count m.1.max_retries
            then retry_at db'.next_transaction_id m.1 ∷ []
            else [])
      ≡ update_where (is_failable tx.id) f db.transactions
        ++ retries tx db.next_transaction_id db.transactions
same_retries tx m f db db' hit same made most written = ground (arith, same db.next_transaction_id)

pub marked_failed :
    (app : AppConfig) (tx : BlockchainTransaction) (receipt : TransactionReceipt) (block : ℕ)
    (msg : String) (w : World)
    → ((atomic (fail_and_retry app tx receipt block msg) w).1.db.transactions ≡ w.db.transactions)
      ⊎ ((atomic (fail_and_retry app tx receipt block msg) w).1.db.transactions
          ≡ update_where
              (is_failable tx.id)
              (set_failed w.clock
                (int64_of block)
                (int64_of receipt.gas_used)
                receipt.effective_gas_price
                msg)
              w.db.transactions
            ++ retries tx w.db.next_transaction_id w.db.transactions)
unfolding fail_and_retry
marked_failed app tx receipt block msg w =
    elim (Result-cases (atomic (fail_and_retry app tx receipt block msg) w).0) [
      | inr (e, failed) ↦
          inl (
            ap (λ d. d.transactions)
              (atomic-err (fail_and_retry app tx receipt block msg) w failed))
      | inl (a, went) ↦ inr (
          let (ran, same) = atomic-ok (fail_and_retry app tx receipt block msg) w went in
          let (m, marked, rest, q) =
            bind-ok
              (mark_failed_from_sent tx (int64_of block) (int64_of receipt.gas_used)
                receipt.effective_gas_price msg)
              _ w {b = a} ran in
          let (hit, retry, made, most, written) =
            failed_ok tx (int64_of block) (int64_of receipt.gas_used) receipt.effective_gas_price
              msg w m marked in
          ap (λ d. d.transactions) same
          ∙ ap (λ p. p.1.db.transactions) q
          ∙ retried app m.1 (not m.0) (ltb m.1.retry_count m.1.max_retries) _ rest
          ∙ same_retries tx m _ w.db _ hit retry made most written)
    ]
