-- ===== src/Blockchain/Collected.antt =====
-- Lemmas on the queues of blockchain/transaction_sender.go and blockchain/transaction_confirmer.go.
use crynux_relay_wallet.Base.{
  ℕ, zero, suc, ◌+◌, ◌≤◌, ◌≡◌, refl, sym, ap, ◌∙◌, inl, inr, Bool, false, List, [], ◌∷◌, ◌++◌,
  arith, if◌then◌else◌, Bool-cases, length, filter, count,
}
use crynux_relay_wallet.Models.Transaction.{TransactionStatus, status_eq, BlockchainTransaction}
use crynux_relay_wallet.World.{call_with, World, ok, pure, ◌>>=◌, continue, db_call}
use crynux_relay_wallet.Transactions.Queries.{Transactions, select}
use crynux_relay_wallet.Blockchain.Queue.{collect_transactions, holds, enqueue_transactions}
use crynux_relay_wallet.FeeLog.Accounts.{is_empty}
use crynux_relay_wallet.Transactions.Queries.{get_page, skip, first}

db_call_works : (w : World) → w.faults ≡ [] → db_call w ≡ (ok tt, w)
unfolding db_call call_with
db_call_works w h = rw h refl

page_works :
    (status : TransactionStatus) (offset limit : ℕ) (w : World)
    → w.faults ≡ []
    → get_page status offset limit w ≡ (
      ok (
          first limit
            (skip offset (filter (λ row. status_eq row.status status) w.db.transactions))),
      w,
    )
unfolding get_page select
page_works status offset limit w h = rw (db_call_works w h) refl

zero_plus : (n : ℕ) → 0 + n ≡ n
zero_plus n = omega arith

suc_plus : (m n : ℕ) → suc m + n ≡ suc (m + n)
suc_plus m n = omega arith

skip-nil : (n : ℕ) → skip n [] ≡ []
skip-nil zero = refl
skip-nil (suc n) = refl

skip-add : (m n : ℕ) (xs : Transactions) → skip (m + n) xs ≡ skip n (skip m xs)
skip-add zero n xs = ap (λ k. skip k xs) (zero_plus n)
skip-add (suc m) n [] = skip-nil (suc m + n) ∙ sym (skip-nil n)
skip-add (suc m) n (x ∷ xs) = ap (λ k. skip k (x ∷ xs)) (suc_plus m n) ∙ skip-add m n xs

first_and_rest : (n : ℕ) (xs : Transactions) → first n xs ++ skip (length (first n xs)) xs ≡ xs
first_and_rest zero xs = refl
first_and_rest (suc n) [] = refl
first_and_rest (suc n) (x ∷ xs) = ap (λ ys. x ∷ ys) (first_and_rest n xs)

length-skip :
    (n : ℕ) (xs : Transactions)
    → length (skip (length (first n xs)) xs) + length (first n xs) ≡ length xs
length-skip zero xs = omega arith
length-skip (suc n) [] = refl
length-skip (suc n) (x ∷ xs) = let h = length-skip n xs in omega arith

length-filter :
    (p : BlockchainTransaction → Bool) (xs : Transactions) → length (filter p xs) ≡ count p xs
length-filter p [] = refl
length-filter p (x ∷ xs) = ground (arith, length-filter p xs)

module _ (status : TransactionStatus) (batch : ℕ) (w : World) (answers : w.faults ≡ []) where
  -- The rows in the status.
  abbrev selected : Transactions
  selected = filter (λ row. status_eq row.status status) w.db.transactions

  collected :
      (fuel offset : ℕ)
      → suc (length (skip offset selected)) ≤ fuel
      → collect_transactions fuel (get_page status) (suc batch) offset w
        ≡ (ok (skip offset selected), w)
  unfolding collect_transactions
  collected zero offset enough = absurd (omega arith)
  collected (suc fuel) offset enough =
      rw (page_works status offset (suc batch) w answers)
        (go (collected fuel) (skip offset selected) refl)
    where
      go :
          ((k : ℕ)
            → suc (length (skip k selected)) ≤ fuel
            → collect_transactions fuel (get_page status) (suc batch) k w
              ≡ (ok (skip k selected), w))
          → (xs : Transactions) → skip offset selected ≡ xs
          → continue
              (ok (first (suc batch) xs), w)
              (λ transactions.
                (if is_empty transactions then pure [] else (do
                  more ←
                      collect_transactions fuel
                        (get_page status)
                        (suc batch)
                        (offset + length transactions)
                  pure (transactions ++ more))))
            ≡ (ok xs, w)
      go next [] e = refl
      go next (x ∷ xs) e =
          let page : Transactions = first (suc batch) (x ∷ xs) in
          let here : skip (offset + length page) selected ≡ skip (length page) (x ∷ xs) =
            skip-add offset (length page) selected ∙ ap (skip (length page)) e in
          let shorter = length-skip (suc batch) (x ∷ xs) in
          let all = ap length e in
          let size = ap length here in
          rw (next (offset + length page) (omega arith), here)
            (ap (λ ys. (ok ys, w)) (first_and_rest (suc batch) (x ∷ xs)))

-- On a database that answers, the loop over the pages ends once it has made one request more than there
-- are rows in the status at most, and returns all of them, each once and in order, whatever the positive
-- size of a page.
pub collect_transactions-all :
    (status : TransactionStatus) (batch_size fuel : ℕ) (w : World)
    → 1 ≤ batch_size
    → w.faults ≡ []
    → suc (count (λ row. status_eq row.status status) w.db.transactions) ≤ fuel
    → collect_transactions fuel (get_page status) batch_size 0 w
      ≡ (ok (filter (λ row. status_eq row.status status) w.db.transactions), w)
collect_transactions-all status zero fuel w one answers enough = absurd (omega arith)
collect_transactions-all status (suc batch) fuel w one answers enough =
    collected status batch w answers fuel 0
      (let h = length-filter (λ row. status_eq row.status status) w.db.transactions in omega arith)

-- No id twice.
abbrev pub Distinct : List ℕ → Type 0
Distinct [] = Unit
Distinct (id ∷ ids) = (holds id ids ≡ false) × Distinct ids

-- The ids of transactions, put in front of others one by one.
abbrev pub push_ids : Transactions → List ℕ → List ℕ
push_ids [] ids = ids
push_ids (tx ∷ txs) ids = push_ids txs (tx.id ∷ ids)

-- The ids in processingTxs are those that were there and those of the transactions that were put into the
-- queue, and stay distinct: no transaction is put into the queue that is in it or is being processed, and
-- none twice.
pub enqueue_transactions-Distinct :
    (room : ℕ) (processing : List ℕ) (txs : Transactions)
    → Distinct processing
    → ((enqueue_transactions room processing txs).0
        ≡ push_ids (enqueue_transactions room processing txs).1 processing)
      × Distinct (enqueue_transactions room processing txs).0
unfolding enqueue_transactions
enqueue_transactions-Distinct room processing [] d = (refl, d)
enqueue_transactions-Distinct zero processing (tx ∷ txs) d =
    elim (Bool-cases (holds tx.id processing)) [
      | inl there ↦ rw there (enqueue_transactions-Distinct zero processing txs d)
      | inr new ↦ rw new (refl, d)
    ]
enqueue_transactions-Distinct (suc room) processing (tx ∷ txs) d =
    elim (Bool-cases (holds tx.id processing)) [
      | inl there ↦ rw there (enqueue_transactions-Distinct (suc room) processing txs d)
      | inr new ↦ rw new (enqueue_transactions-Distinct room (tx.id ∷ processing) txs (new, d))
    ]
