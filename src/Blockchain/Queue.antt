-- ===== src/Blockchain/Queue.antt =====
-- blockchain/transaction_sender.go and blockchain/transaction_confirmer.go: how the transactions of the
-- table get into the queue, page by page, each at most once until it is processed.
use crynux_relay_wallet.Base.{
  ℕ, zero, suc, ◌+◌, Bool, List, [], ◌∷◌, ◌++◌, ◌==◌, if◌then◌else◌, length, any,
}
use crynux_relay_wallet.World.{Action, pure, raise, ◌>>=◌}
use crynux_relay_wallet.Transactions.Queries.{Transactions}
use crynux_relay_wallet.FeeLog.Accounts.{is_empty}
use crynux_relay_wallet.Errors.{context_done}

-- The loop runs on fuel, for the pages to come.
unfoldable pub collect_transactions :
    ℕ → (ℕ → ℕ → Action Transactions) → ℕ → ℕ → Action Transactions
collect_transactions zero fetcher batch_size offset = raise context_done
collect_transactions (suc fuel) fetcher batch_size offset = do
  transactions ← fetcher offset batch_size
  let rest = collect_transactions fuel fetcher batch_size (offset + length transactions)
  if is_empty transactions then pure [] else (do more ← rest; pure (transactions ++ more))

abbrev pub holds : ℕ → List ℕ → Bool
holds id ids = any (λ x. x == id) ids

-- `room` says how many transactions the queue takes until the context is done. The result is the ids in
-- processingTxs, and what was put into the queue.
unfoldable pub enqueue_transactions : ℕ → List ℕ → Transactions → List ℕ × Transactions
enqueue_transactions room processing [] = (processing, [])
enqueue_transactions zero processing (tx ∷ txs) =
    let rest = enqueue_transactions zero processing txs in
    if holds tx.id processing then rest else (processing, [])
enqueue_transactions (suc room) processing (tx ∷ txs) =
    let rest = enqueue_transactions (suc room) processing txs in
    let more = enqueue_transactions room (tx.id ∷ processing) txs in
    if holds tx.id processing then rest else (more.0, tx ∷ more.1)
