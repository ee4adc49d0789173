-- ===== src/Transactions/Reads.antt =====
-- models/blockchain_transaction.go: what the methods read leaves every property of the database.
use crynux_relay_wallet.Base.{refl, ℕ, String, Bool, Option, none, some, [], ◌∷◌, ◌==◌}
use crynux_relay_wallet.Models.Transaction.{BlockchainTransaction, is_proven_on_chain_failure}
use crynux_relay_wallet.World.{Db, Action, ◌>>=◌, done}
use crynux_relay_wallet.World.Keeps.{
  Keeps, Keeps-pure, Keeps-raise, Keeps-gets, Keeps-bind, Keeps-if, keeping,
}
use crynux_relay_wallet.Transactions.Queries.{
  Transactions, sync, select, or_not_found, select_first, list_transaction_chain,
}
use crynux_relay_wallet.Transactions.Updates.{
  now, require_id, check_ancestors, check_retry, unique_hash,
}
use crynux_relay_wallet.Errors.{retry_ancestors_unsafe, record_not_found}

module _ {P : Db → Type 0} where
  pub Keeps-select : (p : BlockchainTransaction → Bool) → Keeps P (select p)
  unfolding select
  Keeps-select p = search keeping

  pub Keeps-or_not_found : (o : Option BlockchainTransaction) → Keeps P (or_not_found o)
  unfolding or_not_found
  Keeps-or_not_found none = search keeping
  Keeps-or_not_found (some row) = search keeping

  pub Keeps-select_first : (p : BlockchainTransaction → Bool) → Keeps P (select_first p)
  unfolding select_first
  Keeps-select_first p = search (keeping, Keeps-or_not_found)

  pub Keeps-sync : (tx : BlockchainTransaction) → Keeps P (sync tx)
  unfolding sync
  Keeps-sync tx = Keeps-select_first _

  pub Keeps-list_transaction_chain : (root : ℕ) → Keeps P (list_transaction_chain root)
  unfolding list_transaction_chain
  Keeps-list_transaction_chain root = search (keeping, Keeps-select_first, Keeps-select)

  pub Keeps-check_ancestors : (id : ℕ) (chain : Transactions) → Keeps P (check_ancestors id chain)
  unfolding check_ancestors
  Keeps-check_ancestors id [] = search keeping
  Keeps-check_ancestors id (a ∷ chain) = Keeps-if (a.id == id) (Keeps-pure tt) (
      Keeps-if (is_proven_on_chain_failure a) (Keeps-check_ancestors id chain)
        (Keeps-raise retry_ancestors_unsafe))

  pub Keeps-check_retry : (tx : BlockchainTransaction) → Keeps P (check_retry tx)
  unfolding check_retry
  Keeps-check_retry tx = go tx.retry_transaction_id
    where
      go :
          (o : Option ℕ)
          → Keeps P (elim o as (λ _. Action (Unit {0})) [
            | none ↦ done
            | some root ↦ list_transaction_chain root >>= check_ancestors tx.id
          ])
      go none = Keeps-pure tt
      go (some root) = Keeps-bind (Keeps-list_transaction_chain root) (Keeps-check_ancestors tx.id)

  pub Keeps-require_id : (tx : BlockchainTransaction) → Keeps P (require_id tx)
  Keeps-require_id tx = Keeps-if (tx.id == 0) (Keeps-raise record_not_found) (Keeps-pure tt)

  pub Keeps-now : Keeps P now
  unfolding now
  Keeps-now = Keeps-gets _

  pub Keeps-unique_hash : (id : ℕ) (tx_hash : String) → Keeps P (unique_hash id tx_hash)
  unfolding unique_hash
  Keeps-unique_hash id tx_hash = record { at = λ w h. h; quiet = λ w. refl }
