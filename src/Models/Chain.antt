-- ===== src/Models/Chain.antt =====
-- models/blockchain_transaction.go: TransactionChainOutcome and ClassifyTransactionChain.
use crynux_relay_wallet.Base.{
  ℕ, ◌+◌, ◌≡◌, Bool, true, false, not, ◌&&◌, ◌||◌, Option, none, some, List, [], ◌∷◌, arith,
  if◌then◌else◌, is_none, all, count, find?,
}
use crynux_relay_wallet.Models.Transaction.{
  TransactionStatus, status_eq, BlockchainTransaction, is_proven_terminal_failure,
  is_blocking_uncertainty,
}

pub record TransactionChainOutcome : Type 0 where
  pub confirmed_count : ℕ
  pub blocking : Option BlockchainTransaction
  pub all_proven_fail : Bool

-- One round of the loop.
unfoldable pub classify_step :
    TransactionChainOutcome → BlockchainTransaction → TransactionChainOutcome
classify_step o tx =
    if status_eq tx.status TransactionStatus.confirmed
    then record o { confirmed_count = o.confirmed_count + 1; all_proven_fail = false }
    else if is_proven_terminal_failure tx
    then o
    else record o {
      all_proven_fail = false;
      blocking =
          if is_blocking_uncertainty tx
            || status_eq tx.status TransactionStatus.pending
            || status_eq tx.status TransactionStatus.sending
          then (if is_none o.blocking then some tx else o.blocking)
          else o.blocking;
    }

unfoldable pub classify_from :
    TransactionChainOutcome → List BlockchainTransaction → TransactionChainOutcome
unfolding classify_step
classify_from o [] = o
classify_from o (tx ∷ txs) = classify_from (classify_step o tx) txs

unfoldable pub classify_transaction_chain : List BlockchainTransaction → TransactionChainOutcome
unfolding classify_from
classify_transaction_chain =
    classify_from (record { confirmed_count = 0; blocking = none; all_proven_fail = true })

abbrev pub is_confirmed : BlockchainTransaction → Bool
is_confirmed tx = status_eq tx.status TransactionStatus.confirmed

-- Neither confirmed nor proven to have failed: the attempt may still be, or have been, paid out.
abbrev pub is_unresolved : BlockchainTransaction → Bool
is_unresolved tx = not (is_confirmed tx) && not (is_proven_terminal_failure tx)

or_else : Option BlockchainTransaction → Option BlockchainTransaction → Option BlockchainTransaction
or_else none b = b
or_else (some a) b = some a

-- Every attempt that is neither confirmed nor proven to have failed passes the test under which the loop
-- records it: none is overlooked.
step_lem :
    (o : TransactionChainOutcome) (tx : BlockchainTransaction)
    → classify_step o tx ≡ record {
      confirmed_count = o.confirmed_count + (if is_confirmed tx then 1 else 0);
      blocking = or_else o.blocking (if is_unresolved tx then some tx else none);
      all_proven_fail = o.all_proven_fail && is_proven_terminal_failure tx;
    }
unfolding classify_step or_else is_blocking_uncertainty
step_lem o tx = ground arith

from_lem :
    (o : TransactionChainOutcome) (txs : List BlockchainTransaction)
    → classify_from o txs ≡ record {
      confirmed_count = o.confirmed_count + count is_confirmed txs;
      blocking = or_else o.blocking (find? is_unresolved txs);
      all_proven_fail = o.all_proven_fail && all is_proven_terminal_failure txs;
    }
unfolding classify_from or_else
from_lem o [] = ground arith
from_lem o (tx ∷ txs) = ground (arith, step_lem o tx, from_lem (classify_step o tx) txs)

-- The outcome counts the confirmed attempts, says whether all attempts are proven failures, and its
-- blocking attempt is the first that is neither confirmed nor a proven failure, if there is one.
pub classify-outcome :
    (txs : List BlockchainTransaction)
    → classify_transaction_chain txs ≡ record {
      confirmed_count = count is_confirmed txs;
      blocking = find? is_unresolved txs;
      all_proven_fail = all is_proven_terminal_failure txs;
    }
unfolding classify_transaction_chain or_else
classify-outcome txs =
    ground (
      arith,
      from_lem (record { confirmed_count = 0; blocking = none; all_proven_fail = true }) txs,
    )
