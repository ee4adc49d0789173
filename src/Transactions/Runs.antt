-- ===== src/Transactions/Runs.antt =====
-- The sender, the confirmer, the withdrawal processor and its timeout handler act on one table, each
-- through the methods of models/blockchain_transaction.go. A method's UPDATE is atomic, so what they do
-- together is a sequence of calls, in any order, each with a copy of the row that may be stale, and
-- with time passing between them.
use crynux_relay_wallet.Base.{refl, ◌∙◌, ℕ, ◌+◌, String, ◌≡◌, none, some, List, [], ◌∷◌}
use crynux_relay_wallet.Models.Transaction.{TransactionStatus, BlockchainTransaction}
use crynux_relay_wallet.Int.{ℤ}
use crynux_relay_wallet.World.{Db, World, Action, ok}
use crynux_relay_wallet.World.Keeps.{Keeps}
use crynux_relay_wallet.Transactions.Queries.{Transactions}
use crynux_relay_wallet.Transactions.Updates.{
  mark_sent, claim_for_sending, release_sending, prepare_broadcast, request_cancellation,
  cancel_requested_unbroadcasted, mark_confirmed, mark_failed_from_sent, mark_receipt_delayed,
  recover_legacy_sending_transactions, insert_transaction,
}
use crynux_relay_wallet.Transactions.Invariant.{Evolves}
use crynux_relay_wallet.Transactions.Table.{Grows-refl, Grows-row_at, row_at, IsTable, GrownFrom}
use crynux_relay_wallet.Transactions.Methods.{
  mark_sent-Keeps, claim_for_sending-Keeps, release_sending-Keeps, prepare_broadcast-Keeps,
  request_cancellation-Keeps, cancel_requested_unbroadcasted-Keeps, mark_confirmed-Keeps,
  mark_failed_from_sent-Keeps, mark_receipt_delayed-Keeps,
  recover_legacy_sending_transactions-Keeps, insert_transaction-Keeps,
}

-- A new row, as NewSendETHTransaction, NewSendERC20Transaction and CreateRetryTransaction build it.
abbrev pub IsNew : BlockchainTransaction → Type 0
IsNew tx = (tx.status ≡ TransactionStatus.pending) × (tx.tx_hash ≡ none) × (tx.signed_raw_tx ≡ none)

pub data Call : Type 0 where
  insert : (tx : BlockchainTransaction) → IsNew tx → Call
  claim mark_sent_call cancel mark_delayed : BlockchainTransaction → Call
  release request : BlockchainTransaction → String → Call
  prepare : BlockchainTransaction → String → ℤ → String → Call
  confirm : BlockchainTransaction → ℤ → ℤ → String → Call
  fail : BlockchainTransaction → ℤ → ℤ → String → String → Call
  recover : Call
  wait : ℕ → Call

abbrev after : {A : Type 0} → Action A → World → World
after m w = (m w).1

unfoldable pub perform : Call → World → World
perform (insert tx h) = after (insert_transaction tx)
perform (claim tx) = after (claim_for_sending tx)
perform (mark_sent_call tx) = after (mark_sent tx)
perform (cancel tx) = after (cancel_requested_unbroadcasted tx)
perform (mark_delayed tx) = after (mark_receipt_delayed tx)
perform (release tx msg) = after (release_sending tx msg)
perform (request tx reason) = after (request_cancellation tx reason)
perform (prepare tx hash nonce raw) = after (prepare_broadcast tx hash nonce raw)
perform (confirm tx block gas price) = after (mark_confirmed tx block gas price)
perform (fail tx block gas price msg) = after (mark_failed_from_sent tx block gas price msg)
perform recover = after recover_legacy_sending_transactions
perform (wait seconds) = λ w. record w { clock = w.clock + seconds }

unfoldable pub run : List Call → World → World
unfolding perform
run [] w = w
run (c ∷ cs) w = run cs (perform c w)

-- The world that an action leaves.
alone :
    {A : Type 0} {P : Db → Type 0} {m : Action A} → Keeps P m → Keeps P (λ w. (ok tt, after m w))
alone k = record { at = k.at; quiet = k.quiet }

perform-Keeps : (old : Transactions) (c : Call) → Keeps (GrownFrom old) (λ w. (ok tt, perform c w))
unfolding perform
perform-Keeps old (insert tx (s, h, r)) = alone (insert_transaction-Keeps old tx s h r)
perform-Keeps old (claim tx) = alone (claim_for_sending-Keeps old tx)
perform-Keeps old (mark_sent_call tx) = alone (mark_sent-Keeps old tx)
perform-Keeps old (cancel tx) = alone (cancel_requested_unbroadcasted-Keeps old tx)
perform-Keeps old (mark_delayed tx) = alone (mark_receipt_delayed-Keeps old tx)
perform-Keeps old (release tx msg) = alone (release_sending-Keeps old tx msg)
perform-Keeps old (request tx reason) = alone (request_cancellation-Keeps old tx reason)
perform-Keeps old (prepare tx hash nonce raw) =
    alone (prepare_broadcast-Keeps old tx hash nonce raw)
perform-Keeps old (confirm tx block gas price) = alone (mark_confirmed-Keeps old tx block gas price)
perform-Keeps old (fail tx block gas price msg) =
    alone (mark_failed_from_sent-Keeps old tx block gas price msg)
perform-Keeps old recover = alone (recover_legacy_sending_transactions-Keeps old)
perform-Keeps old (wait seconds) = record { at = λ w g. g; quiet = λ w. refl }

pub run-GrownFrom_from :
    (old : Transactions) (cs : List Call) (w : World)
    → GrownFrom old w.db
    → GrownFrom old (run cs w).db
unfolding run
run-GrownFrom_from old [] w g = g
run-GrownFrom_from old (c ∷ cs) w g =
    run-GrownFrom_from old cs (perform c w) ((perform-Keeps old c).at w g)

pub run_quiet : (cs : List Call) (w : World) → (run cs w).sent ≡ w.sent
unfolding run
run_quiet [] w = refl
run_quiet (c ∷ cs) w = run_quiet cs (perform c w) ∙ (perform-Keeps [] c).quiet w

-- From a table in order, any sequence of calls of the methods, by any tasks in any order and with any
-- copies of rows, leads to a table in order: every row's columns agree with its status, the ids ascend,
-- and every earlier row is still there and has evolved.
pub run-GrownFrom :
    (cs : List Call) (w : World) → IsTable w.db → GrownFrom w.db.transactions (run cs w).db
run-GrownFrom cs w t =
    run-GrownFrom_from w.db.transactions cs w
      (record { table = t; grown = Grows-refl w.db.transactions })

pub later_row :
    (cs : List Call) (w : World) (id : ℕ) {r : BlockchainTransaction}
    → IsTable w.db
    → row_at id w.db.transactions ≡ some r
    → (s : BlockchainTransaction) × (row_at id (run cs w).db.transactions ≡ some s) × Evolves r s
later_row cs w id {r} t e =
    Grows-row_at id w.db.transactions (run cs w).db.transactions {r = r}
      (run-GrownFrom cs w t).grown e
