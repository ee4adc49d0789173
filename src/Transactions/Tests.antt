-- ===== src/Transactions/Tests.antt =====
-- The theorems on models/blockchain_transaction.go at concrete inputs.
use crynux_relay_wallet.Base.{none, ◌≡◌, refl, false, some, List, [], ◌∷◌, arith}
use crynux_relay_wallet.Models.Transaction.{
  TransactionStatus, BlockchainTransaction, is_proven_on_chain_failure, is_proven_terminal_failure,
}
use crynux_relay_wallet.Int.{pos}
use crynux_relay_wallet.World.{restore, World, db_call, atomic}
use crynux_relay_wallet.Transactions.Rows.{
  is_claimable, set_sending, is_preparable, set_broadcasting, is_cancellable, set_cancellation,
}
use crynux_relay_wallet.Transactions.Queries.{
  select, or_not_found, select_first, list_transaction_chain, get_transaction_by_id,
  get_retry_transactions_by_id,
}
use crynux_relay_wallet.Transactions.Updates.{
  update, now, check_ancestors, check_retry, claim_for_sending, unique_hash, write_broadcast,
  prepare_broadcast, request_cancellation,
}
use crynux_relay_wallet.Models.Chain.{classify_transaction_chain, classify-outcome}
use crynux_relay_wallet.Fixture.{failed_payout, retry_payout, sending_payout, db_with, world_of}
use crynux_relay_wallet.Transactions.Table.{row_at, IsTable, GrownFrom}
use crynux_relay_wallet.Transactions.Runs.{Call, run, run-GrownFrom}
use crynux_relay_wallet.Transactions.Safety.{
  StaysBroadcast, StaysUnbroadcasted, broadcast_is_final, cancellation_is_final,
}
use crynux_relay_wallet.Transactions.Claims.{
  IsBroadcast, MayBeSent, claim_needs_proven_ancestors, prepare_is_final,
}

-- A first attempt that failed on chain, and its retry.
abbrev retried : World
retried = world_of (db_with (failed_payout ∷ retry_payout ∷ []) 3)

abbrev taken : World
taken = world_of (db_with (failed_payout ∷ sending_payout ∷ []) 3)

retried-IsTable : IsTable retried.db
retried-IsTable = ground arith

taken-IsTable : IsTable taken.db
taken-IsTable = ground arith

-- The sender claims the retry and prepares it, while the timeout handler asks for its cancellation.
abbrev calls : List Call
calls =
    Call.claim retry_payout
    ∷ Call.wait 5
    ∷ Call.prepare retry_payout "0xbb" (pos 4) "0x02"
    ∷ Call.request retry_payout "late"
    ∷ Call.mark_sent_call retry_payout
    ∷ Call.confirm retry_payout (pos 9) (pos 21000) "1"
    ∷ []

run-GrownFrom_example : GrownFrom retried.db.transactions (run calls retried).db
run-GrownFrom_example = run-GrownFrom calls retried retried-IsTable

broadcast_is_final_example :
    (s : BlockchainTransaction) × (row_at 1 (run calls retried).db.transactions ≡ some s)
    × StaysBroadcast failed_payout s
broadcast_is_final_example =
    broadcast_is_final calls retried 1 {r = failed_payout} retried-IsTable refl refl

cancellation_is_final_example :
    (s : BlockchainTransaction) × (row_at 2
        (run calls (request_cancellation retry_payout "late" retried).1).db.transactions
      ≡ some s)
    × StaysUnbroadcasted 100 s
unfolding request_cancellation update is_cancellable set_cancellation now db_call
cancellation_is_final_example =
    cancellation_is_final calls retry_payout "late" retried
      {tx' = record retry_payout {
        cancellation_requested_at = some 100;
        status_message = some "late";
      }}
      retried-IsTable refl

claim_needs_proven_ancestors_example : MayBeSent retry_payout 1 retried.db
unfolding claim_for_sending atomic restore db_call check_retry list_transaction_chain
    get_transaction_by_id select_first or_not_found get_retry_transactions_by_id select
    check_ancestors is_proven_on_chain_failure update is_claimable set_sending
claim_needs_proven_ancestors_example =
    claim_needs_proven_ancestors retry_payout 1 retried {tx' = sending_payout} retried-IsTable refl
      refl

prepare_is_final_example :
    (r s : BlockchainTransaction) × (row_at 2 taken.db.transactions ≡ some r)
    × ((r.status ≡ TransactionStatus.sending)
        × (r.tx_hash ≡ none)
        × (r.cancellation_requested_at ≡ none))
    × (row_at 2
          (run calls
            (prepare_broadcast sending_payout "0xbb" (pos 4) "0x02" taken).1).db.transactions
        ≡ some s)
    × IsBroadcast "0xbb" (pos 4) "0x02" r s
unfolding prepare_broadcast write_broadcast unique_hash update is_preparable set_broadcasting
    db_call
prepare_is_final_example =
    prepare_is_final calls sending_payout "0xbb" (pos 4) "0x02" taken
      {tx' = set_broadcasting "0xbb" (pos 4) "0x02" sending_payout} taken-IsTable refl

classify-outcome_example :
    classify_transaction_chain (failed_payout ∷ retry_payout ∷ [])
    ≡ record { confirmed_count = 0; blocking = some retry_payout; all_proven_fail = false }
unfolding is_proven_terminal_failure
classify-outcome_example = classify-outcome (failed_payout ∷ retry_payout ∷ [])
