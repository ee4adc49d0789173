-- ===== src/Withdraw/Tests.antt =====
-- The theorems on withdrawals, for one of 5 with a fee of 1.
use crynux_relay_wallet.Base.{◌≡◌, refl, true, false, none, some, [], ◌∷◌}
use crynux_relay_wallet.Models.Transaction.{
  TransactionStatus, BlockchainTransaction, is_proven_terminal_failure,
}
use crynux_relay_wallet.Int.{pos, ◌+ℤ◌}
use crynux_relay_wallet.World.{restore, World, atomic, fulfill, alert}
use crynux_relay_wallet.Models.Records.{WithdrawStatus, WithdrawRecord}
use crynux_relay_wallet.Fixture.{failed_payout, retry_payout, db_with, world_of}
use crynux_relay_wallet.Withdraw.Chains.{reject_withdrawal_request_safely, finish_withdrawal}
use crynux_relay_wallet.Withdraw.Told.{Told, finish_withdrawal-Told}
use crynux_relay_wallet.Withdraw.Settle.{total_of, debit_body, debit_withdrawal, record_after_debit}
use crynux_relay_wallet.Withdraw.Debit.{DebitOutcome, debit_withdrawal-exact}

abbrev withdrawal : WithdrawRecord
withdrawal = record {
  id = 1;
  created_at = 10;
  remote_id = 8;
  address = "0xalice";
  benefit_address = "";
  amount = pos 5;
  withdrawal_fee = pos 1;
  network = "eth";
  status = WithdrawStatus.pending;
  blockchain_transaction_id = some 1;
  timestamp = some (pos 9);
  signature = some "0x00";
  authorization_fingerprint = none;
}

-- The first attempt failed, the retry was confirmed.
abbrev confirmed_payout : BlockchainTransaction
confirmed_payout = record retry_payout {
  status = TransactionStatus.confirmed;
  tx_hash = some "0xbb";
  signed_raw_tx = some "0x02";
  nonce = some (pos 4);
  block_number = some (pos 9);
}

abbrev paid : World
paid = world_of (record (db_with (failed_payout ∷ confirmed_payout ∷ []) 3) {
  withdraw_records = withdrawal ∷ [];
})

abbrev succeeded : WithdrawRecord
succeeded = record withdrawal { status = WithdrawStatus.success }

finish_withdrawal-Told_example :
    Told succeeded none paid.db paid.sent (finish_withdrawal succeeded none paid).1.sent
finish_withdrawal-Told_example = finish_withdrawal-Told succeeded none paid

debit_withdrawal-exact_example :
    DebitOutcome withdrawal paid.db
      (debit_withdrawal withdrawal paid).0
      (debit_withdrawal withdrawal paid).1.db
debit_withdrawal-exact_example = debit_withdrawal-exact withdrawal paid

-- The payout is reported, with the hash of the retry.
fulfilled_once : (finish_withdrawal succeeded none paid).1.sent ≡ fulfill 8 "0xbb" ∷ []
unfolding finish_withdrawal
fulfilled_once = refl

-- It is not rejected: the operators are alerted.
not_rejected : (reject_withdrawal_request_safely withdrawal paid).1.sent ≡ alert ∷ []
unfolding reject_withdrawal_request_safely is_proven_terminal_failure
not_rejected = refl

-- The commit of the debit fails: the balance is as it was, but the copy of the record says that the
-- withdrawal is paid out, so that the next round reports it without a debit.
abbrev commit_fails : World
commit_fails = record paid { faults = false ∷ false ∷ false ∷ true ∷ [] }

undebited_success :
    ((debit_withdrawal withdrawal commit_fails).1.db ≡ paid.db)
    × (record_after_debit withdrawal commit_fails ≡ succeeded)
    × ((finish_withdrawal
          (record_after_debit withdrawal commit_fails)
          none
          (debit_withdrawal withdrawal commit_fails).1).1.sent
        ≡ fulfill 8 "0xbb" ∷ [])
unfolding debit_withdrawal atomic record_after_debit finish_withdrawal total_of restore debit_body
    ◌+ℤ◌
undebited_success = (refl, refl, refl)
