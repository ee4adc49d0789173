-- ===== src/FeeLog/OnlyVestings.antt =====
-- Lemmas on applyVestingLogs of tasks/sync_task_fee_logs.go: properties that ignore the vestings.
use crynux_relay_wallet.Base.{refl, ℕ, String, not, Option, none, some, List, [], ◌∷◌, any}
use crynux_relay_wallet.World.{Db}
use crynux_relay_wallet.FeeLog.Vesting.{
  VestingPayload, VestingCodec, parse_vesting_payload, parse_vesting_release_payload,
  recover_vesting_signer,
}
use crynux_relay_wallet.FeeLog.Releases.{
  Vestings, vesting_at, set_vestings, write_vesting, vesting_amounts, upsert_vesting_create_log,
  release_amount, is_releasable_vesting, write_release, apply_vesting_release_log,
  apply_vesting_log, apply_each, is_vesting, apply_vesting_logs,
}
use crynux_relay_wallet.World.Keeps.{
  Keeps, Keeps-pure, Keeps-raise, Keeps-gets, Keeps-modify, Keeps-bind, Keeps-then, Keeps-if,
  Keeps-db_call,
}
use crynux_relay_wallet.Errors.{
  task_fee_vesting_payload_invalid, task_fee_vesting_signer_mismatch,
  task_fee_vesting_release_invalid,
}
use crynux_relay_wallet.Text.{equal_fold, is_blank}
use crynux_relay_wallet.FeeLog.Types.{TaskFeeLogType, TaskFeeLog}
use crynux_relay_wallet.FeeLog.Vested.{Keeps-lift, Keeps-require}
use crynux_relay_wallet.Models.Records.{VestingRecord}
use crynux_relay_wallet.Int.{ℤ}

-- A property that does not look at the vestings.
module _ {P : Db → Type 0}
    (blind : (f : Vestings → Vestings) (db : Db) → P db → P (set_vestings f db)) where
  write_vesting-blind :
      (payload : VestingPayload) (a b : ℤ) (o : Option VestingRecord)
      → Keeps P (write_vesting payload a b o)
  unfolding write_vesting
  write_vesting-blind payload a b none = Keeps-then Keeps-db_call (Keeps-modify _ (blind _))
  write_vesting-blind payload a b (some r) = record { at = λ w h. h; quiet = λ w. refl }

  write_release-blind :
      (log : TaskFeeLog) (id : ℕ) (n : ℤ) (o : Option VestingRecord)
      → Keeps P (write_release log id n o)
  unfolding write_release
  write_release-blind log id n none = record { at = λ w h. h; quiet = λ w. refl }
  write_release-blind log id n (some r) =
      Keeps-require (is_releasable_vesting log n r) task_fee_vesting_release_invalid
        (Keeps-then Keeps-db_call (Keeps-modify _ (blind _)))

  module _ (codec : VestingCodec) (signer_address : String) where
    apply_vesting_log-blind :
        (type : TaskFeeLogType) (log : TaskFeeLog)
        → Keeps P (apply_vesting_log codec signer_address type log)
    unfolding apply_vesting_log upsert_vesting_create_log apply_vesting_release_log
    apply_vesting_log-blind TaskFeeLogType.vesting_created log =
        Keeps-lift (parse_vesting_payload codec log) _ λ payload parsed.
          Keeps-require (equal_fold payload.address log.address) task_fee_vesting_payload_invalid (
            Keeps-lift (vesting_amounts log payload) _ λ amounts accepted.
              Keeps-lift (recover_vesting_signer codec payload) _ λ signer recovered.
                Keeps-require (equal_fold signer signer_address) task_fee_vesting_signer_mismatch (
                  Keeps-then Keeps-db_call (
                    Keeps-bind (Keeps-gets (λ w. vesting_at payload.vesting_id w.db.vestings))
                      (write_vesting-blind payload amounts.0 amounts.1))))
    apply_vesting_log-blind TaskFeeLogType.vesting_release log =
        Keeps-lift (parse_vesting_release_payload codec log) _ λ id parsed.
          Keeps-bind (Keeps-gets (λ w. w.clock)) λ clock.
            Keeps-lift (release_amount log clock) _ λ n accepted. Keeps-then Keeps-db_call (
              Keeps-bind (Keeps-gets (λ w. vesting_at id w.db.vestings))
                (write_release-blind log id n))
    apply_vesting_log-blind _ log = Keeps-pure tt

    apply_each-blind : (logs : List TaskFeeLog) → Keeps P (apply_each codec signer_address logs)
    unfolding apply_each
    apply_each-blind [] = Keeps-pure tt
    apply_each-blind (log ∷ logs) =
        Keeps-then (apply_vesting_log-blind log.type log) (apply_each-blind logs)

    pub apply_vesting_logs-blind :
        (logs : List TaskFeeLog) → Keeps P (apply_vesting_logs codec signer_address logs)
    unfolding apply_vesting_logs
    apply_vesting_logs-blind logs = Keeps-if (not (any is_vesting logs)) (Keeps-pure tt) (
        Keeps-if (is_blank signer_address) (Keeps-raise task_fee_vesting_signer_mismatch)
          (apply_each-blind logs))
