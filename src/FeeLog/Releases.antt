-- ===== src/FeeLog/Releases.antt =====
-- tasks/sync_task_fee_logs.go: upsertVestingCreateLog, applyVestingReleaseLog and applyVestingLogs.
use crynux_relay_wallet.Base.{
  ℕ, ◌+◌, String, Bool, true, false, not, ◌&&◌, Option, none, some, List, [], ◌∷◌, ◌++◌, str_eq,
  ltb, ◌==◌, if◌then◌else◌, any, find?,
}
use crynux_relay_wallet.Int.{ℤ, pos, ◌+ℤ◌, ltb_ℤ, leb_ℤ, eqb_ℤ}
use crynux_relay_wallet.World.{
  Db, Result, ok, err, Action, raise, gets, ◌>>=◌, ◌>>◌, done, modify, db_call,
}
use crynux_relay_wallet.Models.Records.{VestingStatus, VestingRecord}
use crynux_relay_wallet.FeeLog.Vesting.{
  VestingPayload, VestingCodec, parse_vesting_payload, parse_vesting_release_payload,
  recover_vesting_signer,
}
use crynux_relay_wallet.Errors.{
  Error, task_fee_vesting_payload_invalid, task_fee_vesting_signer_mismatch,
  task_fee_vesting_record_not_found, task_fee_vesting_release_invalid,
}
use crynux_relay_wallet.Text.{parse_int, is_blank, equal_fold}
use crynux_relay_wallet.FeeLog.Types.{TaskFeeLogType, TaskFeeLog}
use crynux_relay_wallet.FeeLog.Accounts.{lift}
use crynux_relay_wallet.FeeLog.Schedule.{compute_vesting_should_released}

abbrev pub Vestings : Type 0
Vestings = List VestingRecord

-- `relay_vesting_id = ?`, a unique column.
abbrev pub vesting_at : ℕ → Vestings → Option VestingRecord
vesting_at id rows = find? (λ r. r.relay_vesting_id == id) rows

abbrev pub set_vestings : (Vestings → Vestings) → Db → Db
set_vestings f db = record db { vestings = f db.vestings }

-- The update of the row that First has read.
abbrev pub update_vesting : ℕ → (VestingRecord → VestingRecord) → Vestings → Vestings
update_vesting id f [] = []
update_vesting id f (r ∷ rows) =
    let rest = update_vesting id f rows in if r.relay_vesting_id == id then f r ∷ rows else r ∷ rest

abbrev pub amount_where : (ℤ → Bool) → Option ℤ → Bool
amount_where p none = false
amount_where p (some n) = p n

-- `err` unless the condition holds.
abbrev pub require : Bool → Error → Result (Unit {0})
require true e = ok tt
require false e = err e

abbrev pub number_or_zero : Option ℤ → ℤ
number_or_zero none = pos 0
number_or_zero (some n) = n

abbrev pub status_of_released : ℤ → ℤ → VestingStatus
status_of_released released_amount total_amount =
    if eqb_ℤ released_amount total_amount then VestingStatus.completed else VestingStatus.active

-- The record of a new schedule.
unfoldable pub new_vesting_record : VestingPayload → ℤ → ℤ → VestingRecord
new_vesting_record payload total_amount released_amount = record {
  relay_vesting_id = payload.vesting_id;
  address = payload.address;
  total_amount = total_amount;
  released_amount = released_amount;
  start_time = payload.start_time;
  duration_days = payload.duration_days;
  type = payload.type;
  admin_signature = payload.admin_signature;
  status = status_of_released released_amount total_amount;
}

-- A schedule that is sent again must be the recorded one.
unfoldable pub is_same_schedule : VestingPayload → ℤ → VestingRecord → Bool
is_same_schedule payload total_amount r =
    equal_fold r.address payload.address
    && eqb_ℤ r.total_amount total_amount
    && eqb_ℤ r.start_time payload.start_time
    && r.duration_days == payload.duration_days
    && str_eq r.type payload.type

unfoldable pub write_vesting : VestingPayload → ℤ → ℤ → Option VestingRecord → Action (Unit {0})
unfolding new_vesting_record is_same_schedule
write_vesting payload total_amount released_amount none = do
  db_call
  modify
      (set_vestings (λ rows. rows ++ new_vesting_record payload total_amount released_amount ∷ []))
write_vesting payload total_amount released_amount (some r) =
    lift (require (is_same_schedule payload total_amount r) task_fee_vesting_payload_invalid)

-- The amounts of a schedule that is accepted.
unfoldable pub vesting_amounts : TaskFeeLog → VestingPayload → Result (ℤ × ℤ)
vesting_amounts log payload =
    if not (amount_where (λ n. eqb_ℤ n (pos 0)) (parse_int log.amount))
    then err task_fee_vesting_payload_invalid
    else if not (amount_where (ltb_ℤ (pos 0)) (parse_int payload.total_amount))
    then err task_fee_vesting_payload_invalid
    else if not (
        amount_where
          (λ n. leb_ℤ (pos 0) n && leb_ℤ n (number_or_zero (parse_int payload.total_amount)))
          (parse_int payload.released_amount))
    then err task_fee_vesting_payload_invalid
    else ok (
      number_or_zero (parse_int payload.total_amount),
      number_or_zero (parse_int payload.released_amount),
    )

-- An amount in a log, where the release is not refused for it or for a time in the future.
abbrev pub release_amount : TaskFeeLog → ℕ → Result ℤ
release_amount log clock =
    if not (amount_where (ltb_ℤ (pos 0)) (parse_int log.amount))
    then err task_fee_vesting_release_invalid
    else if ltb (clock + 3600) log.created_at
    then err task_fee_vesting_release_invalid
    else ok (number_or_zero (parse_int log.amount))

abbrev pub is_active : VestingStatus → Bool
is_active VestingStatus.active = true
is_active _ = false

-- The conditions for the release of an amount from a record.
unfoldable pub is_releasable_vesting : TaskFeeLog → ℤ → VestingRecord → Bool
is_releasable_vesting log amount r =
    is_active r.status
    && equal_fold r.address log.address
    && leb_ℤ (r.released_amount +ℤ amount) r.total_amount
    && leb_ℤ (r.released_amount +ℤ amount) (
        compute_vesting_should_released r.total_amount r.start_time r.duration_days
          (pos log.created_at))

unfoldable pub set_released_amount : ℤ → VestingRecord → VestingRecord
set_released_amount amount r = record r {
  released_amount = r.released_amount +ℤ amount;
  status = status_of_released (r.released_amount +ℤ amount) r.total_amount;
}

unfoldable pub write_release : TaskFeeLog → ℕ → ℤ → Option VestingRecord → Action (Unit {0})
unfolding is_releasable_vesting set_released_amount
write_release log vesting_id amount none = raise task_fee_vesting_record_not_found
write_release log vesting_id amount (some r) = do
  lift (require (is_releasable_vesting log amount r) task_fee_vesting_release_invalid)
  db_call
  modify (set_vestings (update_vesting vesting_id (set_released_amount amount)))

unfoldable pub apply_vesting_release_log : TaskFeeLog → ℕ → Action (Unit {0})
unfolding write_release
apply_vesting_release_log log vesting_id = do
  clock ← gets (λ w. w.clock)
  amount ← lift (release_amount log clock)
  db_call
  found ← gets (λ w. vesting_at vesting_id w.db.vestings)
  write_release log vesting_id amount found

abbrev pub is_vesting : TaskFeeLog → Bool
is_vesting log = go log.type
  where
    go : TaskFeeLogType → Bool
    go TaskFeeLogType.vesting_created = true
    go TaskFeeLogType.vesting_release = true
    go _ = false

module _ (codec : VestingCodec) (signer_address : String) where
  unfoldable pub upsert_vesting_create_log : TaskFeeLog → VestingPayload → Action (Unit {0})
  unfolding vesting_amounts write_vesting
  upsert_vesting_create_log log payload = do
    amounts ← lift (vesting_amounts log payload)
    recovered ← lift (recover_vesting_signer codec payload)
    lift (require (equal_fold recovered signer_address) task_fee_vesting_signer_mismatch)
    db_call
    found ← gets (λ w. vesting_at payload.vesting_id w.db.vestings)
    write_vesting payload amounts.0 amounts.1 found

  unfoldable pub apply_vesting_log : TaskFeeLogType → TaskFeeLog → Action (Unit {0})
  unfolding upsert_vesting_create_log apply_vesting_release_log
  apply_vesting_log TaskFeeLogType.vesting_created log = do
    payload ← lift (parse_vesting_payload codec log)
    lift (require (equal_fold payload.address log.address) task_fee_vesting_payload_invalid)
    upsert_vesting_create_log log payload
  apply_vesting_log TaskFeeLogType.vesting_release log = do
    vesting_id ← lift (parse_vesting_release_payload codec log)
    apply_vesting_release_log log vesting_id
  apply_vesting_log _ log = done

  unfoldable pub apply_each : List TaskFeeLog → Action (Unit {0})
  unfolding apply_vesting_log
  apply_each [] = done
  apply_each (log ∷ logs) = do apply_vesting_log log.type log; apply_each logs

  unfoldable pub apply_vesting_logs : List TaskFeeLog → Action (Unit {0})
  unfolding apply_each
  apply_vesting_logs logs =
      if not (any is_vesting logs)
      then done
      else if is_blank signer_address
      then raise task_fee_vesting_signer_mismatch
      else apply_each logs
