-- ===== src/FeeLog/Steps.antt =====
-- What applyVestingLogs of tasks/sync_task_fee_logs.go does with a batch, log by log.
use crynux_relay_wallet.Base.{
  ℕ, String, ◌≡◌, refl, sym, ◌∙◌, ◌≢◌, inl, inr, Bool, true, false, Option, none, some, List, [],
  ◌∷◌, ◌++◌, arith, if◌then◌else◌, any, Bool-cases, Option-cases,
}
use crynux_relay_wallet.Int.{ℤ, pos, eqb_ℤ, ◌≤ℤ◌, ◌<ℤ◌}
use crynux_relay_wallet.World.{Db, World, ok, db_call, call_with}
use crynux_relay_wallet.Models.Records.{VestingStatus, VestingRecord}
use crynux_relay_wallet.World.Inversion.{bind-ok, db_call-db}
use crynux_relay_wallet.Text.{parse_int, is_blank, equal_fold}
use crynux_relay_wallet.Errors.{
  Error, task_fee_vesting_payload_invalid, task_fee_vesting_signer_mismatch,
}
use crynux_relay_wallet.FeeLog.Types.{TaskFeeLogType, TaskFeeLog}
use crynux_relay_wallet.FeeLog.Accounts.{lift}
use crynux_relay_wallet.FeeLog.Vesting.{
  VestingPayload, VestingCodec, parse_vesting_payload, parse_vesting_release_payload,
  recover_vesting_signer,
}
use crynux_relay_wallet.FeeLog.Releases.{
  vesting_at, require, vesting_amounts, new_vesting_record, write_vesting,
  apply_vesting_release_log, is_vesting, upsert_vesting_create_log, apply_vesting_log, apply_each,
  apply_vesting_logs,
}
use crynux_relay_wallet.FeeLog.Released.{IsRelease, apply_vesting_release_log-IsRelease}
use mathlib.Core.Path.{subst}

-- The record of a new schedule.
abbrev pub record_of_schedule : VestingPayload → ℤ → ℤ → VestingRecord
record_of_schedule payload total released = record {
  relay_vesting_id = payload.vesting_id;
  address = payload.address;
  total_amount = total;
  released_amount = released;
  start_time = payload.start_time;
  duration_days = payload.duration_days;
  type = payload.type;
  admin_signature = payload.admin_signature;
  status = if eqb_ℤ released total then VestingStatus.completed else VestingStatus.active;
}

-- The amounts of a new schedule: a positive total, and of it what is released at first.
pub record AreAmounts (payload : VestingPayload) (total released : ℤ) : Type 0 where
  pub of_total : parse_int payload.total_amount ≡ some total
  pub of_released : parse_int payload.released_amount ≡ some released
  pub positive : pos 0 <ℤ total
  pub not_negative : pos 0 ≤ℤ released
  pub in_total : released ≤ℤ total

vesting_amounts-AreAmounts :
    (log : TaskFeeLog) (payload : VestingPayload) {amounts : ℤ × ℤ}
    → vesting_amounts log payload ≡ ok amounts
    → AreAmounts payload amounts.0 amounts.1
unfolding vesting_amounts
vesting_amounts-AreAmounts log payload {amounts} h =
    elim (Option-cases (parse_int payload.total_amount)) [
      | inl junk ↦ absurd (ground (arith, junk))
      | inr (total, is_total) ↦ elim (Option-cases (parse_int payload.released_amount)) [
        | inl junk ↦ absurd (ground (arith, is_total, junk))
        | inr (released, is_released) ↦
            let same : (total, released) ≡ amounts = ground (arith, is_total, is_released) in
            subst (λ p. AreAmounts payload p.0 p.1) same
              (record {
                of_total = is_total;
                of_released = is_released;
                positive = ground (arith, is_total, is_released);
                not_negative = ground (arith, is_total, is_released);
                in_total = ground (arith, is_total, is_released);
              })
      ]
    ]

require-ok : (b : Bool) (e : Error) {u : Unit {0}} → require b e ≡ ok u → b ≡ true
require-ok true e h = refl
require-ok false e h = cc

created_vesting :
    (log : TaskFeeLog) → log.type ≡ TaskFeeLogType.vesting_created → is_vesting log ≡ true
created_vesting log e = rw e refl

release_vesting :
    (log : TaskFeeLog) → log.type ≡ TaskFeeLogType.vesting_release → is_vesting log ≡ true
release_vesting log e = rw e refl

module _ (codec : VestingCodec) (signer_address : String) where
  -- The payload of a log for a new schedule, of the address of the log and signed by the admin.
  pub record IsSchedule (log : TaskFeeLog) (payload : VestingPayload) : Type 0 where
    pub of_type : log.type ≡ TaskFeeLogType.vesting_created
    pub of_payload : parse_vesting_payload codec log ≡ ok payload
    pub of_address : equal_fold payload.address log.address ≡ true
    pub signer : String
    pub signed_by : recover_vesting_signer codec payload ≡ ok signer
    pub by_admin : equal_fold signer signer_address ≡ true

  -- What one log does: a new schedule is recorded, a known one and any other log change nothing, and a
  -- release is added to its record.
  pub data IsVested (log : TaskFeeLog) : Db → Db → Type 0 where
    other :
        (db : Db)
        → log.type ≢ TaskFeeLogType.vesting_created
        → log.type ≢ TaskFeeLogType.vesting_release
        → IsVested log db db
    created :
        (db : Db) (payload : VestingPayload) (total released : ℤ)
        → IsSchedule log payload
        → AreAmounts payload total released
        → vesting_at payload.vesting_id db.vestings ≡ none
        → IsVested log db
            (record db { vestings = db.vestings ++ record_of_schedule payload total released ∷ [] })
    known :
        (db : Db) (payload : VestingPayload) (r : VestingRecord)
        → IsSchedule log payload
        → vesting_at payload.vesting_id db.vestings ≡ some r
        → IsVested log db db
    release :
        (id clock : ℕ) (before after : Db) (r : VestingRecord) (n : ℤ)
        → log.type ≡ TaskFeeLogType.vesting_release
        → parse_vesting_release_payload codec log ≡ ok id
        → IsRelease log id clock before after r n
        → IsVested log before after

  pub data AreVested : List TaskFeeLog → Db → Db → Type 0 where
    no_logs : (db : Db) → AreVested [] db db
    next :
        (log : TaskFeeLog) {logs : List TaskFeeLog} {before between after : Db}
        → IsVested log before between
        → AreVested logs between after
        → AreVested (log ∷ logs) before after

  write_vesting-IsVested :
      (log : TaskFeeLog) (payload : VestingPayload) (total released : ℤ) (o : Option VestingRecord)
      (w : World)
      → IsSchedule log payload
      → AreAmounts payload total released
      → vesting_at payload.vesting_id w.db.vestings ≡ o
      → (write_vesting payload total released o w).0 ≡ ok tt
      → IsVested log w.db (write_vesting payload total released o w).1.db
  unfolding write_vesting new_vesting_record db_call call_with
  write_vesting-IsVested log payload total released none w schedule amounts found h =
      let written : (write_vesting payload total released none w).1.db ≡ record w.db {
        vestings = w.db.vestings ++ record_of_schedule payload total released ∷ [];
      } =
        ground arith in
      rw written (created w.db payload total released schedule amounts found)
  write_vesting-IsVested log payload total released (some r) w schedule amounts found h =
      known w.db payload r schedule found

  upsert-IsVested :
      (log : TaskFeeLog) (payload : VestingPayload) (w : World)
      → log.type ≡ TaskFeeLogType.vesting_created
      → parse_vesting_payload codec log ≡ ok payload
      → equal_fold payload.address log.address ≡ true
      → (upsert_vesting_create_log codec signer_address log payload w).0 ≡ ok tt
      → IsVested log w.db (upsert_vesting_create_log codec signer_address log payload w).1.db
  unfolding upsert_vesting_create_log
  upsert-IsVested log payload w of_type of_payload of_address h =
      let (amounts, a_ok, h1, q1) = bind-ok (lift (vesting_amounts log payload)) _ w {b = tt} h in
      let (signer, s_ok, h2, q2) =
        bind-ok (lift (recover_vesting_signer codec payload)) _ w {b = tt} h1 in
      let (u, r_ok, h3, q3) =
        bind-ok (lift (require (equal_fold signer signer_address) task_fee_vesting_signer_mismatch))
          _ w {b = tt} h2 in
      let (v, called, h4, q4) = bind-ok db_call _ w {b = tt} h3 in
      let w₁ : World = (db_call w).1 in
      let after : Db =
        (write_vesting payload amounts.0 amounts.1 (vesting_at payload.vesting_id w₁.db.vestings)
          w₁).1.db in
      let schedule : IsSchedule log payload = record {
        of_type = of_type;
        of_payload = of_payload;
        of_address = of_address;
        signer = signer;
        signed_by = s_ok;
        by_admin =
            require-ok (equal_fold signer signer_address) task_fee_vesting_signer_mismatch {u = u}
              r_ok;
      } in
      let step : IsVested log w₁.db after =
        write_vesting-IsVested log payload amounts.0 amounts.1
          (vesting_at payload.vesting_id w₁.db.vestings) w₁ schedule
          (vesting_amounts-AreAmounts log payload {amounts = amounts} a_ok) refl h4 in
      subst (λ p. IsVested log w.db p.1.db) (sym (q1 ∙ q2 ∙ q3 ∙ q4))
        (subst (λ d. IsVested log d after) (db_call-db w) step)

  apply_vesting_log-IsVested :
      (type : TaskFeeLogType) (log : TaskFeeLog) (w : World)
      → log.type ≡ type
      → (apply_vesting_log codec signer_address type log w).0 ≡ ok tt
      → IsVested log w.db (apply_vesting_log codec signer_address type log w).1.db
  unfolding apply_vesting_log
  apply_vesting_log-IsVested TaskFeeLogType.vesting_created log w e h =
      let (payload, parsed, h1, q1) =
        bind-ok (lift (parse_vesting_payload codec log)) _ w {b = tt} h in
      let (u, r_ok, h2, q2) =
        bind-ok
          (lift (require (equal_fold payload.address log.address) task_fee_vesting_payload_invalid))
          _ w {b = tt} h1 in
      subst (λ p. IsVested log w.db p.1.db) (sym (q1 ∙ q2))
        (upsert-IsVested log payload w e parsed
          (require-ok (equal_fold payload.address log.address) task_fee_vesting_payload_invalid
            {u = u} r_ok)
          h2)
  apply_vesting_log-IsVested TaskFeeLogType.vesting_release log w e h =
      let (id, parsed, h1, q1) =
        bind-ok (lift (parse_vesting_release_payload codec log)) _ w {b = tt} h in
      let (r, n, released) = apply_vesting_release_log-IsRelease log id w h1 in
      subst (λ p. IsVested log w.db p.1.db) (sym q1)
        (release id w.clock w.db (apply_vesting_release_log log id w).1.db r n e parsed released)
  apply_vesting_log-IsVested TaskFeeLogType.task_income log w e h =
      other w.db (λ e'. ground (arith, e, e')) (λ e'. ground (arith, e, e'))
  apply_vesting_log-IsVested TaskFeeLogType.dao_task_share log w e h =
      other w.db (λ e'. ground (arith, e, e')) (λ e'. ground (arith, e, e'))
  apply_vesting_log-IsVested TaskFeeLogType.withdrawal_fee_income log w e h =
      other w.db (λ e'. ground (arith, e, e')) (λ e'. ground (arith, e, e'))
  apply_vesting_log-IsVested TaskFeeLogType.deposit log w e h =
      other w.db (λ e'. ground (arith, e, e')) (λ e'. ground (arith, e, e'))
  apply_vesting_log-IsVested TaskFeeLogType.task_payment log w e h =
      other w.db (λ e'. ground (arith, e, e')) (λ e'. ground (arith, e, e'))
  apply_vesting_log-IsVested TaskFeeLogType.task_refund log w e h =
      other w.db (λ e'. ground (arith, e, e')) (λ e'. ground (arith, e, e'))
  apply_vesting_log-IsVested TaskFeeLogType.withdraw log w e h =
      other w.db (λ e'. ground (arith, e, e')) (λ e'. ground (arith, e, e'))
  apply_vesting_log-IsVested TaskFeeLogType.withdraw_refund log w e h =
      other w.db (λ e'. ground (arith, e, e')) (λ e'. ground (arith, e, e'))
  apply_vesting_log-IsVested TaskFeeLogType.user_delegation log w e h =
      other w.db (λ e'. ground (arith, e, e')) (λ e'. ground (arith, e, e'))
  apply_vesting_log-IsVested (TaskFeeLogType.unknown n) log w e h =
      other w.db (λ e'. ground (arith, e, e')) (λ e'. ground (arith, e, e'))

  apply_each-AreVested :
      (logs : List TaskFeeLog) (w : World)
      → (apply_each codec signer_address logs w).0 ≡ ok tt
      → AreVested logs w.db (apply_each codec signer_address logs w).1.db
  unfolding apply_each
  apply_each-AreVested [] w h = no_logs w.db
  apply_each-AreVested (log ∷ logs) w h =
      let (u, ran, h1, q1) =
        bind-ok (apply_vesting_log codec signer_address log.type log) _ w {b = tt} h in
      let w₁ : World = (apply_vesting_log codec signer_address log.type log w).1 in
      subst (λ p. AreVested (log ∷ logs) w.db p.1.db) (sym q1)
        (next log (apply_vesting_log-IsVested log.type log w refl ran)
          (apply_each-AreVested logs w₁ h1))

  none-AreVested :
      (logs : List TaskFeeLog) (db : Db) → any is_vesting logs ≡ false → AreVested logs db db
  none-AreVested [] db h = no_logs db
  none-AreVested (log ∷ logs) db h =
      let here : is_vesting log ≡ false = ground arith in
      let rest : any is_vesting logs ≡ false = ground arith in
      next log
        (other db (λ e. ground (arith, here, created_vesting log e))
          (λ e. ground (arith, here, release_vesting log e)))
        (none-AreVested logs db rest)

  -- A batch whose vesting logs are applied without an error has had the effect of each of them, in order.
  pub apply_vesting_logs-AreVested :
      (logs : List TaskFeeLog) (w : World)
      → (apply_vesting_logs codec signer_address logs w).0 ≡ ok tt
      → AreVested logs w.db (apply_vesting_logs codec signer_address logs w).1.db
  unfolding apply_vesting_logs
  apply_vesting_logs-AreVested logs w h = elim (Bool-cases (any is_vesting logs)) [
    | inr idle ↦ rw idle (none-AreVested logs w.db idle)
    | inl busy ↦ elim (Bool-cases (is_blank signer_address)) [
      | inl blank ↦ absurd (ground (arith, h, busy, blank))
      | inr set ↦ rw (busy, set) (apply_each-AreVested logs w (rw (busy, set) at h))
    ]
  ]
