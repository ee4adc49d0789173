-- ===== src/FeeLog/Batch.antt =====
-- tasks/sync_task_fee_logs.go: applyTaskFeeLogBatch.
use crynux_relay_wallet.Base.{
  String, ◌≡◌, refl, sym, ap, ◌∙◌, false, List, [], ◌∷◌, ◌++◌, All, any, last_or,
}
use crynux_relay_wallet.Int.{◌+ℤ◌}
use crynux_relay_wallet.World.{
  Db, World, Result, ok, err, Action, pure, ◌>>◌, continue, modify, db_call, atomic,
}
use crynux_relay_wallet.Models.Records.{TaskFeeCheckpoint, DepositRecord}
use crynux_relay_wallet.FeeLog.Vesting.{VestingCodec}
use crynux_relay_wallet.FeeLog.Releases.{apply_vesting_logs}
use mathlib.Core.Path.{subst}
use crynux_relay_wallet.Errors.{Error}
use crynux_relay_wallet.Config.{AppConfig}
use crynux_relay_wallet.World.Inversion.{bind-ok, db_call-db, atomic-ok, atomic-err}
use crynux_relay_wallet.FeeLog.Types.{TaskFeeLog}
use crynux_relay_wallet.FeeLog.Merge.{credits}
use crynux_relay_wallet.FeeLog.Accounts.{process_task_fee_logs}
use crynux_relay_wallet.FeeLog.Balances.{balance_of, process-credits}
use crynux_relay_wallet.FeeLog.Deposits.{DepositCodec, same_deposit, save_deposit_records}
use crynux_relay_wallet.FeeLog.Recorded.{AreDepositsOf}
use crynux_relay_wallet.FeeLog.DepositKeys.{save_deposit_records-ok}
use crynux_relay_wallet.FeeLog.Steps.{AreVested, apply_vesting_logs-AreVested}
use crynux_relay_wallet.FeeLog.OnlyVestings.{apply_vesting_logs-blind}

-- The checkpoint after the last log.
abbrev pub next_checkpoint : TaskFeeLog → List TaskFeeLog → TaskFeeCheckpoint
next_checkpoint log logs = record {
  latest_task_fee_log_id = (last_or log logs).id;
  latest_task_fee_log_timestamp = (last_or log logs).created_at;
}

abbrev pub set_fee_checkpoint : TaskFeeCheckpoint → Db → Db
set_fee_checkpoint c db = record db { fee_checkpoint = c }

module _ (deposit_codec : DepositCodec) (vesting_codec : VestingCodec) (app : AppConfig) where
  -- The batch is `log ∷ logs`, since an empty one is never applied; the result is the new checkpoint.
  unfoldable pub apply_task_fee_log_batch : TaskFeeLog → List TaskFeeLog → Action TaskFeeCheckpoint
  apply_task_fee_log_batch log logs = do
    atomic (do
      save_deposit_records deposit_codec app.deposit_address (log ∷ logs)
      apply_vesting_logs vesting_codec app.vesting_signer_address (log ∷ logs)
      process_task_fee_logs (log ∷ logs)
      db_call
      modify (set_fee_checkpoint (next_checkpoint log logs)))
    pure (next_checkpoint log logs)

  -- What a batch does to the tables.
  pub record IsApplied (log : TaskFeeLog) (logs : List TaskFeeLog) (before after : Db)
      : Type 0 where
    pub balances :
        (a : String)
        → balance_of a after.accounts ≡ balance_of a before.accounts +ℤ credits a (log ∷ logs)
    pub deposits : List DepositRecord
    pub of_logs : AreDepositsOf deposit_codec app.deposit_address (log ∷ logs) deposits
    pub recorded : after.deposits ≡ before.deposits ++ deposits
    pub unknown : All (λ d. any (same_deposit d) before.deposits ≡ false) deposits
    pub unvested : Db
    pub vested : Db
    pub vestings_before : unvested.vestings ≡ before.vestings
    pub vesting_steps :
        AreVested vesting_codec app.vesting_signer_address (log ∷ logs) unvested vested
    pub vestings_after : after.vestings ≡ vested.vestings
    pub checkpoint : after.fee_checkpoint ≡ next_checkpoint log logs
    pub same_transactions : after.transactions ≡ before.transactions
    pub same_withdraw_records : after.withdraw_records ≡ before.withdraw_records

  abbrev without_vestings : Db → Db
  without_vestings db = record db { vestings = [] }

  abbrev batch_body : TaskFeeLog → List TaskFeeLog → Action (Unit {0})
  batch_body log logs = do
    save_deposit_records deposit_codec app.deposit_address (log ∷ logs)
    apply_vesting_logs vesting_codec app.vesting_signer_address (log ∷ logs)
    process_task_fee_logs (log ∷ logs)
    db_call
    modify (set_fee_checkpoint (next_checkpoint log logs))

  vestings_only :
      (logs : List TaskFeeLog) (w : World)
      → without_vestings (apply_vesting_logs vesting_codec app.vesting_signer_address logs w).1.db
        ≡ without_vestings w.db
  vestings_only logs w =
      (apply_vesting_logs-blind {P = λ db. without_vestings db ≡ without_vestings w.db}
          (λ f db h. h) vesting_codec app.vesting_signer_address logs).at
        w refl

  batch_body-IsApplied :
      (log : TaskFeeLog) (logs : List TaskFeeLog) (w : World)
      → (batch_body log logs w).0 ≡ ok tt
      → IsApplied log logs w.db (batch_body log logs w).1.db
  batch_body-IsApplied log logs w h =
      let all_logs : List TaskFeeLog = log ∷ logs in
      let (u₁, saved, h₁, q₁) =
        bind-ok (save_deposit_records deposit_codec app.deposit_address all_logs) _ w {b = tt} h in
      let w₁ : World = (save_deposit_records deposit_codec app.deposit_address all_logs w).1 in
      let (u₂, vested, h₂, q₂) =
        bind-ok (apply_vesting_logs vesting_codec app.vesting_signer_address all_logs) _ w₁ {b = tt}
          h₁ in
      let w₂ : World =
        (apply_vesting_logs vesting_codec app.vesting_signer_address all_logs w₁).1 in
      let (u₃, processed, h₃, q₃) = bind-ok (process_task_fee_logs all_logs) _ w₂ {b = tt} h₂ in
      let w₃ : World = (process_task_fee_logs all_logs w₂).1 in
      let (u₄, called, h₄, q₄) = bind-ok db_call _ w₃ {b = tt} h₃ in
      let final : (batch_body log logs w).1.db
          ≡ set_fee_checkpoint (next_checkpoint log logs) w₃.db =
        ap (λ p. p.1.db) (q₁ ∙ q₂ ∙ q₃ ∙ q₄)
        ∙ ap (set_fee_checkpoint (next_checkpoint log logs)) (db_call-db w₃) in
      let (ds, built, written, fresh) =
        save_deposit_records-ok deposit_codec app.deposit_address all_logs w saved in
      let (credited, only_accounts) = process-credits all_logs w₂ processed in
      let vestings = vestings_only all_logs w₁ in
      record {
        balances = λ a.
            ap (λ d. balance_of a d.accounts) final
            ∙ credited a
            ∙ ap (λ d. balance_of a d.accounts +ℤ credits a all_logs) vestings
            ∙ ap (λ d. balance_of a d.accounts +ℤ credits a all_logs) written;
        deposits = ds;
        of_logs = built;
        recorded =
            ap (λ d. d.deposits) final
            ∙ ap (λ d. d.deposits) only_accounts
            ∙ ap (λ d. d.deposits) vestings
            ∙ ap (λ d. d.deposits) written;
        unknown = fresh.0;
        unvested = w₁.db;
        vested = w₂.db;
        vestings_before = ap (λ d. d.vestings) written;
        vesting_steps =
            apply_vesting_logs-AreVested vesting_codec app.vesting_signer_address all_logs w₁
              vested;
        vestings_after = ap (λ d. d.vestings) final ∙ ap (λ d. d.vestings) only_accounts;
        checkpoint = ap (λ d. d.fee_checkpoint) final;
        same_transactions =
            ap (λ d. d.transactions) final
            ∙ ap (λ d. d.transactions) only_accounts
            ∙ ap (λ d. d.transactions) vestings
            ∙ ap (λ d. d.transactions) written;
        same_withdraw_records =
            ap (λ d. d.withdraw_records) final
            ∙ ap (λ d. d.withdraw_records) only_accounts
            ∙ ap (λ d. d.withdraw_records) vestings
            ∙ ap (λ d. d.withdraw_records) written;
      }

  -- The result of a batch, and the tables after it.
  pub data BatchOutcome (log : TaskFeeLog) (logs : List TaskFeeLog) (before : Db)
      : Result TaskFeeCheckpoint → Db → Type 0 where
    applied :
        (after : Db)
        → IsApplied log logs before after
        → BatchOutcome log logs before (ok (next_checkpoint log logs)) after
    refused : (e : Error) → BatchOutcome log logs before (err e) before

  outcome_of :
      (log : TaskFeeLog) (logs : List TaskFeeLog) (w : World) (p : Result (Unit {0}) × World)
      → (p.0 ≡ ok tt → IsApplied log logs w.db p.1.db)
      → ((e : Error) → p.0 ≡ err e → p.1.db ≡ w.db)
      → BatchOutcome log logs w.db
          (continue p (λ _. pure (next_checkpoint log logs))).0
          (continue p (λ _. pure (next_checkpoint log logs))).1.db
  outcome_of log logs w (ok u, w') succeeded failed = applied w'.db (succeeded refl)
  outcome_of log logs w (err e, w') succeeded failed = rw (failed e refl) (refused e)

  -- A batch of logs is applied wholly or not at all. When it succeeds, the balance of every address has
  -- grown by the sum of the credits of its logs, one record for each deposit log is appended to the recorded
  -- deposits, which held none of them before, the vesting records have changed by each vesting log in order, the checkpoint stands at the last log of the batch, in the
  -- table and in the result, and the blockchain transactions and withdrawals are untouched. When it
  -- fails, no table has changed.
  pub apply_task_fee_log_batch-all_or_nothing :
      (log : TaskFeeLog) (logs : List TaskFeeLog) (w : World)
      → BatchOutcome log logs w.db
          (apply_task_fee_log_batch log logs w).0
          (apply_task_fee_log_batch log logs w).1.db
  unfolding apply_task_fee_log_batch
  apply_task_fee_log_batch-all_or_nothing log logs w =
      outcome_of log logs w (atomic (batch_body log logs) w)
        (λ done.
          let (ran, committed) = atomic-ok (batch_body log logs) w {a = tt} done in
          subst (IsApplied log logs w.db) (sym committed) (batch_body-IsApplied log logs w ran))
        (λ e failed. atomic-err (batch_body log logs) w {e = e} failed)
