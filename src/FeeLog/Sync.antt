-- ===== src/FeeLog/Sync.antt =====
-- tasks/sync_task_fee_logs.go: syncTaskFeeLogs, round by round.
use crynux_relay_wallet.Base.{ℕ, Option, none, some, List, [], ◌∷◌}
use crynux_relay_wallet.World.{Db, modify, Action, raise, gets, ◌>>=◌, ◌>>◌, db_call}
use crynux_relay_wallet.Models.Records.{TaskFeeCheckpoint}
use crynux_relay_wallet.Config.{AppConfig}
use crynux_relay_wallet.Errors.{relay_error, context_done}
use crynux_relay_wallet.FeeLog.Types.{TaskFeeLog}
use crynux_relay_wallet.FeeLog.Deposits.{DepositCodec}
use crynux_relay_wallet.FeeLog.Vesting.{VestingCodec}
use crynux_relay_wallet.FeeLog.Validation.{Chain}
use crynux_relay_wallet.FeeLog.Check.{check_task_fee_logs}
use crynux_relay_wallet.FeeLog.Batch.{apply_task_fee_log_batch}

-- A round: what the relay answers to a request for the logs after an id, nothing where the request fails,
-- and what the other tasks do to the tables if the task then waits for new logs.
pub record Round : Type 0 where
  pub relay : ℕ → Option (List TaskFeeLog)
  pub meanwhile : Db → Db

module _ (chain : Chain) (deposit_codec : DepositCodec) (vesting_codec : VestingCodec)
    (app : AppConfig) where
  -- One round with the logs that the relay has answered, for the rest of the rounds. Without logs the task
  -- waits, while the others act; a context that is done ends the wait as it ends the rounds.
  unfoldable pub sync_logs :
      Option (List TaskFeeLog)
      → (Db → Db)
      → TaskFeeCheckpoint
      → (TaskFeeCheckpoint → Action (Unit {0}))
      → Action (Unit {0})
  sync_logs none meanwhile c rest = raise relay_error
  sync_logs (some []) meanwhile c rest = do modify meanwhile; rest c
  sync_logs (some (log ∷ logs)) meanwhile c rest = do
    check_task_fee_logs chain deposit_codec vesting_codec app (log ∷ logs)
    c' ← apply_task_fee_log_batch deposit_codec vesting_codec app log logs
    rest c'

  -- The loop, until the context is done, as it is after the last round.
  unfoldable pub sync_rounds : List Round → TaskFeeCheckpoint → Action (Unit {0})
  unfolding sync_logs
  sync_rounds [] c = raise context_done
  sync_rounds (round ∷ rounds) c =
      sync_logs (round.relay c.latest_task_fee_log_id) round.meanwhile c
        (λ c'. sync_rounds rounds c')

  unfoldable pub sync_task_fee_logs : List Round → Action (Unit {0})
  unfolding sync_rounds
  sync_task_fee_logs rounds = do db_call; c ← gets (λ w. w.db.fee_checkpoint); sync_rounds rounds c
