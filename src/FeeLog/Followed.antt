-- ===== src/FeeLog/Followed.antt =====
-- Lemmas on syncTaskFeeLogs of tasks/sync_task_fee_logs.go: the logs that it applies.
use crynux_relay_wallet.Base.{
  All, String, ◌≡◌, refl, sym, ap, ◌∙◌, Option, none, some, List, [], ◌∷◌, ◌++◌, str_eq,
  if◌then◌else◌, last_or,
}
use crynux_relay_wallet.Int.{ℤ, ◌-ℤ◌, int_laws, pos, ◌+ℤ◌, +ℤ_assoc, zero_+ℤ}
use crynux_relay_wallet.World.{Db, World, Result, ok, err, Action, gets, ◌>>=◌, continue, db_call}
use crynux_relay_wallet.Models.Records.{TaskFeeCheckpoint}
use crynux_relay_wallet.World.Keeps.{
  Keeps, Keeps-pure, Keeps-raise, Keeps-gets, Keeps-bind, Keeps-then, Keeps-if, Keeps-db_call,
}
use mathlib.Core.Path.{subst}
use mathlib.Core.List.{append-nil}
use crynux_relay_wallet.World.Inversion.{db_call-db}
use crynux_relay_wallet.Config.{AppConfig}
use crynux_relay_wallet.Errors.{
  task_fee_address_count_too_large, task_fee_new_address_count_too_large,
}
use crynux_relay_wallet.FeeLog.Types.{TaskFeeLog}
use crynux_relay_wallet.FeeLog.Merge.{credits, log_credit}
use crynux_relay_wallet.FeeLog.Accounts.{is_empty}
use crynux_relay_wallet.FeeLog.Balances.{balance_of}
use crynux_relay_wallet.FeeLog.Deposits.{DepositCodec}
use crynux_relay_wallet.FeeLog.Vesting.{VestingCodec}
use crynux_relay_wallet.FeeLog.Vested.{Keeps-lift}
use crynux_relay_wallet.FeeLog.Validation.{Chain}
use crynux_relay_wallet.FeeLog.Check.{Counts, check_logs, check_counts, check_task_fee_logs}
use crynux_relay_wallet.FeeLog.Batch.{
  IsApplied, next_checkpoint, BatchOutcome, applied, refused, apply_task_fee_log_batch,
  apply_task_fee_log_batch-all_or_nothing,
}
use crynux_relay_wallet.FeeLog.Sync.{Round, sync_logs, sync_rounds, sync_task_fee_logs}

-- The checkpoint after some logs.
abbrev pub checkpoint_after : TaskFeeCheckpoint → List TaskFeeLog → TaskFeeCheckpoint
checkpoint_after c [] = c
checkpoint_after c (log ∷ logs) = next_checkpoint log logs

-- What the other tasks have moved on an address, wait by wait, by the tables before and after each wait.
unfoldable pub moved : String → List (Db × Db) → ℤ
moved a [] = pos 0
moved a ((before, after) ∷ waits) =
    (balance_of a after.accounts -ℤ balance_of a before.accounts) +ℤ moved a waits

module _ (deposit_codec : DepositCodec) (vesting_codec : VestingCodec) (app : AppConfig) where
  -- The abstract run: from a checkpoint and some tables, each answer of the relay to a request after the last
  -- log so far is applied wholly, the other tasks act at each wait, and the run may stop before any round. It
  -- lists the logs that were applied and the tables before and after each wait.
  pub data Follows
      : List Round → TaskFeeCheckpoint → Db → List TaskFeeLog → List (Db × Db) → Db → Type 0 where
    stopped : (rounds : List Round) (c : TaskFeeCheckpoint) (db : Db) → Follows rounds c db [] [] db
    idle :
        (round : Round) {rounds : List Round} {c : TaskFeeCheckpoint} {start db : Db}
        {logs : List TaskFeeLog} {waits : List (Db × Db)}
        → round.relay c.latest_task_fee_log_id ≡ some []
        → Follows rounds c (round.meanwhile start) logs waits db
        → Follows (round ∷ rounds) c start logs ((start, round.meanwhile start) ∷ waits) db
    batch :
        (round : Round) (log : TaskFeeLog) (logs : List TaskFeeLog) {rounds : List Round}
        {c : TaskFeeCheckpoint} {start next db : Db} {more : List TaskFeeLog}
        {waits : List (Db × Db)}
        → round.relay c.latest_task_fee_log_id ≡ some (log ∷ logs)
        → IsApplied deposit_codec vesting_codec app log logs start next
        → Follows rounds (next_checkpoint log logs) next more waits db
        → Follows (round ∷ rounds) c start ((log ∷ logs) ++ more) waits db

  -- What a run of the task is: an abstract run, with what it does to the balances and the checkpoint.
  pub record IsFollowed (rounds : List Round) (c : TaskFeeCheckpoint) (start db : Db) : Type 0 where
    pub logs : List TaskFeeLog
    pub waits : List (Db × Db)
    pub follows : Follows rounds c start logs waits db
    pub balances :
        (a : String)
        → balance_of a db.accounts ≡ balance_of a start.accounts +ℤ credits a logs +ℤ moved a waits
    pub checkpoint : db.fee_checkpoint ≡ checkpoint_after start.fee_checkpoint logs

credits-append :
    (a : String) (xs ys : List TaskFeeLog) → credits a (xs ++ ys) ≡ credits a xs +ℤ credits a ys
credits-append a [] ys = sym (zero_+ℤ (credits a ys))
credits-append a (x ∷ xs) ys =
    ap (λ n. (if str_eq x.address a then log_credit x else pos 0) +ℤ n) (credits-append a xs ys)
    ∙ sym (+ℤ_assoc _ (credits a xs) (credits a ys))

last_or-append :
    (x log : TaskFeeLog) (xs logs : List TaskFeeLog)
    → last_or x (xs ++ log ∷ logs) ≡ last_or log logs
last_or-append x log [] logs = refl
last_or-append x log (y ∷ xs) logs = last_or-append y log xs logs

checkpoint_after-append :
    (c : TaskFeeCheckpoint) (log : TaskFeeLog) (logs more : List TaskFeeLog)
    → checkpoint_after c ((log ∷ logs) ++ more) ≡ checkpoint_after (next_checkpoint log logs) more
checkpoint_after-append c log logs [] = ap (next_checkpoint log) (append-nil logs)
checkpoint_after-append c log logs (y ∷ ys) =
    ap
      (λ (l : TaskFeeLog). record {
        latest_task_fee_log_id = l.id;
        latest_task_fee_log_timestamp = l.created_at;
      })
      (last_or-append log y logs ys)

wait_sum : (m s cr mv : ℤ) → m +ℤ cr +ℤ mv ≡ s +ℤ cr +ℤ ((m -ℤ s) +ℤ mv)
wait_sum m s cr mv = omega int_laws

batch_sum : (s cr more mv : ℤ) → s +ℤ cr +ℤ more +ℤ mv ≡ s +ℤ (cr +ℤ more) +ℤ mv
batch_sum s cr more mv = omega int_laws

no_sum : (s : ℤ) → s ≡ s +ℤ pos 0 +ℤ pos 0
no_sum s = omega int_laws

-- Only this task writes its checkpoint.
abbrev pub KeepsCheckpoint : Round → Type 0
KeepsCheckpoint round = (db : Db) → (round.meanwhile db).fee_checkpoint ≡ db.fee_checkpoint

module _ (deposit_codec : DepositCodec) (vesting_codec : VestingCodec) (app : AppConfig) where
  Follows-balances :
      {rounds : List Round} {c : TaskFeeCheckpoint} {start db : Db} {logs : List TaskFeeLog}
      {waits : List (Db × Db)} (a : String)
      → Follows deposit_codec vesting_codec app rounds c start logs waits db
      → balance_of a db.accounts ≡ balance_of a start.accounts +ℤ credits a logs +ℤ moved a waits
  unfolding moved
  Follows-balances a (stopped rounds c db) = no_sum (balance_of a db.accounts)
  Follows-balances {start} {logs} a (idle round {waits = waits} e rest) =
      Follows-balances a rest
      ∙ wait_sum (balance_of a (round.meanwhile start).accounts) (balance_of a start.accounts)
          (credits a logs) (moved a waits)
  Follows-balances {start} {waits} a (batch round log logs {more = more} e step rest) =
      Follows-balances a rest
      ∙ ap (λ n. n +ℤ credits a more +ℤ moved a waits) (step.balances a)
      ∙ batch_sum (balance_of a start.accounts) (credits a (log ∷ logs)) (credits a more)
          (moved a waits)
      ∙ ap (λ n. balance_of a start.accounts +ℤ n +ℤ moved a waits)
          (sym (credits-append a (log ∷ logs) more))

  Follows-checkpoint :
      {rounds : List Round} {c : TaskFeeCheckpoint} {start db : Db} {logs : List TaskFeeLog}
      {waits : List (Db × Db)}
      → All KeepsCheckpoint rounds
      → Follows deposit_codec vesting_codec app rounds c start logs waits db
      → db.fee_checkpoint ≡ checkpoint_after start.fee_checkpoint logs
  Follows-checkpoint keeps (stopped rounds c db) = refl
  Follows-checkpoint {start} {logs} keeps (idle round e rest) =
      Follows-checkpoint keeps.1 rest ∙ ap (λ c. checkpoint_after c logs) (keeps.0 start)
  Follows-checkpoint {start} keeps (batch round log logs {more = more} e step rest) =
      Follows-checkpoint keeps.1 rest
      ∙ ap (λ c. checkpoint_after c more) step.checkpoint
      ∙ sym (checkpoint_after-append start.fee_checkpoint log logs more)

module _ (chain : Chain) (deposit_codec : DepositCodec) (vesting_codec : VestingCodec)
    (app : AppConfig) where
  Keeps-check_counts : {P : Db → Type 0} (counts : Counts) → Keeps P (check_counts app counts)
  unfolding check_counts
  Keeps-check_counts counts = Keeps-if _ (Keeps-raise task_fee_address_count_too_large) (
      Keeps-if (is_empty counts) (Keeps-pure tt) (
        Keeps-then Keeps-db_call (
          Keeps-bind (Keeps-gets (λ w. w.db.accounts)) λ accounts.
            Keeps-if _ (Keeps-raise task_fee_new_address_count_too_large) (Keeps-pure tt))))

  Keeps-check :
      {P : Db → Type 0} (logs : List TaskFeeLog)
      → Keeps P (check_task_fee_logs chain deposit_codec vesting_codec app logs)
  unfolding check_task_fee_logs
  Keeps-check logs = Keeps-bind (Keeps-gets (λ w. w.clock)) λ now.
      Keeps-lift (check_logs chain deposit_codec vesting_codec app now logs []) _
        λ counts checked. Keeps-check_counts counts

  -- A run, whatever it has applied.
  abbrev Runs : List Round → TaskFeeCheckpoint → Db → Db → Type 0
  Runs rounds c start db =
      (logs : List TaskFeeLog) × (waits : List (Db × Db)) × Follows deposit_codec vesting_codec app
        rounds c start logs waits db

  unchanged :
      (rounds : List Round) (c : TaskFeeCheckpoint) (start db : Db)
      → db ≡ start
      → Runs rounds c start db
  unchanged rounds c start db same = (
    [],
    [],
    subst (Follows deposit_codec vesting_codec app rounds c start [] []) (sym same)
        (stopped rounds c start),
  )

  after_check :
      (rounds : List Round) (c : TaskFeeCheckpoint) (start : Db) (p : Result (Unit {0}) × World)
      (f : Action (Unit {0}))
      → p.1.db ≡ start
      → ((w : World) → w.db ≡ start → Runs rounds c start (f w).1.db)
      → Runs rounds c start (continue p (λ _. f)).1.db
  after_check rounds c start (ok u, w) f same k = k w same
  after_check rounds c start (err e, w) f same k = unchanged rounds c start w.db same

  after_batch :
      {log : TaskFeeLog} {logs : List TaskFeeLog} {r : Result TaskFeeCheckpoint} {start after : Db}
      (round : Round) (rounds : List Round) (c : TaskFeeCheckpoint)
      (rest : TaskFeeCheckpoint → Action (Unit {0})) (w : World)
      → round.relay c.latest_task_fee_log_id ≡ some (log ∷ logs)
      → ((c : TaskFeeCheckpoint) (w : World) → Runs rounds c w.db (rest c w).1.db)
      → w.db ≡ after
      → BatchOutcome deposit_codec vesting_codec app log logs start r after
      → Runs (round ∷ rounds) c start (continue (r, w) rest).1.db
  after_batch {start} round rounds c rest w e k same (refused _) =
      unchanged (round ∷ rounds) c start w.db same
  after_batch {log} {logs} {start} round rounds c rest w e k same (applied after step) =
      let (more, waits, follows) = k (next_checkpoint log logs) w in
      (
        (log ∷ logs) ++ more,
        waits,
        batch round log logs e
            (subst (IsApplied deposit_codec vesting_codec app log logs start) (sym same) step)
            follows,
      )

  sync_logs-Runs :
      (round : Round) (rounds : List Round) (answer : Option (List TaskFeeLog))
      (c : TaskFeeCheckpoint) (rest : TaskFeeCheckpoint → Action (Unit {0})) (w : World)
      → round.relay c.latest_task_fee_log_id ≡ answer
      → ((c : TaskFeeCheckpoint) (w : World) → Runs rounds c w.db (rest c w).1.db)
      → Runs
          (round ∷ rounds)
          c
          w.db
          (sync_logs chain deposit_codec vesting_codec app answer round.meanwhile c rest w).1.db
  unfolding sync_logs
  sync_logs-Runs round rounds none c rest w e k = unchanged (round ∷ rounds) c w.db w.db refl
  sync_logs-Runs round rounds (some []) c rest w e k =
      let (logs, waits, follows) = k c (record w { db = round.meanwhile w.db }) in
      (logs, (w.db, round.meanwhile w.db) ∷ waits, idle round e follows)
  sync_logs-Runs round rounds (some (log ∷ logs)) c rest w e k =
      after_check (round ∷ rounds) c w.db
        (check_task_fee_logs chain deposit_codec vesting_codec app (log ∷ logs) w)
        (apply_task_fee_log_batch deposit_codec vesting_codec app log logs >>= rest)
        ((Keeps-check {P = λ db. db ≡ w.db} (log ∷ logs)).at w refl)
        (λ w₁ same.
          after_batch round rounds c rest
            (apply_task_fee_log_batch deposit_codec vesting_codec app log logs w₁).1 e k refl
            (subst
              (λ d.
                BatchOutcome deposit_codec vesting_codec app log logs d
                  (apply_task_fee_log_batch deposit_codec vesting_codec app log logs w₁).0
                  (apply_task_fee_log_batch deposit_codec vesting_codec app log logs w₁).1.db)
              same
              (apply_task_fee_log_batch-all_or_nothing deposit_codec vesting_codec app log logs
                w₁)))

  sync_rounds-Runs :
      (rounds : List Round) (c : TaskFeeCheckpoint) (w : World)
      → Runs rounds c w.db (sync_rounds chain deposit_codec vesting_codec app rounds c w).1.db
  unfolding sync_rounds
  sync_rounds-Runs [] c w = unchanged [] c w.db w.db refl
  sync_rounds-Runs (round ∷ rounds) c w =
      sync_logs-Runs round rounds (round.relay c.latest_task_fee_log_id) c
        (λ c'. sync_rounds chain deposit_codec vesting_codec app rounds c') w refl
        (sync_rounds-Runs rounds)

  sync_task_fee_logs-Runs :
      (rounds : List Round) (w : World)
      → Runs rounds w.db.fee_checkpoint w.db
          (sync_task_fee_logs chain deposit_codec vesting_codec app rounds w).1.db
  unfolding sync_task_fee_logs
  sync_task_fee_logs-Runs rounds w =
      after_check rounds w.db.fee_checkpoint w.db (db_call w)
        (gets (λ w. w.db.fee_checkpoint)
          >>= sync_rounds chain deposit_codec vesting_codec app rounds)
        (db_call-db w)
        (λ w₁ same.
          subst
            (λ d.
              Runs rounds d.fee_checkpoint d
                (sync_rounds chain deposit_codec vesting_codec app rounds w₁.db.fee_checkpoint
                  w₁).1.db)
            same (sync_rounds-Runs rounds w₁.db.fee_checkpoint w₁))

  -- Whatever the relay answers, whatever the other tasks do at the waits, so long as they leave the checkpoint
  -- alone, and however the synchronisation ends: it is an abstract run, in which the logs of the first answers,
  -- each to a request after the last log before it, are applied, and no others. Every balance has grown by the
  -- sum of their credits and by what the other tasks have moved at the waits, and the checkpoint stands at the
  -- last of the logs, or where it stood if there are none. So no log is lost or counted twice between the
  -- balances and the checkpoint.
  pub sync_task_fee_logs-IsFollowed :
      (rounds : List Round) (w : World)
      → All KeepsCheckpoint rounds
      → IsFollowed deposit_codec vesting_codec app rounds w.db.fee_checkpoint w.db
          (sync_task_fee_logs chain deposit_codec vesting_codec app rounds w).1.db
  sync_task_fee_logs-IsFollowed rounds w keeps =
      let (logs, waits, follows) = sync_task_fee_logs-Runs rounds w in
      record {
        logs = logs;
        waits = waits;
        follows = follows;
        balances = λ a. Follows-balances deposit_codec vesting_codec app a follows;
        checkpoint = Follows-checkpoint deposit_codec vesting_codec app keeps follows;
      }
