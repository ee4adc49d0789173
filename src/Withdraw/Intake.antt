-- ===== src/Withdraw/Intake.antt =====
-- tasks/process_withdrawal_requests.go: syncWithdrawalRequests, round by round, and
-- getUnfinishedWithdrawalRecords.
use crynux_relay_wallet.Base.{
  ℕ, zero, suc, String, Bool, false, not, ◌&&◌, ◌||◌, Option, none, some, List, [], ◌∷◌, ◌++◌,
  str_eq, ltb, ◌==◌, if◌then◌else◌, filter, any, last_or,
}
use crynux_relay_wallet.World.{
  Db, World, Result, ok, err, Action, pure, raise, gets, ◌>>=◌, ◌>>◌, done, modify, db_call, atomic,
}
use crynux_relay_wallet.Int.{ℤ}
use crynux_relay_wallet.Models.Records.{
  WithdrawStatus, withdraw_status_eq, WithdrawRecord, WithdrawalRequestCheckpoint,
}
use crynux_relay_wallet.Config.{AppConfig}
use crynux_relay_wallet.FeeLog.Accounts.{lift, is_empty}
use crynux_relay_wallet.Withdraw.Amounts.{parse_withdrawal_amount}
use crynux_relay_wallet.Withdraw.Authorization.{
  WithdrawalRequest, AuthorizationCodec, withdrawal_request_authorization, time_of, signature_of,
}
use crynux_relay_wallet.Withdraw.Limits.{check_withdrawal_requests}
use crynux_relay_wallet.Blockchain.Node.{Node}
use crynux_relay_wallet.Blockchain.Client.{Clients}
use crynux_relay_wallet.Errors.{relay_error, context_done, withdrawal_authorization_replayed}

-- A record for a request, which gets its id and its time when it is created.
abbrev pub record_of : WithdrawalRequest → ℤ → ℤ → WithdrawRecord
record_of request amount withdrawal_fee = record {
  id = 0;
  created_at = 0;
  remote_id = request.id;
  address = request.address;
  benefit_address = request.benefit_address;
  amount = amount;
  withdrawal_fee = withdrawal_fee;
  network = request.network;
  status = WithdrawStatus.pending;
  blockchain_transaction_id = none;
  timestamp = time_of request.timestamp;
  signature = signature_of request.signature;
  authorization_fingerprint = none;
}

abbrev pub is_fingerprint : String → WithdrawRecord → Bool
is_fingerprint fingerprint r = elim r.authorization_fingerprint [
  | none ↦ false
  | some f ↦ str_eq f fingerprint
]

-- The longest prefix of requests whose balance changes have been applied.
unfoldable pub ready : ℕ → List WithdrawalRequest → List WithdrawalRequest
ready latest [] = []
ready latest (request ∷ rest) =
    let others = ready latest rest in
    if ltb latest request.relay_account_event_id then [] else request ∷ others

-- `records` and `validRequests`.
abbrev pub Intake : Type 0
Intake = List WithdrawRecord × List WithdrawalRequest

-- A request that is not authorized becomes a failed record; then `rest` reads the others.
unfoldable pub read_as :
    WithdrawalRequest
    → ℤ
    → ℤ
    → List String
    → (List String → Action Intake)
    → Result String
    → Action Intake
read_as request amount withdrawal_fee seen rest (err e) = do
  (records, valid) ← rest seen
  pure (
    record (record_of request amount withdrawal_fee) { status = WithdrawStatus.failed } ∷ records,
    valid,
  )
read_as request amount withdrawal_fee seen rest (ok fingerprint) = do
  (records, valid) ← rest (fingerprint ∷ seen)
  pure (
    record (record_of request amount withdrawal_fee) {
      authorization_fingerprint = some fingerprint;
    }
        ∷ records,
    request ∷ valid,
  )

module _ (codec : AuthorizationCodec) where
  -- `authorizationErr`, or the fingerprint: valid, and of no request before it and no other record.
  unfoldable pub authorize : List String → WithdrawalRequest → ℤ → Action (Result String)
  authorize seen request amount = elim (withdrawal_request_authorization codec request amount) [
    | err e ↦ pure (err e)
    | ok fingerprint ↦
        (if any (λ f. str_eq f fingerprint) seen
          then pure (err withdrawal_authorization_replayed)
          else (do
            db_call
            existing ← gets (λ w.
                any (λ r. is_fingerprint fingerprint r && not (r.remote_id == request.id))
                  w.db.withdraw_records)
            pure (if existing then err withdrawal_authorization_replayed else ok fingerprint)))
  ]

  -- The records of the requests, and the requests that are authorized.
  unfoldable pub read_requests : List WithdrawalRequest → List String → Action Intake
  unfolding authorize read_as
  read_requests [] seen = pure ([], [])
  read_requests (request ∷ rest) seen = do
    amount ← lift (parse_withdrawal_amount request.amount)
    withdrawal_fee ← lift (parse_withdrawal_amount request.withdrawal_fee)
    verdict ← authorize seen request amount
    read_as request amount withdrawal_fee seen (read_requests rest) verdict

-- The unique indexes, on the remote id and the fingerprint, refuse the record.
unfoldable pub conflicts : WithdrawRecord → WithdrawRecord → Bool
conflicts new r =
    ((r.remote_id == new.remote_id)
      || (elim new.authorization_fingerprint [ none ↦ false | some f ↦ is_fingerprint f r ]))

-- `OnConflict{DoNothing: true}`. An id that is passed over is not told apart from one that is not.
unfoldable pub create_record : ℕ → WithdrawRecord → Db → Db
unfolding conflicts
create_record now r db = if any (conflicts r) db.withdraw_records then db else record db {
  withdraw_records =
      db.withdraw_records ++ (record r { id = db.next_record_id; created_at = now } ∷ []);
  next_record_id = suc db.next_record_id;
}

unfoldable pub create_records : ℕ → List WithdrawRecord → Db → Db
unfolding create_record
create_records now [] db = db
create_records now (r ∷ rest) db = create_records now rest (create_record now r db)

abbrev pub checkpoint_of : WithdrawalRequest → WithdrawalRequestCheckpoint
checkpoint_of request = record {
  latest_withdrawal_request_id = request.id;
  latest_withdrawal_request_timestamp = request.created_at;
}

-- What the relay answers to a request for the withdrawals after an id: nothing where it fails.
abbrev pub WithdrawalRelay : Type 0
WithdrawalRelay = ℕ → Option (List WithdrawalRequest)

-- A wait, in which the other tasks act.
unfoldable pub wait : Action (Unit {0})
wait w = elim w.others [
  | [] ↦ (err context_done, w)
  | others ∷ rest ↦ (ok tt, record w { db = others w.db; others = rest })
]

module _ (codec : AuthorizationCodec) (app : AppConfig) (node : Node) (clients : Clients)
    (is_zero : String → Bool) (contract : World → String → String → Result String)
    (normal : String → String) where
  unfoldable pub store :
      List WithdrawRecord → WithdrawalRequestCheckpoint → Action WithdrawalRequestCheckpoint
  unfolding create_records
  store records checkpoint = atomic (do
    db_call
    now ← gets (λ w. w.clock)
    modify (create_records now records)
    db_call
    modify (λ db. record db { request_checkpoint = checkpoint })
    pure checkpoint)

  abbrev check_valid : List WithdrawalRequest → Action (Unit {0})
  check_valid valid =
      if is_empty valid
      then done
      else check_withdrawal_requests app node clients is_zero contract normal valid

  -- The requests that are ready are read, checked and stored.
  unfoldable pub take_requests :
      WithdrawalRequest → List WithdrawalRequest → Action WithdrawalRequestCheckpoint
  unfolding read_requests store
  take_requests request requests = do
    (records, valid) ← read_requests codec (request ∷ requests) []
    check_valid valid
    store records (checkpoint_of (last_or request requests))

  -- The loop, until the relay's answers or the context end.
  unfoldable pub sync_request_rounds :
      List WithdrawalRelay → WithdrawalRequestCheckpoint → Action (Unit {0})
  unfolding take_requests ready wait
  sync_request_rounds [] checkpoint = raise context_done
  sync_request_rounds (relay ∷ relays) checkpoint = do
    db_call
    latest ← gets (λ w. w.db.fee_checkpoint.latest_task_fee_log_id)
    requests ← (λ w. (
      elim (relay checkpoint.latest_withdrawal_request_id) [
        | none ↦ err relay_error
        | some rs ↦ ok rs
      ],
      w,
    ))
    elim (ready latest requests) [
      | [] ↦ (do wait; sync_request_rounds relays checkpoint)
      | request ∷ rest ↦ (do next ← take_requests request rest; sync_request_rounds relays next)
    ]

  unfoldable pub sync_withdrawal_requests : List WithdrawalRelay → Action (Unit {0})
  unfolding sync_request_rounds
  sync_withdrawal_requests relays = do
    db_call
    checkpoint ← gets (λ w. w.db.request_checkpoint)
    sync_request_rounds relays checkpoint

abbrev first_records : ℕ → List WithdrawRecord → List WithdrawRecord
first_records zero rows = []
first_records (suc n) [] = []
first_records (suc n) (row ∷ rows) = row ∷ first_records n rows

unfoldable pub get_unfinished_withdrawal_records : ℕ → ℕ → Action (List WithdrawRecord)
get_unfinished_withdrawal_records start_id limit = do
  db_call
  gets (λ w. first_records limit (
      filter
        (λ r.
          not (withdraw_status_eq r.status WithdrawStatus.finished)
          && not (withdraw_status_eq r.status WithdrawStatus.finished_rejected)
          && ltb start_id r.id)
        w.db.withdraw_records))
