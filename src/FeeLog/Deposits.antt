-- ===== src/FeeLog/Deposits.antt =====
-- tasks/sync_task_fee_logs.go: parseDepositPayload, normalizedDepositIdentity, buildDepositRecords and
-- saveDepositRecords.
use crynux_relay_wallet.Base.{
  ℕ, suc, String, Bool, true, false, not, ◌&&◌, ◌||◌, Option, none, some, List, [], ◌∷◌, ◌++◌,
  str_eq, ◌==◌, if◌then◌else◌, length, any,
}
use crynux_relay_wallet.Int.{ℤ}
use crynux_relay_wallet.World.{
  Db, Result, ok, err, Action, raise, gets, ◌>>=◌, ◌>>◌, done, modify, db_call,
}
use crynux_relay_wallet.Models.Records.{DepositRecord}
use crynux_relay_wallet.Errors.{
  task_fee_amount_invalid, task_fee_deposit_payload_invalid, task_fee_deposit_tx_hash_duplicate,
}
use crynux_relay_wallet.Text.{parse_int, is_blank, to_lower}
use crynux_relay_wallet.FeeLog.Types.{TaskFeeLogType, TaskFeeLog}
use crynux_relay_wallet.FeeLog.Accounts.{lift}

pub record DepositPayload : Type 0 where
  pub tx_hash : String
  pub network : String

-- What the deposits use of encoding/json and go-ethereum: `json.Unmarshal` into a deposit payload,
-- `hexutil.Decode` as the number of bytes that it decodes, and `common.HexToHash(s).Hex()`.
pub record DepositCodec : Type 0 where
  pub unmarshal : String → Option DepositPayload
  pub decoded_length : String → Option ℕ
  pub hash_hex : String → String

-- An unsuccessful step of a pure function skips the rest.
infixl 5 ◌then_ok◌
abbrev pub ◌then_ok◌ : {A B : Type 0} → Result A → (A → Result B) → Result B
ok a then_ok f = f a
err e then_ok f = err e

-- The `type` of a log is `Deposit`.
abbrev pub is_deposit : TaskFeeLogType → Bool
is_deposit TaskFeeLogType.deposit = true
is_deposit _ = false

abbrev pub has_length : Option ℕ → ℕ → Bool
has_length none n = false
has_length (some m) n = m == n

module _ (codec : DepositCodec) where
  unfoldable pub check_payload : Option DepositPayload → Result DepositPayload
  check_payload none = err task_fee_deposit_payload_invalid
  check_payload (some payload) =
      if str_eq payload.tx_hash ""
        || str_eq payload.network ""
        || not (has_length (codec.decoded_length payload.tx_hash) 32)
      then err task_fee_deposit_payload_invalid
      else ok payload

  unfoldable pub parse_deposit_payload : TaskFeeLog → Result DepositPayload
  unfolding check_payload
  parse_deposit_payload log =
      if is_blank log.payload
      then err task_fee_deposit_payload_invalid
      else check_payload (codec.unmarshal log.payload)

  -- The network and the hash by which a deposit is known.
  unfoldable pub normalized_deposit_identity : DepositPayload → String × String
  normalized_deposit_identity payload =
      (to_lower payload.network, to_lower (codec.hash_hex payload.tx_hash))

  unfoldable pub parsed_amount : Option ℤ → Result ℤ
  parsed_amount none = err task_fee_amount_invalid
  parsed_amount (some n) = ok n

  -- The record of a deposit log.
  unfoldable pub deposit_record : String → TaskFeeLog → Result DepositRecord
  unfolding parsed_amount parse_deposit_payload normalized_deposit_identity
  deposit_record deposit_address log = parsed_amount (parse_int log.amount) then_ok λ amount.
      parse_deposit_payload log then_ok λ payload. ok (record {
        network = (normalized_deposit_identity payload).0;
        tx_hash = (normalized_deposit_identity payload).1;
        deposit_address = to_lower deposit_address;
        from_address = to_lower log.address;
        amount = amount;
        relay_account_event_id = log.id;
      })

  unfoldable pub build_deposit_records : String → List TaskFeeLog → Result (List DepositRecord)
  unfolding deposit_record
  build_deposit_records deposit_address [] = ok []
  build_deposit_records deposit_address (log ∷ logs) =
      let rest = build_deposit_records deposit_address logs in
      if not (is_deposit log.type)
      then rest
      else (deposit_record deposit_address log then_ok λ d. rest then_ok λ ds. ok (d ∷ ds))

-- The unique index of deposit_records.
abbrev pub same_deposit : DepositRecord → DepositRecord → Bool
same_deposit a b = str_eq a.network b.network && str_eq a.tx_hash b.tx_hash

-- `INSERT ... ON CONFLICT DO NOTHING`, row by row: the table, and the number of rows inserted.
unfoldable pub insert_deposits : List DepositRecord → List DepositRecord → List DepositRecord × ℕ
insert_deposits [] table = (table, 0)
insert_deposits (d ∷ ds) table =
    if any (same_deposit d) table
    then insert_deposits ds table
    else (let (table', n) = insert_deposits ds (table ++ d ∷ []) in (table', suc n))

abbrev pub set_deposits : (List DepositRecord → List DepositRecord) → Db → Db
set_deposits f db = record db { deposits = f db.deposits }

unfoldable pub write_deposits : List DepositRecord → Action (Unit {0})
unfolding insert_deposits
write_deposits [] = done
write_deposits (d ∷ ds) = do
  db_call
  rows ← gets (λ w. (insert_deposits (d ∷ ds) w.db.deposits).1)
  modify (set_deposits (λ table. (insert_deposits (d ∷ ds) table).0))
  if rows == length (d ∷ ds) then done else raise task_fee_deposit_tx_hash_duplicate

unfoldable pub save_deposit_records : DepositCodec → String → List TaskFeeLog → Action (Unit {0})
unfolding build_deposit_records
save_deposit_records codec deposit_address logs =
    lift (build_deposit_records codec deposit_address logs) >>= write_deposits
