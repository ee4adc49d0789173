-- ===== src/FeeLog/Recorded.antt =====
-- Lemmas on buildDepositRecords of tasks/sync_task_fee_logs.go: the record of each deposit log.
use crynux_relay_wallet.Base.{
  ℕ, String, ◌≡◌, refl, sym, ap, ◌∙◌, inl, inr, ◌≢◌, true, Option, none, some, List, [], ◌∷◌, arith,
  Bool-cases, Option-cases,
}
use crynux_relay_wallet.Int.{ℤ}
use crynux_relay_wallet.World.{ok}
use crynux_relay_wallet.Models.Records.{DepositRecord}
use crynux_relay_wallet.Text.{parse_int, to_lower}
use crynux_relay_wallet.FeeLog.Types.{TaskFeeLogType, TaskFeeLog}
use crynux_relay_wallet.FeeLog.Deposits.{
  DepositPayload, DepositCodec, is_deposit, has_length, check_payload, parsed_amount,
  parse_deposit_payload, normalized_deposit_identity, deposit_record, build_deposit_records,
}
use crynux_relay_wallet.FeeLog.Paid.{then_ok-ok}
use mathlib.Core.Path.{subst}

parsed_amount-ok :
    (codec : DepositCodec) (o : Option ℤ) {n : ℤ} → parsed_amount codec o ≡ ok n → o ≡ some n
unfolding parsed_amount
parsed_amount-ok codec none h = cc
parsed_amount-ok codec (some n) h = cc

ok_injective : {A : Type 0} {a b : A} → ok a ≡ ok b → a ≡ b
ok_injective h = cc

is_deposit-deposit :
    (type : TaskFeeLogType) → is_deposit type ≡ true → type ≡ TaskFeeLogType.deposit
is_deposit-deposit TaskFeeLogType.deposit h = refl
is_deposit-deposit TaskFeeLogType.task_income h = cc
is_deposit-deposit TaskFeeLogType.dao_task_share h = cc
is_deposit-deposit TaskFeeLogType.withdrawal_fee_income h = cc
is_deposit-deposit TaskFeeLogType.task_payment h = cc
is_deposit-deposit TaskFeeLogType.task_refund h = cc
is_deposit-deposit TaskFeeLogType.withdraw h = cc
is_deposit-deposit TaskFeeLogType.withdraw_refund h = cc
is_deposit-deposit TaskFeeLogType.user_delegation h = cc
is_deposit-deposit TaskFeeLogType.vesting_created h = cc
is_deposit-deposit TaskFeeLogType.vesting_release h = cc
is_deposit-deposit (TaskFeeLogType.unknown n) h = cc

has_length-ok : (o : Option ℕ) (n : ℕ) → has_length o n ≡ true → o ≡ some n
has_length-ok none n h = cc
has_length-ok (some m) n h = ground arith

module _ (codec : DepositCodec) (deposit_address : String) where
  -- The record d of a deposit log: its amount, its addresses, and the network and hash of its payload, all
  -- in lower case.
  pub record IsDepositOf (log : TaskFeeLog) (d : DepositRecord) : Type 0 where
    pub payload : DepositPayload
    pub of_payload : codec.unmarshal log.payload ≡ some payload
    pub of_length : codec.decoded_length payload.tx_hash ≡ some 32
    pub of_amount : parse_int log.amount ≡ some d.amount
    pub of_network : d.network ≡ to_lower payload.network
    pub of_hash : d.tx_hash ≡ to_lower (codec.hash_hex payload.tx_hash)
    pub of_deposit_address : d.deposit_address ≡ to_lower deposit_address
    pub of_sender : d.from_address ≡ to_lower log.address
    pub of_event : d.relay_account_event_id ≡ log.id

  -- One record for each deposit log, in order, and no other.
  pub data AreDepositsOf : List TaskFeeLog → List DepositRecord → Type 0 where
    no_logs : AreDepositsOf [] []
    other :
        (log : TaskFeeLog) {logs : List TaskFeeLog} {ds : List DepositRecord}
        → log.type ≢ TaskFeeLogType.deposit
        → AreDepositsOf logs ds
        → AreDepositsOf (log ∷ logs) ds
    recorded :
        (log : TaskFeeLog) (d : DepositRecord) {logs : List TaskFeeLog} {ds : List DepositRecord}
        → log.type ≡ TaskFeeLogType.deposit
        → IsDepositOf log d
        → AreDepositsOf logs ds
        → AreDepositsOf (log ∷ logs) (d ∷ ds)

  payload-ok :
      (log : TaskFeeLog) {payload : DepositPayload}
      → parse_deposit_payload codec log ≡ ok payload
      → (codec.unmarshal log.payload ≡ some payload)
        × (codec.decoded_length payload.tx_hash ≡ some 32)
  unfolding parse_deposit_payload check_payload
  payload-ok log {payload} h = elim (Option-cases (codec.unmarshal log.payload)) [
    | inl broken ↦ absurd (ground arith)
    | inr (p, read) ↦
        let long : has_length (codec.decoded_length p.tx_hash) 32 ≡ true = ground arith in
        let same : p ≡ payload = ground arith in
        let length = has_length-ok (codec.decoded_length p.tx_hash) 32 long in
        (read ∙ ap some same, sym (ap (λ x. codec.decoded_length x.tx_hash) same) ∙ length)
  ]

  deposit_record-IsDepositOf :
      (log : TaskFeeLog) {d : DepositRecord}
      → deposit_record codec deposit_address log ≡ ok d
      → IsDepositOf log d
  unfolding deposit_record normalized_deposit_identity
  deposit_record-IsDepositOf log {d} h =
      let (amount, numbered, h₁) =
        then_ok-ok (parsed_amount codec (parse_int log.amount)) _ {b = d} h in
      let (payload, parsed, h₂) = then_ok-ok (parse_deposit_payload codec log) _ {b = d} h₁ in
      let (read, long) = payload-ok log {payload = payload} parsed in
      subst (IsDepositOf log) (ok_injective h₂) (record {
        payload = payload;
        of_payload = read;
        of_length = long;
        of_amount = parsed_amount-ok codec (parse_int log.amount) {n = amount} numbered;
        of_network = refl;
        of_hash = refl;
        of_deposit_address = refl;
        of_sender = refl;
        of_event = refl;
      })

  pub build_deposit_records-AreDepositsOf :
      (logs : List TaskFeeLog) {ds : List DepositRecord}
      → build_deposit_records codec deposit_address logs ≡ ok ds
      → AreDepositsOf logs ds
  unfolding build_deposit_records
  build_deposit_records-AreDepositsOf [] {ds} h = subst (AreDepositsOf []) (ok_injective h) no_logs
  build_deposit_records-AreDepositsOf (log ∷ logs) {ds} h =
      elim (Bool-cases (is_deposit log.type)) [
        | inr differs ↦
            other log (λ e. ground (arith, differs, ap is_deposit e))
              (build_deposit_records-AreDepositsOf logs {ds = ds} (rw differs at h))
        | inl same ↦
            let (d, made, h₁) =
              then_ok-ok (deposit_record codec deposit_address log) _ {b = ds} (rw same at h) in
            let (rest, built, h₂) =
              then_ok-ok (build_deposit_records codec deposit_address logs) _ {b = ds} h₁ in
            subst (AreDepositsOf (log ∷ logs)) (ok_injective h₂) (
              recorded log d (is_deposit-deposit log.type same)
                (deposit_record-IsDepositOf log {d = d} made)
                (build_deposit_records-AreDepositsOf logs {ds = rest} built))
      ]
