-- ===== src/FeeLog/Paid.antt =====
-- Lemmas on validateDepositLog of tasks/sync_task_fee_logs.go: what it has read when it accepts.
use crynux_relay_wallet.Base.{
  List, [], ◌∷◌, ◌++◌, ap, ◌∙◌, eq_iff, length, ℕ, ◌+◌, ◌%◌, ◌^◌, ◌≤◌, String, ◌≡◌, refl, inl, inr,
  Bool, true, false, Option, none, some, arith, str_eq, if◌then◌else◌, Bool-cases, any,
}
use crynux_relay_wallet.Int.{ℤ, pos, eq_of_parts}
use crynux_relay_wallet.World.{Result, ok, err}
use crynux_relay_wallet.Config.{BlockchainConfig, AppConfig, blockchain_of}
use crynux_relay_wallet.Errors.{blockchain_not_found}
use crynux_relay_wallet.Text.{parse_int, equal_fold}
use crynux_relay_wallet.FeeLog.Types.{TaskFeeLog}
use crynux_relay_wallet.FeeLog.Deposits.{
  DepositPayload, DepositCodec, ◌then_ok◌, parse_deposit_payload,
}
use crynux_relay_wallet.FeeLog.Validation.{
  ReceiptLog, is_address, is_number, is_nil, has_topics, Receipt, Transfer, Answer, found,
  not_found, failed, Chain, answered, matching, block_of, header_time, number_of, configured,
  check_age, is_native_deposit, validate_native_deposit_log, is_erc20_deposit,
  validate_erc20_deposit_log, validate_by_token, validate_deposit_log,
}

pub then_ok-ok :
    {A B : Type 0} (r : Result A) (f : A → Result B) {b : B}
    → r then_ok f ≡ ok b
    → (a : A) × (r ≡ ok a) × (f a ≡ ok b)
then_ok-ok (ok a) f h = (a, refl, h)
then_ok-ok (err e) f h = cc

answered-ok : {A : Type 0} (x : Answer A) {a : A} → answered x ≡ ok a → x ≡ found a
answered-ok (found a) h = cc
answered-ok not_found h = cc
answered-ok failed h = cc

matching-ok : (b : Bool) {u : Unit {0}} → matching b ≡ ok u → b ≡ true
matching-ok true h = refl
matching-ok false h = cc

block_of-ok : (o : Option ℕ) {n : ℕ} → block_of o ≡ ok n → o ≡ some n
block_of-ok none h = cc
block_of-ok (some n) h = cc

module _ (chain : Chain) (app : AppConfig) (now : ℕ) where
  -- The block of the receipt is known, and not older than a deposit may be.
  pub record IsRecent (network : String) (receipt : Receipt) : Type 0 where
    pub block : ℕ
    pub time : ℕ
    pub in_block : receipt.block_number ≡ some block
    pub at_time : chain.block_time network block ≡ found time
    pub not_old : now ≤ (time + app.deposit_max_age_seconds) % 2 ^ 64

  -- The two ways to pay: a plain transfer of the amount, or an event of the token's contract.
  pub data IsPaidBy (network tx_hash : String) (receipt : Receipt) (log : TaskFeeLog) (amount : ℤ)
      (config : BlockchainConfig) : Type 0 where
    by_transfer :
        (transfer : Transfer) (to : String) (n : ℕ)
        → config.token_type ≡ "native"
        → chain.transfer_of network tx_hash ≡ found transfer
        → transfer.to ≡ some to
        → equal_fold to app.deposit_address ≡ true
        → equal_fold transfer.from log.address ≡ true
        → transfer.value ≡ some n
        → pos n ≡ amount
        → transfer.input ≡ []
        → IsPaidBy network tx_hash receipt log amount config
    by_event :
        (front back : List ReceiptLog) (event : ReceiptLog) (from : String)
        → config.token_type ≡ "erc20"
        → receipt.logs ≡ front ++ event ∷ back
        → equal_fold event.address config.token_address ≡ true
        → event.topics ≡ chain.transfer_topic ∷ from ∷ chain.address_topic app.deposit_address ∷ []
        → equal_fold (chain.topic_address from) log.address ≡ true
        → length event.bytes ≡ 32
        → pos (chain.set_bytes event.bytes) ≡ amount
        → IsPaidBy network tx_hash receipt log amount config

  pub record IsPaid (codec : DepositCodec) (log : TaskFeeLog) : Type 0 where
    pub amount : ℤ
    pub payload : DepositPayload
    pub receipt : Receipt
    pub config : BlockchainConfig
    pub of_amount : parse_int log.amount ≡ some amount
    pub of_payload : parse_deposit_payload codec log ≡ ok payload
    pub of_receipt :
        chain.receipt_of payload.network (codec.hash_hex payload.tx_hash) ≡ found receipt
    pub succeeded : receipt.is_successful ≡ true
    pub of_config : blockchain_of payload.network app.blockchains ≡ some config
    pub paid_by :
        IsPaidBy payload.network (codec.hash_hex payload.tx_hash) receipt log amount config
    pub recent : IsRecent payload.network receipt

  header_time-ok : (x : Answer ℕ) {t : ℕ} → header_time chain app now x ≡ ok t → x ≡ found t
  header_time-ok (found t) h = cc
  header_time-ok not_found h = cc
  header_time-ok failed h = cc

  number_of-ok : (o : Option ℤ) {n : ℤ} → number_of chain app now o ≡ ok n → o ≡ some n
  number_of-ok none h = cc
  number_of-ok (some n) h = cc

  configured-ok :
      (o : Option BlockchainConfig) {c : BlockchainConfig}
      → configured chain app now o ≡ ok c
      → o ≡ some c
  configured-ok none h = cc
  configured-ok (some c) h = cc

  check_age-IsRecent :
      (network : String) (receipt : Receipt)
      → check_age chain app now network receipt ≡ ok tt
      → IsRecent network receipt
  unfolding check_age
  check_age-IsRecent network receipt h =
      let (block, in_block, h₁) = then_ok-ok (block_of receipt.block_number) _ {b = tt} h in
      let (time, at_time, h₂) =
        then_ok-ok (header_time chain app now (chain.block_time network block)) _ {b = tt} h₁ in
      record {
        block = block;
        time = time;
        in_block = block_of-ok receipt.block_number {n = block} in_block;
        at_time = header_time-ok (chain.block_time network block) {t = time} at_time;
        not_old = ground arith;
      }

  is_address-ok :
      (o : Option String) (address : String)
      → is_address o address ≡ true
      → (to : String) × (o ≡ some to) × (equal_fold to address ≡ true)
  is_address-ok none address h = cc
  is_address-ok (some to) address h = (to, refl, h)

  is_number-ok :
      (o : Option ℕ) (amount : ℤ)
      → is_number o amount ≡ true
      → (n : ℕ) × (o ≡ some n) × (pos n ≡ amount)
  is_number-ok none amount h = cc
  is_number-ok (some n) amount h = (n, refl, eq_of_parts (pos n) amount (ground arith))

  is_nil-ok : (bytes : List ℕ) → is_nil bytes ≡ true → bytes ≡ []
  is_nil-ok [] h = refl
  is_nil-ok (b ∷ bytes) h = cc

  native-paid :
      (network tx_hash : String) (receipt : Receipt) (log : TaskFeeLog) (amount : ℤ)
      (config : BlockchainConfig) (transfer : Transfer)
      → str_eq config.token_type "native" ≡ true
      → chain.transfer_of network tx_hash ≡ found transfer
      → is_native_deposit chain app now log amount transfer ≡ true
      → IsPaidBy network tx_hash receipt log amount config
  unfolding is_native_deposit
  native-paid network tx_hash receipt log amount config transfer native sent fits =
      let (to, is_to, of_to) = is_address-ok transfer.to app.deposit_address (ground arith) in
      let (n, is_value, of_value) = is_number-ok transfer.value amount (ground arith) in
      by_transfer transfer to n ((eq_iff config.token_type "native").0 native) sent is_to of_to
        (ground arith) is_value of_value (is_nil-ok transfer.input (ground arith))

  has_topics-ok :
      (log : TaskFeeLog) (topics : List String)
      → has_topics chain app now log topics ≡ true
      → (from : String) × (topics
          ≡ chain.transfer_topic ∷ from ∷ chain.address_topic app.deposit_address ∷ [])
        × (equal_fold (chain.topic_address from) log.address ≡ true)
  has_topics-ok log [] h = cc
  has_topics-ok log (event ∷ []) h = cc
  has_topics-ok log (event ∷ from ∷ []) h = cc
  has_topics-ok log (event ∷ from ∷ to ∷ []) h =
      let is_event : event ≡ chain.transfer_topic =
        ground (arith, eq_iff event chain.transfer_topic) in
      let is_to : to ≡ chain.address_topic app.deposit_address =
        ground (arith, eq_iff to (chain.address_topic app.deposit_address)) in
      (
        from,
        ap (λ x. x ∷ from ∷ to ∷ []) is_event
            ∙ ap (λ x. chain.transfer_topic ∷ from ∷ x ∷ []) is_to,
        ground arith,
      )
  has_topics-ok log (event ∷ from ∷ to ∷ more ∷ rest) h = cc

  -- The event that the loop has found.
  any-found :
      (p : ReceiptLog → Bool) (events : List ReceiptLog)
      → any p events ≡ true
      → (front back : List ReceiptLog) × (event : ReceiptLog) × (events ≡ front ++ event ∷ back)
        × (p event ≡ true)
  any-found p [] h = cc
  any-found p (e ∷ events) h = elim (Bool-cases (p e)) [
    | inl here ↦ ([], events, e, refl, here)
    | inr away ↦
        let (front, back, event, split, fits) = any-found p events (ground (arith, away)) in
        (e ∷ front, back, event, ap (λ l. e ∷ l) split, fits)
  ]

  erc20-paid :
      (network tx_hash : String) (receipt : Receipt) (log : TaskFeeLog) (amount : ℤ)
      (config : BlockchainConfig)
      → str_eq config.token_type "erc20" ≡ true
      → any (is_erc20_deposit chain app now config.token_address log amount) receipt.logs ≡ true
      → IsPaidBy network tx_hash receipt log amount config
  unfolding is_erc20_deposit
  erc20-paid network tx_hash receipt log amount config erc20 fits =
      let (front, back, event, split, fit) =
        any-found (is_erc20_deposit chain app now config.token_address log amount) receipt.logs
          fits in
      let (from, topics, sender) = has_topics-ok log event.topics (ground arith) in
      by_event front back event from ((eq_iff config.token_type "erc20").0 erc20) split
        (ground arith) topics sender (ground arith)
        (eq_of_parts (pos (chain.set_bytes event.bytes)) amount (ground arith))

  validate_by_token-paid :
      (network tx_hash : String) (receipt : Receipt) (log : TaskFeeLog) (amount : ℤ)
      (config : BlockchainConfig)
      → validate_by_token chain app now network receipt tx_hash log amount config ≡ ok tt
      → IsPaidBy network tx_hash receipt log amount config × IsRecent network receipt
  unfolding validate_by_token validate_native_deposit_log validate_erc20_deposit_log
  validate_by_token-paid network tx_hash receipt log amount config h =
      elim (Bool-cases (str_eq config.token_type "native")) [
        | inl native ↦
            let (transfer, sent, h₁) =
              then_ok-ok (answered (chain.transfer_of network tx_hash)) _ {b = tt}
                (rw native at h) in
            let (u, fits, h₂) =
              then_ok-ok (matching (is_native_deposit chain app now log amount transfer)) _ {b = tt}
                h₁ in
            (
              native-paid network tx_hash receipt log amount config transfer native
                  (answered-ok (chain.transfer_of network tx_hash) {a = transfer} sent)
                  (matching-ok _ {u = u} fits),
              check_age-IsRecent network receipt h₂,
            )
        | inr other ↦
            let erc20 : str_eq config.token_type "erc20" ≡ true = ground arith in
            let event : any (is_erc20_deposit chain app now config.token_address log amount)
                  receipt.logs
                ≡ true =
              ground arith in
            (
              erc20-paid network tx_hash receipt log amount config erc20 event,
              check_age-IsRecent network receipt (ground arith),
            )
      ]

  -- When a deposit log is accepted, its transaction is on chain and succeeded in a block that is not
  -- older than allowed, and it paid the amount of the log from the address of the log to the deposit
  -- address: on a network whose token is native by a plain transfer without input, and otherwise by an
  -- event Transfer of the configured token's contract.
  pub validate_deposit_log-IsPaid :
      (codec : DepositCodec) (log : TaskFeeLog)
      → validate_deposit_log chain app now codec log ≡ ok tt
      → IsPaid codec log
  unfolding validate_deposit_log
  validate_deposit_log-IsPaid codec log h =
      let (amount, numbered, h₁) =
        then_ok-ok (number_of chain app now (parse_int log.amount)) _ {b = tt} h in
      let (payload, parsed, h₂) = then_ok-ok (parse_deposit_payload codec log) _ {b = tt} h₁ in
      let (u, client, h₃) =
        then_ok-ok (if chain.has_client payload.network then ok tt else err blockchain_not_found) _
          {b = tt} h₂ in
      let hash : String = codec.hash_hex payload.tx_hash in
      let (receipt, received, h₄) =
        then_ok-ok (answered (chain.receipt_of payload.network hash)) _ {b = tt} h₃ in
      let (v, successful, h₅) = then_ok-ok (matching receipt.is_successful) _ {b = tt} h₄ in
      let (config, known, h₆) =
        then_ok-ok (configured chain app now (blockchain_of payload.network app.blockchains)) _
          {b = tt} h₅ in
      let (paid_by, recent) =
        validate_by_token-paid payload.network hash receipt log amount config h₆ in
      record {
        amount = amount;
        payload = payload;
        receipt = receipt;
        config = config;
        of_amount = number_of-ok (parse_int log.amount) {n = amount} numbered;
        of_payload = parsed;
        of_receipt = answered-ok (chain.receipt_of payload.network hash) {a = receipt} received;
        succeeded = matching-ok receipt.is_successful {u = v} successful;
        of_config =
            configured-ok (blockchain_of payload.network app.blockchains) {c = config} known;
        paid_by = paid_by;
        recent = recent;
      }
