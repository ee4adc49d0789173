-- ===== src/Blockchain/Confirmed.antt =====
-- Lemmas on blockchain/transaction_confirmer.go: what a confirmation does to the table.
use crynux_relay_wallet.Int.{ℤ}
use crynux_relay_wallet.Base.{
  ℕ, ◌+◌, ◌≤◌, String, ◌≡◌, refl, inl, inr, Bool, true, false, not, Option, none, some, ◌++◌, arith,
  ltb, if◌then◌else◌, Bool-cases, update_where,
}
use crynux_relay_wallet.Models.Transaction.{TransactionStatus, BlockchainTransaction}
use crynux_relay_wallet.World.{Db, World, Result, ok, err, Action, done}
use crynux_relay_wallet.Transactions.Rows.{
  at_status, set_confirmed, is_failable, set_failed, is_delayable, set_delayed,
}
use crynux_relay_wallet.Transactions.Queries.{Transactions}
use crynux_relay_wallet.Transactions.Updates.{now}
use crynux_relay_wallet.Transactions.Runs.{run, run-GrownFrom_from}
use crynux_relay_wallet.Transactions.Table.{GrownFrom, IsTable, Grows-refl}
use crynux_relay_wallet.Blockchain.Node.{
  Node, Codec, ask, is_not_found, uint64_of, int64_of, TransactionReceipt, Header,
}
use crynux_relay_wallet.Blockchain.Client.{
  BlockchainClient, Clients, get_blockchain_client, get_error_message_from_transaction,
}
use crynux_relay_wallet.Blockchain.Confirmer.{
  receipt_has_required_confirmations, handle_delayed_receipt, handle_successful_transaction,
  handle_failed_transaction, required, settle_receipt, await_receipt, confirm_by_hash,
  confirm_transaction,
}
use crynux_relay_wallet.Blockchain.Writes.{
  ends_bind, retries, marked_delayed, marked_confirmed, marked_failed,
}
use crynux_relay_wallet.FeeLog.Accounts.{lift}
use crynux_relay_wallet.Config.{BlockchainConfig, AppConfig, blockchain_of}
use crynux_relay_wallet.Blockchain.Kept.{get_error_message-Keeps}
use crynux_relay_wallet.Errors.{Error}

-- The receipt that the node has of the transaction, in a block with the configured confirmations.
pub record IsDeep (node : Node) (codec : Codec) (app : AppConfig) (tx : BlockchainTransaction)
    (receipt : TransactionReceipt) (block : ℕ) : Type 0 where
  pub asked : World
  pub later : World
  pub tx_hash : String
  pub latest : ℕ
  pub config : BlockchainConfig
  pub header : Header
  pub has_hash : tx.tx_hash ≡ some tx_hash
  pub answered : node.receipt_of asked tx.network (codec.hash_hex tx_hash) ≡ ok receipt
  pub in_block : receipt.block_number ≡ some block
  pub has_header : node.latest_header later tx.network ≡ ok header
  pub at_latest : header.number ≡ some latest
  pub configured : blockchain_of tx.network app.blockchains ≡ some config
  pub deep : uint64_of block + config.receipt_confirmation_blocks ≤ uint64_of latest

-- The node knows no receipt of the transaction.
pub record IsPending (node : Node) (codec : Codec) (tx : BlockchainTransaction) : Type 0 where
  pub asked : World
  pub tx_hash : String
  pub why : Error
  pub has_hash : tx.tx_hash ≡ some tx_hash
  pub answered : node.receipt_of asked tx.network (codec.hash_hex tx_hash) ≡ err why
  pub not_found : is_not_found why ≡ true

-- A row that is confirmed, and one that has failed.
abbrev pub confirmed_row : ℕ → ℤ → ℤ → String → BlockchainTransaction → BlockchainTransaction
confirmed_row time block gas_used price row = record row {
  status = TransactionStatus.confirmed;
  confirmed_at = some time;
  block_number = some block;
  gas_used = some gas_used;
  effective_gas_price = some price;
}

abbrev pub failed_row : ℕ → ℤ → ℤ → String → String → BlockchainTransaction → BlockchainTransaction
failed_row time block gas_used price message row = record row {
  status = TransactionStatus.failed;
  failed_at = some time;
  block_number = some block;
  gas_used = some gas_used;
  effective_gas_price = some price;
  status_message = some message;
}

-- How a confirmation changes the rows `old`, to which the next id is `next`.
pub data Confirmation (node : Node) (codec : Codec) (app : AppConfig) (tx : BlockchainTransaction)
    (old : Transactions) (next : ℕ) (new : Transactions) : Type 0 where
  unsettled : new ≡ old → Confirmation node codec app tx old next new
  delayed :
      IsPending node codec tx
      → new ≡ update_where (is_delayable tx.id) set_delayed old
      → Confirmation node codec app tx old next new
  confirmed :
      (receipt : TransactionReceipt) (block time : ℕ)
      → IsDeep node codec app tx receipt block
      → receipt.is_successful ≡ true
      → new
        ≡ update_where
            (at_status tx.id TransactionStatus.sent)
            (confirmed_row time
              (int64_of block)
              (int64_of receipt.gas_used)
              receipt.effective_gas_price)
            old
      → Confirmation node codec app tx old next new
  failed :
      (receipt : TransactionReceipt) (block time : ℕ) (message : String)
      → IsDeep node codec app tx receipt block
      → receipt.is_successful ≡ false
      → new
        ≡ update_where
            (is_failable tx.id)
            (failed_row time
              (int64_of block)
              (int64_of receipt.gas_used)
              receipt.effective_gas_price
              message)
            old
          ++ retries tx next old
      → Confirmation node codec app tx old next new

deep_enough :
    (latest block required : ℕ)
    → receipt_has_required_confirmations latest block required ≡ true
    → block + required ≤ latest
unfolding receipt_has_required_confirmations
deep_enough latest block required h = ground arith

module _ (node : Node) (codec : Codec) (clients : Clients) (app : AppConfig)
    (tx : BlockchainTransaction) (old : Transactions) where
  -- A table that the other tasks have led to, from which the rows are a confirmation.
  abbrev pub IsConfirmation : World → Type 0
  IsConfirmation w =
      (db : Db) × GrownFrom old db
      × Confirmation node codec app tx db.transactions db.next_transaction_id w.db.transactions

  required-some :
      {A : Type 0} (e : Error) (o : Option A) {a : A}
      → required node codec clients app e o ≡ ok a
      → o ≡ some a
  required-some e none h = cc
  required-some e (some a) h = cc

  nothing : (w : World) → GrownFrom old w.db → IsConfirmation w
  nothing w g = (w.db, g, unsettled refl)

  asked : (w : World) → GrownFrom old w.db → GrownFrom old (run (node.meanwhile w) w).db
  asked w g = run-GrownFrom_from old (node.meanwhile w) w g

  awaited :
      (config : BlockchainConfig) (sent_at : ℕ) (e : Error) (v : World) (tx_hash : String)
      (w : World)
      → tx.tx_hash ≡ some tx_hash
      → node.receipt_of v tx.network (codec.hash_hex tx_hash) ≡ err e
      → GrownFrom old w.db
      → IsConfirmation (await_receipt node codec clients app config tx sent_at e w).1
  unfolding await_receipt now
  awaited config sent_at e v tx_hash w h answered g = elim (Bool-cases (is_not_found e)) [
    | inr other ↦ rw other (nothing w g)
    | inl missing ↦ rw missing (late (ltb (sent_at + config.receipt_wait_time) w.clock) missing)
  ]
    where
      late :
          (b : Bool)
          → is_not_found e ≡ true
          → IsConfirmation ((if b then handle_delayed_receipt tx else done) w).1
      late false missing = nothing w g
      late true missing = elim (marked_delayed tx w) [
        | inl same ↦ (w.db, g, unsettled same)
        | inr written ↦ (
          w.db,
          g,
          delayed
              (record {
                asked = v;
                tx_hash = tx_hash;
                why = e;
                has_hash = h;
                answered = answered;
                not_found = missing;
              })
              written,
        )
      ]

  succeeded :
      (receipt : TransactionReceipt) (block : ℕ) (w : World)
      → IsDeep node codec app tx receipt block
      → receipt.is_successful ≡ true
      → GrownFrom old w.db
      → IsConfirmation (handle_successful_transaction tx receipt block w).1
  unfolding set_confirmed
  succeeded receipt block w deep good g = elim (marked_confirmed tx receipt block w) [
    | inl same ↦ (w.db, g, unsettled same)
    | inr written ↦ (w.db, g, confirmed receipt block w.clock deep good written)
  ]

  reverted :
      (client : BlockchainClient) (receipt : TransactionReceipt) (block : ℕ) (w : World)
      → IsDeep node codec app tx receipt block
      → receipt.is_successful ≡ false
      → GrownFrom old w.db
      → IsConfirmation
          (handle_failed_transaction node codec clients app client tx receipt block w).1
  unfolding handle_failed_transaction set_failed
  reverted client receipt block w deep bad g =
      let explained : World = (get_error_message_from_transaction node codec client tx block w).1 in
      let kept : GrownFrom old explained.db =
        (get_error_message-Keeps old node codec client tx block).at w g in
      elim (marked_failed app tx receipt block _ explained) [
        | inl same ↦ (explained.db, kept, unsettled same)
        | inr written ↦
            (explained.db, kept, failed receipt block explained.clock _ deep bad written)
      ]

  settled :
      (config : BlockchainConfig) (client : BlockchainClient) (receipt : TransactionReceipt)
      (v : World) (tx_hash : String) (w : World)
      → tx.tx_hash ≡ some tx_hash
      → node.receipt_of v tx.network (codec.hash_hex tx_hash) ≡ ok receipt
      → blockchain_of tx.network app.blockchains ≡ some config
      → GrownFrom old w.db
      → IsConfirmation (settle_receipt node codec clients app config client tx receipt w).1
  unfolding settle_receipt ask
  settled config client receipt v tx_hash w h answered configured g =
      ends_bind IsConfirmation (lift (required node codec clients app _ receipt.block_number) w) _
        (λ _ _. nothing w g)
        λ block in_block.
          ends_bind IsConfirmation (ask node (λ w. node.latest_header w tx.network) w) _
            (λ _ _. nothing later (asked w g))
            λ header has_header.
              ends_bind IsConfirmation
                (lift (required node codec clients app _ header.number) later) _
                (λ _ _. nothing later (asked w g))
                λ latest at_latest.
                  decided block _ receipt.is_successful
                    (λ deep. record {
                      asked = v;
                      later = w;
                      tx_hash = tx_hash;
                      latest = latest;
                      config = config;
                      header = header;
                      has_hash = h;
                      answered = answered;
                      in_block = required-some _ receipt.block_number in_block;
                      has_header = has_header;
                      at_latest = required-some _ header.number at_latest;
                      configured = configured;
                      deep = deep_enough (uint64_of latest) (uint64_of block) _ deep;
                    })
                    refl
    where
      later : World
      later = run (node.meanwhile w) w

      decided :
          (block : ℕ) (d b : Bool)
          → (d ≡ true → IsDeep node codec app tx receipt block)
          → receipt.is_successful ≡ b
          → IsConfirmation
              ((if not d
                  then done
                  else if b
                  then handle_successful_transaction tx receipt block
                  else handle_failed_transaction node codec clients app client tx receipt block)
                later).1
      decided block false b deep e = nothing later (asked w g)
      decided block true true deep e = succeeded receipt block later (deep refl) e (asked w g)
      decided block true false deep e =
          reverted client receipt block later (deep refl) e (asked w g)

  by_hash :
      (o : Option String) (sent : Option ℕ) (w : World)
      → tx.tx_hash ≡ o
      → GrownFrom old w.db
      → IsConfirmation (confirm_by_hash node codec clients app tx o sent w).1
  unfolding confirm_by_hash ask
  by_hash none sent w h g = nothing w g
  by_hash (some tx_hash) none w h g = nothing w g
  by_hash (some tx_hash) (some sent_at) w h g =
      ends_bind IsConfirmation
        (lift (required node codec clients app _ (blockchain_of tx.network app.blockchains)) w) _
        (λ _ _. nothing w g)
        λ config configured.
          ends_bind IsConfirmation (lift (get_blockchain_client tx.network clients) w) _
            (λ _ _. nothing w g)
            λ client _.
              answered config client
                (required-some _ (blockchain_of tx.network app.blockchains) configured) _ refl
    where
      answered :
          (config : BlockchainConfig) (client : BlockchainClient)
          → blockchain_of tx.network app.blockchains ≡ some config
          → (answer : Result TransactionReceipt)
          → node.receipt_of w tx.network (codec.hash_hex tx_hash) ≡ answer
          → IsConfirmation
              ((elim answer as (λ _. Action (Unit {0})) [
                | ok receipt ↦ settle_receipt node codec clients app config client tx receipt
                | err e ↦ await_receipt node codec clients app config tx sent_at e
              ])
                (run (node.meanwhile w) w)).1
      answered config client configured (ok receipt) e =
          settled config client receipt w tx_hash _ h e configured (asked w g)
      answered config client configured (err why) e =
          awaited config sent_at why w tx_hash _ h e (asked w g)

-- However the confirmation of a transaction ends: after calls of other tasks while the nodes answered,
-- the rows of the table are as those calls left them, or changed in one of three ways. Only if the node
-- has no receipt of the hash, the row, if sent, gets the message that it is delayed. Only if the node has
-- a receipt of success for the hash, with the configured confirmations, the row, if sent, becomes
-- confirmed. Only if it has such a receipt of failure, the row, if sent, becomes failed, and if it was and
-- attempts are left, exactly one retry is appended.
pub confirm_transaction-Confirmation :
    (node : Node) (codec : Codec) (clients : Clients) (app : AppConfig) (tx : BlockchainTransaction)
    (w : World)
    → IsTable w.db
    → (db : Db) × GrownFrom w.db.transactions db
      × Confirmation node codec app tx db.transactions db.next_transaction_id
          (confirm_transaction node codec clients app tx w).1.db.transactions
unfolding confirm_transaction
confirm_transaction-Confirmation node codec clients app tx w t =
    by_hash node codec clients app tx w.db.transactions tx.tx_hash tx.sent_at w refl
      (record { table = t; grown = Grows-refl w.db.transactions })
