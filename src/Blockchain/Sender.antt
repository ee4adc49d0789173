-- ===== src/Blockchain/Sender.antt =====
-- blockchain/transaction_sender.go: the send of one transaction from the queue, and the queue. One
-- goroutine sends, so that NonceMu is never contended.
use crynux_relay_wallet.Base.{
  ℕ, String, Bool, true, false, not, ◌&&◌, ◌||◌, Option, none, some, ltb, leb, if◌then◌else◌,
  is_some,
}
use crynux_relay_wallet.Models.Transaction.{
  TransactionStatus, status_eq, BlockchainTransaction, is_text,
}
use crynux_relay_wallet.World.{ok, err, Action, pure, raise, ◌>>=◌, ◌>>◌, done, alert}
use crynux_relay_wallet.Transactions.Queries.{
  sync, get_sent_transaction_count_by_network, get_broadcasting_transaction_count_by_network,
}
use crynux_relay_wallet.Transactions.Updates.{
  now, mark_sent, claim_for_sending, release_sending, prepare_broadcast,
}
use crynux_relay_wallet.Int.{ℤ}
use crynux_relay_wallet.Blockchain.Node.{Node, Codec, ask, is_not_found, int64_of}
use crynux_relay_wallet.Blockchain.Client.{
  BlockchainClient, Clients, get_blockchain_client, get_nonce, advance_nonce_past,
  process_sending_tx_error, send_signed_raw_transaction, encode_signed_raw_transaction,
  get_transaction_transfer, is_already_known_transaction_error,
}
use crynux_relay_wallet.Blockchain.Gas.{build_signed_transaction}
use crynux_relay_wallet.Blockchain.Confirmer.{attempted}
use crynux_relay_wallet.FeeLog.Accounts.{lift}
use crynux_relay_wallet.Withdraw.Chains.{send}
use crynux_relay_wallet.Errors.{
  Error, retry_ancestors_unsafe, native_balance_insufficient, erc20_balance_insufficient,
  gas_fee_insufficient, broadcast_payload_missing, not_marked_sent,
}
use crynux_relay_wallet.Config.{AppConfig}

abbrev pub alert_operators : Action (Unit {0})
alert_operators w = (ok tt, send alert w)

-- What a function does about an error of its step before it returns it.
abbrev pub on_error : {A : Type 0} → Action A → (Error → Action (Unit {0})) → Action A
on_error m handle = do r ← attempted m; elim r [ ok a ↦ pure a | err e ↦ (handle e >> raise e) ]

-- The error of a step that is only logged.
abbrev pub ignoring : {A : Type 0} → Action A → Action (Unit {0})
ignoring m = attempted m >>= λ _. done

unfoldable pub is_hot_wallet_balance_error : Error → Bool
is_hot_wallet_balance_error (native_balance_insufficient network balance needed) = true
is_hot_wallet_balance_error (erc20_balance_insufficient network balance needed) = true
is_hot_wallet_balance_error (gas_fee_insufficient network balance needed) = true
is_hot_wallet_balance_error _ = false

abbrev pub is_ancestors_unsafe : Error → Bool
is_ancestors_unsafe retry_ancestors_unsafe = true
is_ancestors_unsafe _ = false

module _ (node : Node) (codec : Codec) (clients : Clients) where
  unfoldable pub alert_hot_wallet_balance_error : BlockchainTransaction → Error → Action (Unit {0})
  unfolding is_hot_wallet_balance_error
  alert_hot_wallet_balance_error tx e =
      if not (is_hot_wallet_balance_error e)
      then done
      else if is_text tx.status_message (codec.error_text e)
      then done
      else alert_operators

  unfoldable pub is_transaction_visible_on_chain : BlockchainClient → String → Action Bool
  unfolding get_transaction_transfer
  is_transaction_visible_on_chain client tx_hash = do
    receipt ← attempted (ask node (λ w. node.receipt_of w client.network (codec.hash_hex tx_hash)))
    elim receipt [
      | ok _ ↦ pure true
      | err e ↦
          (if is_not_found e
            then (do
              transfer ←
                  attempted (get_transaction_transfer node codec client (codec.hash_hex tx_hash))
              elim transfer [
                | ok _ ↦ pure true
                | err e' ↦ (if is_not_found e' then pure false else raise e')
              ])
            else raise e)
    ]

  abbrev pub advance : BlockchainClient → Option ℤ → Action (Unit {0})
  advance client none = done
  advance client (some nonce) = advance_nonce_past client.network nonce

  unfoldable pub mark_broadcast_acknowledged :
      BlockchainClient → BlockchainTransaction → Action (Unit {0})
  unfolding advance_nonce_past
  mark_broadcast_acknowledged client tx = do
    marked ← mark_sent tx
    if not marked.0 && not (status_eq marked.1.status TransactionStatus.sent)
        then raise (not_marked_sent tx.id)
        else advance client marked.1.nonce

  -- SendSignedRawTransaction, and what a failure of it means: the transaction may be there all the same.
  -- `otherwise` is the error when the node does not say whether it is.
  abbrev pub broadcast_and_mark :
      (Error → Error → Error)
      → BlockchainClient
      → BlockchainTransaction
      → String
      → String
      → Action (Unit {0})
  broadcast_and_mark otherwise client tx tx_hash raw = do
    answer ← attempted (send_signed_raw_transaction node codec client raw)
    elim answer [
      | ok _ ↦ mark_broadcast_acknowledged client tx
      | err e ↦
          (if is_already_known_transaction_error (codec.error_text e)
            then mark_broadcast_acknowledged client tx
            else (do
              visible ← attempted (is_transaction_visible_on_chain client tx_hash)
              elim visible [
                | err e' ↦ raise (otherwise e e')
                | ok b ↦ (if b then mark_broadcast_acknowledged client tx else raise e)
              ]))
    ]

  abbrev pub text_of : Option String → String
  text_of none = ""
  text_of (some text) = text

  unfoldable pub acknowledge_broadcast :
      BlockchainClient → BlockchainTransaction → Action (Unit {0})
  unfolding send_signed_raw_transaction is_transaction_visible_on_chain mark_broadcast_acknowledged
      is_already_known_transaction_error
  acknowledge_broadcast client tx =
      broadcast_and_mark (λ e e'. e) client tx (text_of tx.tx_hash) (text_of tx.signed_raw_tx)

  unfoldable pub recover_broadcasting_transaction : BlockchainTransaction → Action (Unit {0})
  unfolding send_signed_raw_transaction is_transaction_visible_on_chain mark_broadcast_acknowledged
      is_already_known_transaction_error
  recover_broadcasting_transaction tx =
      if not (is_some tx.tx_hash && is_some tx.signed_raw_tx && is_some tx.nonce)
      then alert_operators >> raise (broadcast_payload_missing tx.id)
      else (do
        client ← lift (get_blockchain_client tx.network clients)
        visible ← is_transaction_visible_on_chain client (text_of tx.tx_hash)
        if visible
            then mark_broadcast_acknowledged client tx
            else broadcast_and_mark (λ e e'. e') client tx (text_of tx.tx_hash)
                (text_of tx.signed_raw_tx))

  -- A failure of a step gives the claimed row back.
  abbrev pub releasing : {A : Type 0} → BlockchainTransaction → Action A → Action A
  releasing tx m = on_error m (λ e. ignoring (release_sending tx (codec.error_text e)))

  abbrev pub on_build_error : BlockchainClient → BlockchainTransaction → Error → Action (Unit {0})
  on_build_error client tx e = do
    process_sending_tx_error node codec client e
    alert_hot_wallet_balance_error tx e
    ignoring (release_sending tx (codec.error_text e))

  module _ (app : AppConfig) where
    -- From the nonce on: sign, commit to the payload, and broadcast it.
    unfoldable pub sign_and_broadcast : BlockchainClient → BlockchainTransaction → Action (Unit {0})
    unfolding get_nonce build_signed_transaction encode_signed_raw_transaction acknowledge_broadcast
        alert_hot_wallet_balance_error
    sign_and_broadcast client tx = do
      nonce ← releasing tx (get_nonce node codec client)
      signed ←
          on_error (build_signed_transaction node codec app client tx nonce)
            (on_build_error client tx)
      raw ← releasing tx (lift (encode_signed_raw_transaction node codec signed))
      prepared ← releasing tx (prepare_broadcast tx (codec.hash_of signed) (int64_of nonce) raw)
      if prepared.0
          then acknowledge_broadcast client prepared.1
          else ignoring (release_sending prepared.1 "cancellation requested before broadcast")

    unfoldable pub send_claimed : BlockchainTransaction → Action (Unit {0})
    unfolding sign_and_broadcast get_blockchain_client
    send_claimed tx = do
      sent_count ← releasing tx (get_sent_transaction_count_by_network tx.network)
      client ← releasing tx (lift (get_blockchain_client tx.network clients))
      if leb client.sent_transaction_count_limit sent_count
          then release_sending tx "sent transaction count limit reached" >>= (λ _. done)
          else sign_and_broadcast client tx

    unfoldable pub claim_and_send : BlockchainTransaction → Action (Unit {0})
    unfolding send_claimed
    claim_and_send tx = do
      claimed ←
          on_error (claim_for_sending tx)
            (λ e. if is_ancestors_unsafe e then alert_operators else done)
      if claimed.0 then send_claimed claimed.1 else done

    -- `NextRetryAt` lies ahead.
    abbrev pub is_too_early : Option ℕ → ℕ → Bool
    is_too_early none time = false
    is_too_early (some next) time = ltb time next

    unfoldable pub send_pending : BlockchainTransaction → Action (Unit {0})
    unfolding claim_and_send now
    send_pending tx = do
      time ← now
      if is_too_early tx.next_retry_at time then done else (do
        broadcasting ← get_broadcasting_transaction_count_by_network tx.network
        if ltb 0 broadcasting then done else claim_and_send tx)

    unfoldable pub send_transaction : BlockchainTransaction → Action (Unit {0})
    unfolding recover_broadcasting_transaction send_pending
    send_transaction stale = do
      tx ← sync stale
      if status_eq tx.status TransactionStatus.broadcasting
          then recover_broadcasting_transaction tx
          else if not (status_eq tx.status TransactionStatus.pending)
          then done
          else if is_some tx.tx_hash || is_some tx.signed_raw_tx
          then done
          else send_pending tx
