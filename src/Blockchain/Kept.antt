-- ===== src/Blockchain/Kept.antt =====
-- Lemmas on blockchain/client.go: its requests leave the table in order.
use crynux_relay_wallet.Base.{
  ℕ, String, ◌≡◌, refl, sym, Bool, true, false, Option, none, some, if◌then◌else◌,
}
use crynux_relay_wallet.Models.Transaction.{BlockchainTransaction}
use crynux_relay_wallet.World.{Db, World, Result, ok, err, Action, pure, raise, ◌>>=◌, ◌>>◌}
use crynux_relay_wallet.World.Keeps.{
  Keeps, Keeps-pure, Keeps-raise, Keeps-gets, Keeps-bind, Keeps-then, Keeps-if,
}
use crynux_relay_wallet.Int.{ℤ}
use crynux_relay_wallet.Transactions.Queries.{Transactions}
use crynux_relay_wallet.Transactions.Runs.{run_quiet, run-GrownFrom_from}
use crynux_relay_wallet.Transactions.Table.{GrownFrom}
use crynux_relay_wallet.Blockchain.Node.{
  TransactionReceipt, is_not_found, TransactionTransfer, Node, Codec, ask,
}
use crynux_relay_wallet.Blockchain.Client.{
  Clients, the_big_int, BlockchainClient, init_nonce, get_nonce, store_nonce, forget_nonce,
  process_sending_tx_error, token_balance_at, get_transaction_transfer,
  get_error_message_from_transaction, match_nonce_error, advance_nonce_past,
}
use crynux_relay_wallet.FeeLog.Accounts.{lift}
use mathlib.Core.Path.{subst}
use crynux_relay_wallet.Blockchain.Confirmer.{attempted}
use crynux_relay_wallet.Transactions.Methods.{mark_sent-Keeps}
use crynux_relay_wallet.Blockchain.Sender.{
  advance, is_transaction_visible_on_chain, mark_broadcast_acknowledged,
}
use crynux_relay_wallet.Errors.{Error}

-- An action that writes to no table and tells nobody.
pub Keeps-silent :
    {A : Type 0} {P : Db → Type 0} (m : Action A)
    → ((w : World) → (m w).1.db ≡ w.db)
    → ((w : World) → (m w).1.sent ≡ w.sent)
    → Keeps P m
Keeps-silent {P} m same quiet = record { at = λ w h. subst P (sym (same w)) h; quiet = quiet }

pub Keeps-given : {A : Type 0} {P : Db → Type 0} (r : Result A) → Keeps P (lift r)
Keeps-given r = Keeps-silent (lift r) (λ w. refl) (λ w. refl)

pub Keeps-attempted :
    {A : Type 0} {P : Db → Type 0} {m : Action A} → Keeps P m → Keeps P (attempted m)
Keeps-attempted k = record { at = k.at; quiet = k.quiet }

pub advance_nonce_past-Keeps :
    (old : Transactions) (network : String) (nonce : ℤ)
    → Keeps (GrownFrom old) (advance_nonce_past network nonce)
unfolding advance_nonce_past
advance_nonce_past-Keeps old network nonce =
    Keeps-silent (advance_nonce_past network nonce) (λ w. refl) (λ w. refl)

module _ (old : Transactions) (node : Node) where
  pub Keeps-ask : {A : Type 0} (answer : World → Result A) → Keeps (GrownFrom old) (ask node answer)
  unfolding ask
  Keeps-ask answer = record {
    at = λ w. run-GrownFrom_from old (node.meanwhile w) w;
    quiet = λ w. run_quiet (node.meanwhile w) w;
  }

  module _ (codec : Codec) (client : BlockchainClient) where
    pub get_error_message-Keeps :
        (tx : BlockchainTransaction) (block : ℕ)
        → Keeps (GrownFrom old) (get_error_message_from_transaction node codec client tx block)
    unfolding get_error_message_from_transaction
    get_error_message-Keeps tx block =
        Keeps-bind (Keeps-given _) λ msg. Keeps-bind (Keeps-ask _) λ result. Keeps-given _

    pub get_transaction_transfer-Keeps :
        (tx_hash : String)
        → Keeps (GrownFrom old) (get_transaction_transfer node codec client tx_hash)
    unfolding get_transaction_transfer
    get_transaction_transfer-Keeps tx_hash = Keeps-bind (Keeps-ask _) λ raw. Keeps-given _

    pub token_balance_at-Keeps :
        (token address : String)
        → Keeps (GrownFrom old) (token_balance_at node codec client token address)
    unfolding token_balance_at
    token_balance_at-Keeps token address =
        Keeps-bind (Keeps-given (codec.pack_balance_of address)) λ bytes.
          Keeps-bind (Keeps-ask (λ w. node.wait w client.network)) λ _.
            Keeps-bind (Keeps-ask _) λ result.
              Keeps-bind (Keeps-given (codec.unpack_balance_of result))
                λ values. Keeps-given (the_big_int node codec values)

    pub get_nonce-Keeps : Keeps (GrownFrom old) (get_nonce node codec client)
    unfolding get_nonce init_nonce
    get_nonce-Keeps = Keeps-bind (Keeps-gets _) go
      where
        go :
            (known : Option ℕ)
            → Keeps (GrownFrom old) (elim known as (λ _. Action ℕ) [
              | some n ↦ pure n
              | none ↦ (do
                n ← init_nonce node codec client.network client.address
                store_nonce client.network n
                pure n)
            ])
        go (some n) = Keeps-pure n
        go none = Keeps-bind (Keeps-ask _) λ n.
            Keeps-then (Keeps-silent (store_nonce client.network n) (λ w. refl) (λ w. refl))
              (Keeps-pure n)

    pub process_sending_tx_error-Keeps :
        (e : Error) → Keeps (GrownFrom old) (process_sending_tx_error node codec client e)
    unfolding process_sending_tx_error forget_nonce
    process_sending_tx_error-Keeps e =
        Keeps-if (match_nonce_error (codec.error_text e))
          (Keeps-silent (forget_nonce client.network) (λ w. refl) (λ w. refl)) (Keeps-pure tt)

module _ (node : Node) (codec : Codec) (clients : Clients) (client : BlockchainClient) where
  pub visible-Keeps :
      (rows : Transactions) (tx_hash : String)
      → Keeps (GrownFrom rows) (is_transaction_visible_on_chain node codec clients client tx_hash)
  unfolding is_transaction_visible_on_chain
  visible-Keeps rows tx_hash =
      Keeps-bind
        (Keeps-attempted
          {m = ask node (λ w. node.receipt_of w client.network (codec.hash_hex tx_hash))}
          (Keeps-ask rows node _))
        by_receipt
    where
      by_transfer :
          (r : Result TransactionTransfer)
          → Keeps (GrownFrom rows) (elim r as (λ _. Action Bool) [
            | ok _ ↦ pure true
            | err e' ↦ (if is_not_found e' then pure false else raise e')
          ])
      by_transfer (ok _) = Keeps-pure true
      by_transfer (err e) = Keeps-if (is_not_found e) (Keeps-pure false) (Keeps-raise e)

      by_receipt :
          (r : Result TransactionReceipt)
          → Keeps (GrownFrom rows) (elim r as (λ _. Action Bool) [
            | ok _ ↦ pure true
            | err e ↦
                (if is_not_found e
                  then (do
                    transfer ←
                        attempted
                          (get_transaction_transfer node codec client (codec.hash_hex tx_hash))
                    elim transfer [
                      | ok _ ↦ pure true
                      | err e' ↦ (if is_not_found e' then pure false else raise e')
                    ])
                  else raise e)
          ])
      by_receipt (ok _) = Keeps-pure true
      by_receipt (err e) =
          Keeps-if (is_not_found e)
            (Keeps-bind (Keeps-attempted (get_transaction_transfer-Keeps rows node codec client _))
              by_transfer)
            (Keeps-raise e)

  pub acknowledged-Keeps :
      (rows : Transactions) (tx : BlockchainTransaction)
      → Keeps (GrownFrom rows) (mark_broadcast_acknowledged node codec clients client tx)
  unfolding mark_broadcast_acknowledged
  acknowledged-Keeps rows tx =
      Keeps-bind (mark_sent-Keeps rows tx) λ marked. Keeps-if _ (Keeps-raise _) (go marked.1.nonce)
    where
      go : (nonce : Option ℤ) → Keeps (GrownFrom rows) (advance node codec clients client nonce)
      go none = Keeps-pure tt
      go (some nonce) = advance_nonce_past-Keeps rows client.network nonce
