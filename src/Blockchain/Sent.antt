-- ===== src/Blockchain/Sent.antt =====
-- Lemmas on blockchain/transaction_sender.go: what the send of a transaction does and tells.
use crynux_relay_wallet.Base.{String, ap, ◌∙◌, Bool, List, [], ◌∷◌, ◌++◌, if◌then◌else◌, All}
use crynux_relay_wallet.Models.Transaction.{BlockchainTransaction}
use crynux_relay_wallet.World.{
  World, Result, ok, err, Action, pure, raise, ◌>>=◌, ◌>>◌, Message, alert,
}
use crynux_relay_wallet.Transactions.Queries.{Transactions}
use crynux_relay_wallet.World.Keeps.{Keeps-raise, Keeps-then}
use crynux_relay_wallet.Blockchain.Node.{Node, Codec, ask, SignedTransaction}
use crynux_relay_wallet.Blockchain.Client.{
  is_already_known_transaction_error, process_sending_tx_error, BlockchainClient, Clients, submit,
  send_signed_raw_transaction,
}
use crynux_relay_wallet.Blockchain.Sender.{
  alert_operators, broadcast_and_mark, is_transaction_visible_on_chain, mark_broadcast_acknowledged,
}
use crynux_relay_wallet.Blockchain.Confirmer.{attempted}
use crynux_relay_wallet.Blockchain.Kept.{
  visible-Keeps, acknowledged-Keeps, process_sending_tx_error-Keeps, Keeps-given, Keeps-ask,
}
use crynux_relay_wallet.Blockchain.Backed.{
  Backed, Sound, Preserves, Preserves-Keeps, Preserves-pure, Preserves-raise, Preserves-bind,
  Preserves-if, Preserves-attempted,
}
use crynux_relay_wallet.Withdraw.Chains.{send}
use crynux_relay_wallet.World.{broadcast}
use crynux_relay_wallet.FeeLog.Accounts.{lift}
use mathlib.Core.List.{append_assoc}
use crynux_relay_wallet.Errors.{Error}

All-append :
    {A : Type 0} (P : A → Type 0) (xs : List A) (x : A) → All P xs → P x → All P (xs ++ x ∷ [])
All-append P [] x h p = (p, tt)
All-append P (y ∷ xs) x (h, hs) p = (h, All-append P xs x hs p)

module _ {old : Transactions} {base : List Message} where
  -- A message that is backed.
  said :
      (raws : List String) (message : Message) (w : World)
      → Sound old base raws w
      → Backed w.db.transactions message
      → Sound old base raws (send message w)
  said raws message w s b = record {
    grown = s.grown;
    more = s.more ++ message ∷ [];
    told = ap (λ xs. xs ++ message ∷ []) s.told ∙ append_assoc base s.more (message ∷ []);
    backed = All-append (Backed w.db.transactions) s.more message s.backed b;
    at_hand = s.at_hand;
  }

  pub alert_operators-Preserves :
      (raws : List String) → Preserves (Sound old base raws) alert_operators
  alert_operators-Preserves raws = record { at = λ w s. said raws alert w s tt }

  module _ (node : Node) (codec : Codec) (client : BlockchainClient) where
    submit-Preserves :
        (raw : String) (signed : SignedTransaction)
        → Preserves (Sound old base (raw ∷ [])) (submit node codec client.network raw signed)
    unfolding submit
    submit-Preserves raw signed = record {
      at = λ w s.
          (Preserves-Keeps {m = ask node (λ w. ok (node.submit w client.network signed))}
              (λ rows. Keeps-ask rows node _)).at
            (send (broadcast client.network raw) w)
            (said (raw ∷ []) (broadcast client.network raw) w s s.at_hand.0);
    }

    send_signed-Preserves :
        (raw : String)
        → Preserves (Sound old base (raw ∷ [])) (send_signed_raw_transaction node codec client raw)
    unfolding send_signed_raw_transaction
    send_signed-Preserves raw =
        Preserves-bind (Preserves-Keeps {m = lift (codec.decode_hex raw)} λ rows. Keeps-given _)
          λ bytes.
            Preserves-bind
              (Preserves-Keeps {m = lift (codec.unmarshal bytes)} λ rows. Keeps-given _)
              λ signed.
                Preserves-bind
                  (Preserves-Keeps {m = ask node (λ w. node.wait w client.network)}
                    λ rows. Keeps-ask rows node _)
                  λ _. Preserves-bind (submit-Preserves raw signed) (go signed)
      where
        go :
            (signed : SignedTransaction) (answer : Result (Unit {0}))
            → Preserves
                (Sound old base (raw ∷ []))
                (elim answer as (λ _. Action SignedTransaction) [
                  | ok _ ↦ pure signed
                  | err e ↦ (process_sending_tx_error node codec client e >> raise e)
                ])
        go signed (ok _) = Preserves-pure signed
        go signed (err e) = Preserves-Keeps λ rows.
            Keeps-then (process_sending_tx_error-Keeps rows node codec client e) (Keeps-raise e)

  module _ (node : Node) (codec : Codec) (clients : Clients) (client : BlockchainClient) where
    pub broadcast_and_mark-Preserves :
        (otherwise : Error → Error → Error) (tx : BlockchainTransaction) (tx_hash raw : String)
        → Preserves
            (Sound old base (raw ∷ []))
            (broadcast_and_mark node codec clients otherwise client tx tx_hash raw)
    broadcast_and_mark-Preserves otherwise tx tx_hash raw =
        Preserves-bind (Preserves-attempted (send_signed-Preserves node codec client raw)) by_answer
      where
        mark :
            Preserves
              (Sound old base (raw ∷ []))
              (mark_broadcast_acknowledged node codec clients client tx)
        mark = Preserves-Keeps λ rows. acknowledged-Keeps node codec clients client rows tx

        by_sight :
            (e : Error) (r : Result Bool)
            → Preserves (Sound old base (raw ∷ [])) (elim r as (λ _. Action (Unit {0})) [
              | err e' ↦ raise (otherwise e e')
              | ok b ↦
                  (if b then mark_broadcast_acknowledged node codec clients client tx else raise e)
            ])
        by_sight e (err e') = Preserves-raise _
        by_sight e (ok b) = Preserves-if b mark (Preserves-raise e)

        by_answer :
            (r : Result SignedTransaction)
            → Preserves (Sound old base (raw ∷ [])) (elim r as (λ _. Action (Unit {0})) [
              | ok _ ↦ mark_broadcast_acknowledged node codec clients client tx
              | err e ↦
                  (if is_already_known_transaction_error (codec.error_text e)
                    then mark_broadcast_acknowledged node codec clients client tx
                    else (do
                      visible ←
                          attempted
                            (is_transaction_visible_on_chain node codec clients client tx_hash)
                      elim visible [
                        | err e' ↦ raise (otherwise e e')
                        | ok b ↦
                            (if b
                              then mark_broadcast_acknowledged node codec clients client tx
                              else raise e)
                      ]))
            ])
        by_answer (ok _) = mark
        by_answer (err e) =
            Preserves-if (is_already_known_transaction_error (codec.error_text e)) mark (
              Preserves-bind
                (Preserves-attempted
                  (Preserves-Keeps λ rows. visible-Keeps node codec clients client rows tx_hash))
                (by_sight e))
