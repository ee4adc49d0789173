-- ===== src/Blockchain/Broadcasts.antt =====
-- Lemmas on blockchain/transaction_sender.go: what the send of a transaction tells, as a whole.
use crynux_relay_wallet.Base.{
  ℕ, String, ◌≡◌, refl, sym, ap, ◌∙◌, inl, inr, Bool, true, false, not, ◌&&◌, ◌||◌, Option, none,
  some, List, [], ◌∷◌, ◌++◌, arith, ◌==◌, if◌then◌else◌, is_some, Bool-cases, Option-cases, All,
  find?,
}
use crynux_relay_wallet.Models.Transaction.{TransactionStatus, status_eq, BlockchainTransaction}
use crynux_relay_wallet.World.{World, ok, gets, ◌>>=◌, done, db_call, Message}
use crynux_relay_wallet.Transactions.Queries.{Transactions, sync, or_not_found, select_first}
use crynux_relay_wallet.Transactions.Table.{GrownFrom, IsTable, Grows-refl, row_at}
use crynux_relay_wallet.Transactions.Reads.{Keeps-sync}
use crynux_relay_wallet.Blockchain.Node.{Node, Codec}
use crynux_relay_wallet.Blockchain.Client.{Clients, get_blockchain_client}
use crynux_relay_wallet.Blockchain.Sender.{
  text_of, broadcast_and_mark, is_transaction_visible_on_chain, mark_broadcast_acknowledged,
  recover_broadcasting_transaction, send_pending, send_transaction,
}
use crynux_relay_wallet.Blockchain.Kept.{Keeps-given, visible-Keeps, acknowledged-Keeps}
use crynux_relay_wallet.Blockchain.Backed.{
  IsBacked-row, Backed, Sound, Preserves, Preserves-Keeps, Preserves-raise, Preserves-bind,
  Preserves-if,
}
use crynux_relay_wallet.Blockchain.Sent.{alert_operators-Preserves, broadcast_and_mark-Preserves}
use crynux_relay_wallet.Blockchain.Claimed.{with_payload, without_payload, send_pending-Preserves}
use crynux_relay_wallet.Blockchain.Writes.{ends_bind}
use crynux_relay_wallet.Config.{AppConfig}
use crynux_relay_wallet.FeeLog.Accounts.{lift}
use crynux_relay_wallet.World.Inversion.{bind-ok}
use crynux_relay_wallet.Errors.{broadcast_payload_missing}
use mathlib.Core.Path.{subst}
use mathlib.Core.List.{append-nil}

-- The row that Sync reads stands in the table at its id.
found_at :
    (b : Bool) (id : ℕ) (rows : Transactions) {tx : BlockchainTransaction}
    → find? (λ row. b || row.id == id) rows ≡ some tx
    → (row_at tx.id rows ≡ some tx) × ((b ≡ false) → tx.id ≡ id)
found_at b id [] e = cc
found_at true id (x ∷ rows) e = ground arith
found_at false id (x ∷ rows) {tx} e = elim (Bool-cases (x.id == id)) [
  | inl here ↦ ground arith
  | inr there ↦
      let (f, same) = found_at false id rows {tx = tx} (ground arith) in ground (arith, same refl)
]

or_found :
    (o : Option BlockchainTransaction) (w : World) {tx : BlockchainTransaction}
    → (or_not_found o w).0 ≡ ok tx
    → (o ≡ some tx) × ((or_not_found o w).1 ≡ w)
unfolding or_not_found
or_found none w e = cc
or_found (some row) w e = (cc, refl)

synced :
    (stale : BlockchainTransaction) (w : World) {tx : BlockchainTransaction}
    → (sync stale w).0 ≡ ok tx
    → row_at tx.id (sync stale w).1.db.transactions ≡ some tx
unfolding sync select_first
synced stale w {tx} e =
    let (u, called, rest, q) =
      bind-ok db_call
        (λ _.
          gets (λ w. find? (λ row. stale.id == 0 || row.id == stale.id) w.db.transactions)
          >>= or_not_found)
        w {b = tx} e in
    let v : World = (db_call w).1 in
    let (found, still) =
      or_found (find? (λ row. stale.id == 0 || row.id == stale.id) v.db.transactions) v {tx = tx}
        rest in
    subst (λ x. row_at tx.id x.db.transactions ≡ some tx) (sym (ap (λ p. p.1) q ∙ still))
      (found_at (stale.id == 0) stale.id v.db.transactions {tx = tx} found).0

module _ (node : Node) (codec : Codec) (clients : Clients) (old : Transactions)
    (base : List Message) where
  abbrev S : World → Type 0
  S = Sound old base []

  resends :
      (tx : BlockchainTransaction) (raw : String)
      → tx.signed_raw_tx ≡ some raw
      → Preserves (Sound old base (raw ∷ [])) (do
        client ← lift (get_blockchain_client tx.network clients)
        visible ←
            is_transaction_visible_on_chain node codec clients client
              (text_of node codec clients tx.tx_hash)
        if visible
            then mark_broadcast_acknowledged node codec clients client tx
            else broadcast_and_mark node codec clients
                (λ e e'. e')
                client
                tx
                (text_of node codec clients tx.tx_hash)
                (text_of node codec clients tx.signed_raw_tx))
  resends tx raw payload =
      Preserves-bind
        (Preserves-Keeps {m = lift (get_blockchain_client tx.network clients)}
          λ rows. Keeps-given _)
        λ client.
          Preserves-bind (Preserves-Keeps λ rows. visible-Keeps node codec clients client rows _)
            λ visible.
              Preserves-if visible
                (Preserves-Keeps λ rows. acknowledged-Keeps node codec clients client rows tx)
                (subst
                  (λ text. Preserves (Sound old base (raw ∷ [])) (
                    broadcast_and_mark node codec clients (λ e e'. e') client tx
                      (text_of node codec clients tx.tx_hash) text))
                  (sym (ap (text_of node codec clients) payload))
                  (broadcast_and_mark-Preserves node codec clients client (λ e e'. e') tx _ raw))

  recovers :
      (tx : BlockchainTransaction) (w : World)
      → S w
      → row_at tx.id w.db.transactions ≡ some tx
      → S (recover_broadcasting_transaction node codec clients tx w).1
  unfolding recover_broadcasting_transaction
  recovers tx w s found =
      elim (Bool-cases (is_some tx.tx_hash && is_some tx.signed_raw_tx && is_some tx.nonce)) [
        | inr lacks ↦ rw lacks (
            (Preserves-bind {B = Unit {0}} (alert_operators-Preserves [])
                λ _. Preserves-raise (broadcast_payload_missing tx.id)).at
              w s)
        | inl whole ↦ elim (Option-cases tx.signed_raw_tx) [
          | inl none_there ↦ absurd (ground arith)
          | inr (raw, payload) ↦ rw whole (
              without_payload old base node codec clients raw _ (
                (resends tx raw payload).at w (
                  with_payload old base node codec clients raw w s (
                    IsBacked-row w.db.transactions tx.id raw {r = tx} s.grown.table.consistent found
                      (ground arith) payload))))
        ]
      ]

  sends :
      (app : AppConfig) (stale : BlockchainTransaction)
      → Preserves S (send_transaction node codec clients app stale)
  unfolding send_transaction
  sends app stale = record {
    at = λ w s.
        ends_bind S (sync stale w) _ (λ _ _. read.at w s)
          λ tx e.
            branch (status_eq tx.status TransactionStatus.broadcasting)
              (not (status_eq tx.status TransactionStatus.pending))
              (is_some tx.tx_hash || is_some tx.signed_raw_tx) tx (sync stale w).1 (read.at w s)
              (synced stale w {tx = tx} e);
  }
    where
      read : Preserves S (sync stale)
      read = Preserves-Keeps λ rows. Keeps-sync stale

      branch :
          (a b c : Bool) (tx : BlockchainTransaction) (w : World)
          → S w
          → row_at tx.id w.db.transactions ≡ some tx
          → S
              ((if a
                  then recover_broadcasting_transaction node codec clients tx
                  else if b
                  then done
                  else if c
                  then done
                  else send_pending node codec clients app tx)
                w).1
      branch true b c tx w s found = recovers tx w s found
      branch false true c tx w s found = s
      branch false false true tx w s found = s
      branch false false false tx w s found =
          (send_pending-Preserves old base node codec clients app tx).at w s

-- However the send of a transaction ends, with other tasks acting while the nodes answer: every earlier
-- row is still there and has evolved, and besides alerts the only thing told is payloads that are
-- broadcast, each of which is, in the table that the send leaves, the signed payload of a row that has a
-- hash, for which no cancellation is requested, and that is not pending, sending or cancelled.
pub send_transaction-Backed :
    (node : Node) (codec : Codec) (clients : Clients) (app : AppConfig) (tx : BlockchainTransaction)
    (w : World)
    → IsTable w.db
    → GrownFrom w.db.transactions (send_transaction node codec clients app tx w).1.db
      × (more : List Message) × ((send_transaction node codec clients app tx w).1.sent
          ≡ w.sent ++ more)
      × All (Backed (send_transaction node codec clients app tx w).1.db.transactions) more
send_transaction-Backed node codec clients app tx w t =
    let s = (sends node codec clients w.db.transactions w.sent app tx).at w (record {
      grown = record { table = t; grown = Grows-refl w.db.transactions };
      more = [];
      told = sym (append-nil w.sent);
      backed = tt;
      at_hand = tt;
    }) in
    (s.grown, s.more, s.told, s.backed)
