-- ===== src/Blockchain/Claimed.antt =====
-- Lemmas on blockchain/transaction_sender.go: from the claim of a row to its broadcast.
use crynux_relay_wallet.Base.{
  String, ◌≡◌, refl, sym, ap, true, false, not, List, [], ◌∷◌, ltb, if◌then◌else◌,
}
use crynux_relay_wallet.Models.Transaction.{BlockchainTransaction, is_text}
use crynux_relay_wallet.World.{
  World, Result, ok, err, Action, pure, raise, ◌>>=◌, ◌>>◌, continue, Message,
}
use crynux_relay_wallet.Transactions.Rows.{set_broadcasting}
use crynux_relay_wallet.Transactions.Queries.{
  Transactions, get_sent_transaction_count_by_network,
  get_broadcasting_transaction_count_by_network,
}
use crynux_relay_wallet.Transactions.Updates.{release_sending, prepare_broadcast, Marked}
use crynux_relay_wallet.World.Keeps.{Keeps, Keeps-pure, Keeps-bind}
use crynux_relay_wallet.Int.{ℤ}
use crynux_relay_wallet.Transactions.Table.{GrownFrom}
use crynux_relay_wallet.Transactions.Claims.{prepare_hit, prepared_payload}
use crynux_relay_wallet.Transactions.Methods.{
  release_sending-Keeps, claim_for_sending-Keeps, prepare_broadcast-Keeps,
}
use crynux_relay_wallet.Transactions.Reads.{Keeps-select, Keeps-now}
use crynux_relay_wallet.Blockchain.Node.{Node, Codec, int64_of}
use crynux_relay_wallet.Blockchain.Client.{
  BlockchainClient, Clients, encode_signed_raw_transaction, get_blockchain_client,
}
use crynux_relay_wallet.Blockchain.Sender.{
  on_error, ignoring, releasing, on_build_error, text_of, broadcast_and_mark, acknowledge_broadcast,
  alert_hot_wallet_balance_error, is_hot_wallet_balance_error, sign_and_broadcast, send_claimed,
  claim_and_send, send_pending, is_too_early, is_ancestors_unsafe,
}
use crynux_relay_wallet.Blockchain.Kept.{
  Keeps-given, get_nonce-Keeps, process_sending_tx_error-Keeps,
}
use crynux_relay_wallet.Blockchain.Backed.{
  IsBacked, IsBacked-row, Sound, Preserves, Preserves-Keeps, Preserves-pure, Preserves-raise,
  Preserves-bind, Preserves-if, Preserves-attempted,
}
use crynux_relay_wallet.Blockchain.Sent.{alert_operators-Preserves, broadcast_and_mark-Preserves}
use crynux_relay_wallet.Blockchain.GasKept.{build_signed-Keeps}
use mathlib.Core.Path.{subst}
use crynux_relay_wallet.Blockchain.Writes.{ends_bind}
use crynux_relay_wallet.Config.{AppConfig}
use crynux_relay_wallet.FeeLog.Accounts.{lift}
use crynux_relay_wallet.Errors.{Error}

module _ {P : World → Type 0} where
  Preserves-on_error :
      {A : Type 0} {m : Action A} {handle : Error → Action (Unit {0})}
      → Preserves P m
      → ((e : Error) → Preserves P (handle e))
      → Preserves P (on_error m handle)
  Preserves-on_error {A} {m} {handle} km kh = Preserves-bind (Preserves-attempted km) go
    where
      go :
          (r : Result A)
          → Preserves P
              (elim r as (λ _. Action A) [ ok a ↦ pure a | err e ↦ (handle e >> raise e) ])
      go (ok a) = Preserves-pure a
      go (err e) = Preserves-bind (kh e) λ _. Preserves-raise e

  Preserves-ignoring : {A : Type 0} {m : Action A} → Preserves P m → Preserves P (ignoring m)
  Preserves-ignoring km = Preserves-bind (Preserves-attempted km) λ _. Preserves-pure tt

never_ok :
    {A : Type 0} (p : Result (Unit {0}) × World) (e : Error) {a : A}
    → (continue p (λ _. raise e)).0 ≡ ok a
    → ⊥
never_ok (ok u, w) e h = cc
never_ok (err e', w) e h = cc

-- A step that reports success has done what it does.
on_error-ok :
    {A : Type 0} (m : Action A) (handle : Error → Action (Unit {0})) (w : World) {a : A}
    → (on_error m handle w).0 ≡ ok a
    → ((m w).0 ≡ ok a) × ((on_error m handle w).1 ≡ (m w).1)
on_error-ok {A} m handle w {a} = go (m w)
  where
    go :
        (p : Result A × World)
        → ((elim p.0 as (λ _. Action A) [ ok a ↦ pure a | err e ↦ (handle e >> raise e) ]) p.1).0
          ≡ ok a
        → (p.0 ≡ ok a)
          × (((elim p.0 as (λ _. Action A) [ ok a ↦ pure a | err e ↦ (handle e >> raise e) ]) p.1).1
              ≡ p.1)
    go (ok b, v) h = (h, refl)
    go (err e, v) h = absurd (never_ok (handle e v) e h)

counted-Keeps :
    (rows : Transactions) (network : String)
    → Keeps (GrownFrom rows) (get_sent_transaction_count_by_network network)
unfolding get_sent_transaction_count_by_network
counted-Keeps rows network = Keeps-bind (Keeps-select _) λ found. Keeps-pure _

broadcasting-Keeps :
    (rows : Transactions) (network : String)
    → Keeps (GrownFrom rows) (get_broadcasting_transaction_count_by_network network)
unfolding get_broadcasting_transaction_count_by_network
broadcasting-Keeps rows network = Keeps-bind (Keeps-select _) λ found. Keeps-pure _

module _ (old : Transactions) (base : List Message) (node : Node) (codec : Codec)
    (clients : Clients) where
  abbrev S : World → Type 0
  S = Sound old base []

  pub with_payload :
      (raw : String) (w : World)
      → S w
      → IsBacked w.db.transactions raw
      → Sound old base (raw ∷ []) w
  with_payload raw w s b = record {
    grown = s.grown;
    more = s.more;
    told = s.told;
    backed = s.backed;
    at_hand = (b, tt);
  }

  pub without_payload : (raw : String) (w : World) → Sound old base (raw ∷ []) w → S w
  without_payload raw w s = record {
    grown = s.grown;
    more = s.more;
    told = s.told;
    backed = s.backed;
    at_hand = tt;
  }

  released : (tx : BlockchainTransaction) (msg : String) → Preserves S (release_sending tx msg)
  released tx msg = Preserves-Keeps λ rows. release_sending-Keeps rows tx msg

  Preserves-releasing :
      {A : Type 0} (tx : BlockchainTransaction) {m : Action A}
      → Preserves S m
      → Preserves S (releasing node codec clients tx m)
  Preserves-releasing tx km = Preserves-on_error km λ e. Preserves-ignoring (released tx _)

  on_build_error-Preserves :
      (client : BlockchainClient) (tx : BlockchainTransaction) (e : Error)
      → Preserves S (on_build_error node codec clients client tx e)
  unfolding alert_hot_wallet_balance_error
  on_build_error-Preserves client tx e =
      Preserves-bind
        (Preserves-Keeps λ rows. process_sending_tx_error-Keeps rows node codec client e)
        λ _.
          Preserves-bind
            (Preserves-if (not (is_hot_wallet_balance_error e)) (Preserves-pure tt) (
              Preserves-if (is_text tx.status_message (codec.error_text e)) (Preserves-pure tt)
                (alert_operators-Preserves [])))
            λ _. Preserves-ignoring (released tx _)

  prepared-Preserves :
      (tx : BlockchainTransaction) (hash : String) (nonce : ℤ) (raw : String)
      → Preserves S (prepare_broadcast tx hash nonce raw)
  prepared-Preserves tx hash nonce raw =
      Preserves-Keeps λ rows. prepare_broadcast-Keeps rows tx hash nonce raw

  -- A row that was prepared is committed to its payload.
  prepared-IsBacked :
      (tx : BlockchainTransaction) (hash : String) (nonce : ℤ) (raw : String)
      (tx' : BlockchainTransaction) (w : World)
      → S w
      → (prepare_broadcast tx hash nonce raw w).0 ≡ ok (true, tx')
      → IsBacked (prepare_broadcast tx hash nonce raw w).1.db.transactions raw
  unfolding set_broadcasting
  prepared-IsBacked tx hash nonce raw tx' w s e =
      let (r, found, fits, written) = prepare_hit tx hash nonce raw w {tx' = tx'} s.grown.table e in
      IsBacked-row _ tx.id raw {r = set_broadcasting hash nonce raw r}
        ((prepared-Preserves tx hash nonce raw).at w s).grown.table.consistent written refl refl

  -- What is broadcast is the payload that the row was committed to.
  broadcasts :
      (client : BlockchainClient) (tx : BlockchainTransaction) (hash : String) (nonce : ℤ)
      (raw : String) (m : Marked) (w : World)
      → S w
      → (prepare_broadcast tx hash nonce raw w).0 ≡ ok m
      → S
          ((if m.0
              then acknowledge_broadcast node codec clients client m.1
              else ignoring (release_sending m.1 "cancellation requested before broadcast"))
            (prepare_broadcast tx hash nonce raw w).1).1
  unfolding acknowledge_broadcast
  broadcasts client tx hash nonce raw (false, tx') w s e =
      (Preserves-ignoring (released tx' _)).at _ ((prepared-Preserves tx hash nonce raw).at w s)
  broadcasts client tx hash nonce raw (true, tx') w s e =
      let payload = prepared_payload tx hash nonce raw w {tx' = tx'} e in
      let v : World = (prepare_broadcast tx hash nonce raw w).1 in
      subst
        (λ text.
          S
            (broadcast_and_mark node codec clients (λ e e'. e) client tx'
              (text_of node codec clients tx'.tx_hash) text v).1)
        (sym (ap (text_of node codec clients) payload))
        (without_payload raw _ (
          (broadcast_and_mark-Preserves node codec clients client (λ e e'. e) tx' _ raw).at v (
            with_payload raw v ((prepared-Preserves tx hash nonce raw).at w s)
              (prepared-IsBacked tx hash nonce raw tx' w s e))))

  prepares :
      (client : BlockchainClient) (tx : BlockchainTransaction) (hash : String) (nonce : ℤ)
      (raw : String)
      → Preserves S (do
        prepared ← releasing node codec clients tx (prepare_broadcast tx hash nonce raw)
        if prepared.0
            then acknowledge_broadcast node codec clients client prepared.1
            else ignoring (release_sending prepared.1 "cancellation requested before broadcast"))
  prepares client tx hash nonce raw = record {
    at = λ w s.
        ends_bind S (releasing node codec clients tx (prepare_broadcast tx hash nonce raw) w) _
          (λ _ _. (Preserves-releasing tx (prepared-Preserves tx hash nonce raw)).at w s)
          λ m reported.
            let (did, same) =
              on_error-ok (prepare_broadcast tx hash nonce raw)
                (λ e. ignoring (release_sending tx (codec.error_text e))) w reported in
            subst
              (λ v.
                S
                  ((if m.0
                      then acknowledge_broadcast node codec clients client m.1
                      else ignoring (release_sending m.1 "cancellation requested before broadcast"))
                    v).1)
              (sym same) (broadcasts client tx hash nonce raw m w s did);
  }

  sign_and_broadcast-Preserves :
      (app : AppConfig) (client : BlockchainClient) (tx : BlockchainTransaction)
      → Preserves S (sign_and_broadcast node codec clients app client tx)
  unfolding sign_and_broadcast
  sign_and_broadcast-Preserves app client tx =
      Preserves-bind
        (Preserves-releasing tx (Preserves-Keeps λ rows. get_nonce-Keeps rows node codec client))
        λ nonce.
          Preserves-bind
            (Preserves-on_error
              (Preserves-Keeps λ rows. build_signed-Keeps rows node codec app client tx nonce)
              (on_build_error-Preserves client tx))
            λ signed.
              Preserves-bind
                (Preserves-releasing tx (
                  Preserves-Keeps {m = lift (encode_signed_raw_transaction node codec signed)}
                    λ rows. Keeps-given _))
                λ raw. prepares client tx (codec.hash_of signed) (int64_of nonce) raw

  send_claimed-Preserves :
      (app : AppConfig) (tx : BlockchainTransaction)
      → Preserves S (send_claimed node codec clients app tx)
  unfolding send_claimed
  send_claimed-Preserves app tx =
      Preserves-bind
        (Preserves-releasing tx (Preserves-Keeps λ rows. counted-Keeps rows tx.network))
        λ n.
          Preserves-bind
            (Preserves-releasing tx (
              Preserves-Keeps {m = lift (get_blockchain_client tx.network clients)}
                λ rows. Keeps-given _))
            λ client.
              Preserves-if _ (Preserves-bind (released tx _) λ _. Preserves-pure tt)
                (sign_and_broadcast-Preserves app client tx)

  pub send_pending-Preserves :
      (app : AppConfig) (tx : BlockchainTransaction)
      → Preserves S (send_pending node codec clients app tx)
  unfolding send_pending claim_and_send
  send_pending-Preserves app tx = Preserves-bind (Preserves-Keeps λ rows. Keeps-now) λ time.
      Preserves-if (is_too_early node codec clients app tx.next_retry_at time) (Preserves-pure tt) (
        Preserves-bind (Preserves-Keeps λ rows. broadcasting-Keeps rows tx.network) λ n.
          Preserves-if (ltb 0 n) (Preserves-pure tt) (
            Preserves-bind
              (Preserves-on_error (Preserves-Keeps λ rows. claim_for_sending-Keeps rows tx) λ e.
                Preserves-if (is_ancestors_unsafe e) (alert_operators-Preserves [])
                  (Preserves-pure tt))
              λ claimed.
                Preserves-if claimed.0 (send_claimed-Preserves app claimed.1) (Preserves-pure tt)))
