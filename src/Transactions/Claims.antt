-- ===== src/Transactions/Claims.antt =====
-- Lemmas on ClaimForSending and PrepareBroadcast of models/blockchain_transaction.go.
use crynux_relay_wallet.Base.{
  ℕ, String, ◌≡◌, refl, sym, ap, ◌∙◌, inl, inr, true, false, none, some, List, [], ◌∷◌, arith, ◌≢◌,
  ◌==◌, if◌then◌else◌, is_some, Option-cases, filter, all,
}
use crynux_relay_wallet.Models.Transaction.{
  TransactionStatus, BlockchainTransaction, is_proven_on_chain_failure,
}
use crynux_relay_wallet.Int.{ℤ}
use mathlib.Core.Path.{subst}
use crynux_relay_wallet.World.Inversion.{bind-ok, atomic-ok}
use crynux_relay_wallet.World.{Db, World, ok, Action, pure, ◌>>=◌, ◌>>◌, db_call}
use crynux_relay_wallet.Transactions.Rows.{
  is_claimable, set_sending, is_preparable, set_broadcasting, is_unbroadcasted,
}
use crynux_relay_wallet.Transactions.Queries.{
  Transactions, sync, select, or_not_found, select_first, list_transaction_chain,
  get_transaction_by_id, get_retry_transactions_by_id, is_retry_of,
}
use crynux_relay_wallet.Transactions.Updates.{
  write_broadcast, update, require_id, check_ancestors, check_retry, claim_for_sending, unique_hash,
  prepare_broadcast, Marked,
}
use mathlib.Core.Path.{subst}
use crynux_relay_wallet.World.Inversion.{bind-ok, atomic-ok}
use crynux_relay_wallet.Transactions.Table.{row_at, Grows-refl, IsTable}
use crynux_relay_wallet.Transactions.Methods.{prepare_broadcast-Keeps}
use crynux_relay_wallet.Transactions.Outcomes.{update_hit}
use crynux_relay_wallet.Transactions.Runs.{Call, run}
use crynux_relay_wallet.Transactions.Safety.{StaysBroadcast, broadcast_is_final}

-- The rows of a chain in front of the row with an id.
abbrev pub before : ℕ → Transactions → Transactions
before id [] = []
before id (r ∷ rows) = let rest = before id rows in if r.id == id then [] else r ∷ rest

check_ancestors_ok :
    (id : ℕ) (chain : Transactions) (w : World)
    → (check_ancestors id chain w).0 ≡ ok tt
    → (all is_proven_on_chain_failure (before id chain) ≡ true)
      × ((check_ancestors id chain w).1 ≡ w)
unfolding check_ancestors
check_ancestors_ok id [] w h = (refl, refl)
check_ancestors_ok id (a ∷ chain) w h = ground (arith, check_ancestors_ok id chain w)

list_chain_ok :
    (root : ℕ) (w : World) {chain : Transactions}
    → (list_transaction_chain root w).0 ≡ ok chain
    → (r : BlockchainTransaction) × (row_at root w.db.transactions ≡ some r)
      × (chain ≡ r ∷ filter (is_retry_of root) w.db.transactions)
      × ((list_transaction_chain root w).1.db ≡ w.db)
unfolding list_transaction_chain get_transaction_by_id select_first or_not_found
    get_retry_transactions_by_id select db_call
list_chain_ok root w {chain} h = elim (Option-cases (row_at root w.db.transactions)) [
  | inl missing ↦ absurd (ground arith)
  | inr (r, found) ↦ (r, found, ground arith, ground arith)
]

-- What lets a row be claimed: it is pending, without a payload or a cancellation request, and the
-- attempts of its chain in front of it have all failed on chain with proof.
pub record MayBeSent (tx : BlockchainTransaction) (root : ℕ) (db : Db) : Type 0 where
  pub first : BlockchainTransaction
  pub first_found : row_at root db.transactions ≡ some first
  pub ancestors_failed :
      all is_proven_on_chain_failure
        (before tx.id (first ∷ filter (is_retry_of root) db.transactions))
      ≡ true
  pub row : BlockchainTransaction
  pub row_found : row_at tx.id db.transactions ≡ some row
  pub row_pending : row.status ≡ TransactionStatus.pending
  pub row_unbroadcasted : is_unbroadcasted row ≡ true
  pub row_not_requested : row.cancellation_requested_at ≡ none

claim_row : BlockchainTransaction → Action Marked
claim_row tx = do
  rows ← update (is_claimable tx.id) set_sending
  pure (if rows == 0 then (false, tx) else (true, record tx { status = TransactionStatus.sending }))

claim_row_ok :
    (tx : BlockchainTransaction) (w : World) {tx' : BlockchainTransaction}
    → IsTable w.db
    → (claim_row tx w).0 ≡ ok (true, tx')
    → (r : BlockchainTransaction) × (row_at tx.id w.db.transactions ≡ some r)
      × (is_claimable tx.id r ≡ true)
unfolding claim_row is_claimable set_sending
claim_row_ok tx w {tx'} t h =
    let (n, counted, rest, _) =
      bind-ok (update (is_claimable tx.id) set_sending) _ w {b = (true, tx')} h in
    let (r, found, fits, written) =
      update_hit (is_claimable tx.id) set_sending tx.id w (λ r q. ground arith) (λ r. refl) t
        counted (ground arith) in
    (r, found, fits)

require_id-world : (tx : BlockchainTransaction) (w : World) → (require_id tx w).1 ≡ w
require_id-world tx w = ground arith

claim_body : BlockchainTransaction → ℕ → Action Marked
claim_body tx root = do
  (do chain ← list_transaction_chain root; check_ancestors tx.id chain)
  claim_row tx

claim_body_ok :
    (tx : BlockchainTransaction) (root : ℕ) (w : World) {tx' : BlockchainTransaction}
    → IsTable w.db
    → (claim_body tx root w).0 ≡ ok (true, tx')
    → MayBeSent tx root w.db
unfolding claim_body is_claimable
claim_body_ok tx root w {tx'} t h =
    let (u, checked, claimed, _) =
      bind-ok (list_transaction_chain root >>= check_ancestors tx.id) _ w {b = (true, tx')} h in
    let (chain, listed, passed, q) = bind-ok (list_transaction_chain root) _ w {b = u} checked in
    let (first, first_found, same, kept) = list_chain_ok root w {chain = chain} listed in
    let w₁ : World = (list_transaction_chain root w).1 in
    let (proven, still) = check_ancestors_ok tx.id chain w₁ passed in
    let w₂ : World = ((list_transaction_chain root >>= check_ancestors tx.id) w).1 in
    let db_same : w₂.db ≡ w.db = ap (λ p. p.1.db) q ∙ ap (λ x. x.db) still ∙ kept in
    let (r, found, fits) = claim_row_ok tx w₂ {tx' = tx'} (subst IsTable (sym db_same) t) claimed in
    record {
      first = first;
      first_found = first_found;
      ancestors_failed =
          subst (λ c. all is_proven_on_chain_failure (before tx.id c) ≡ true) same proven;
      row = r;
      row_found = subst (λ d. row_at tx.id d.transactions ≡ some r) db_same found;
      row_pending = ground arith;
      row_unbroadcasted = ground arith;
      row_not_requested = ground arith;
    }

-- A retry is claimed for sending only if every earlier attempt of its chain is proven to have failed on
-- chain, and its row is pending, not broadcast and not asked to be cancelled.
pub claim_needs_proven_ancestors :
    (tx : BlockchainTransaction) (root : ℕ) (w : World) {tx' : BlockchainTransaction}
    → IsTable w.db
    → tx.retry_transaction_id ≡ some root
    → (claim_for_sending tx w).0 ≡ ok (true, tx')
    → MayBeSent tx root w.db
unfolding claim_for_sending claim_row check_retry claim_body
claim_needs_proven_ancestors tx root w {tx'} t e h =
    let (u, _, body, _) = bind-ok (require_id tx) _ w {b = (true, tx')} h in
    let w₀ : World = (require_id tx w).1 in
    let (ran, _) = atomic-ok (check_retry tx >> claim_row tx) w₀ {a = (true, tx')} body in
    let same : w₀ ≡ w = require_id-world tx w in
    let retry : check_retry tx ≡ (list_transaction_chain root >>= check_ancestors tx.id) = rw e in
    claim_body_ok tx root w {tx' = tx'} t (
      subst (λ x. (claim_body tx root x).0 ≡ ok (true, tx')) same
        (subst (λ m. ((m >> claim_row tx) w₀).0 ≡ ok (true, tx')) retry ran))

prepare-eq :
    (tx : BlockchainTransaction) (hash : String) (nonce : ℤ) (raw : String) (w : World)
    {tx' : BlockchainTransaction}
    → (prepare_broadcast tx hash nonce raw w).0 ≡ ok (true, tx')
    → prepare_broadcast tx hash nonce raw w ≡ write_broadcast tx hash nonce raw w
unfolding prepare_broadcast unique_hash
prepare-eq tx hash nonce raw w h = ground arith

-- What follows the statement of PrepareBroadcast, after a count of rows.
abbrev report : BlockchainTransaction → String → ℤ → String → ℕ → Action Marked
report tx hash nonce raw n =
    if n == 0
    then (do tx' ← sync tx; pure (false, tx'))
    else pure (true, set_broadcasting hash nonce raw tx)

wrote :
    (tx : BlockchainTransaction) (hash : String) (nonce : ℤ) (raw : String) (n : ℕ) (w : World)
    {tx' : BlockchainTransaction}
    → (report tx hash nonce raw n w).0 ≡ ok (true, tx')
    → ((n == 0) ≡ false)
wrote tx hash nonce raw n w h = ground arith

prepare_wrote :
    (tx : BlockchainTransaction) (hash : String) (nonce : ℤ) (raw : String) (n : ℕ) (w : World)
    {tx' : BlockchainTransaction}
    → (report tx hash nonce raw n w).0 ≡ ok (true, tx')
    → (report tx hash nonce raw n w).1 ≡ w
prepare_wrote tx hash nonce raw n w h = ground arith

pub prepare_hit :
    (tx : BlockchainTransaction) (hash : String) (nonce : ℤ) (raw : String) (w : World)
    {tx' : BlockchainTransaction}
    → IsTable w.db
    → (prepare_broadcast tx hash nonce raw w).0 ≡ ok (true, tx')
    → (r : BlockchainTransaction) × (row_at tx.id w.db.transactions ≡ some r)
      × (is_preparable tx.id r ≡ true)
      × (row_at tx.id (prepare_broadcast tx hash nonce raw w).1.db.transactions
          ≡ some (set_broadcasting hash nonce raw r))
unfolding is_preparable set_broadcasting write_broadcast
prepare_hit tx hash nonce raw w {tx'} t h =
    let q = prepare-eq tx hash nonce raw w {tx' = tx'} h in
    let (n, counted, rest, e) =
      bind-ok (update (is_preparable tx.id) (set_broadcasting hash nonce raw)) _ w {b = (true, tx')}
        (sym (ap (λ p. p.0) q) ∙ h) in
    let (r, found, fits, written) =
      update_hit (is_preparable tx.id) (set_broadcasting hash nonce raw) tx.id w
        (λ r q. ground arith) (λ r. refl) t counted (wrote tx hash nonce raw n _ rest) in
    let at_end = prepare_wrote tx hash nonce raw n _ rest in
    (
      r,
      found,
      fits,
      ap (λ p. row_at tx.id p.1.db.transactions) (q ∙ e)
          ∙ ap (λ x. row_at tx.id x.db.transactions) at_end
          ∙ written,
    )

-- The caller's row has the payload as well.
pub prepared_payload :
    (tx : BlockchainTransaction) (hash : String) (nonce : ℤ) (raw : String) (w : World)
    {tx' : BlockchainTransaction}
    → (prepare_broadcast tx hash nonce raw w).0 ≡ ok (true, tx')
    → tx'.signed_raw_tx ≡ some raw
unfolding write_broadcast set_broadcasting
prepared_payload tx hash nonce raw w {tx'} h =
    let q = prepare-eq tx hash nonce raw w {tx' = tx'} h in
    let (n, counted, rest, e) =
      bind-ok (update (is_preparable tx.id) (set_broadcasting hash nonce raw)) _ w {b = (true, tx')}
        (sym (ap (λ p. p.0) q) ∙ h) in
    reported n (update (is_preparable tx.id) (set_broadcasting hash nonce raw) w).1 rest
  where
    reported :
        (n : ℕ) (v : World)
        → (report tx hash nonce raw n v).0 ≡ ok (true, tx')
        → tx'.signed_raw_tx ≡ some raw
    reported n v r = ground arith

-- The row r as it is after a broadcast with this hash, nonce and payload, and ever after.
pub record IsBroadcast (hash : String) (nonce : ℤ) (raw : String) (r s : BlockchainTransaction)
    : Type 0 where
  pub has_hash : s.tx_hash ≡ some hash
  pub has_nonce : s.nonce ≡ some nonce
  pub has_raw : s.signed_raw_tx ≡ some raw
  pub same_value : s.value ≡ r.value
  pub same_to_address : s.to_address ≡ r.to_address
  pub not_requested : s.cancellation_requested_at ≡ none
  pub not_pending : s.status ≢ TransactionStatus.pending
  pub not_sending : s.status ≢ TransactionStatus.sending
  pub not_cancelled : s.status ≢ TransactionStatus.cancelled

IsBroadcast-of :
    (hash : String) (nonce : ℤ) (raw : String) (r s : BlockchainTransaction)
    → StaysBroadcast (set_broadcasting hash nonce raw r) s
    → IsBroadcast hash nonce raw r s
unfolding set_broadcasting
IsBroadcast-of hash nonce raw r s stays = record {
  has_hash = stays.same_hash;
  has_nonce = stays.same_nonce;
  has_raw = stays.same_raw;
  same_value = stays.same_value;
  same_to_address = stays.same_to_address;
  not_requested = stays.not_requested;
  not_pending = stays.not_pending;
  not_sending = stays.not_sending;
  not_cancelled = stays.not_cancelled;
}

-- The row that is broadcast was sending, without a hash or a request to cancel it.
was_sending :
    (id : ℕ) (r : BlockchainTransaction)
    → is_preparable id r ≡ true
    → (r.status ≡ TransactionStatus.sending)
      × (r.tx_hash ≡ none)
      × (r.cancellation_requested_at ≡ none)
unfolding is_preparable
was_sending id r h = ground arith

-- Once PrepareBroadcast has returned true, the row, which was sending without a hash or a request to cancel
-- it, has the given hash, nonce and signed payload under
-- every later sequence of calls, and is never pending, sending or cancelled again.
pub prepare_is_final :
    (cs : List Call) (tx : BlockchainTransaction) (hash : String) (nonce : ℤ) (raw : String)
    (w : World) {tx' : BlockchainTransaction}
    → IsTable w.db
    → (prepare_broadcast tx hash nonce raw w).0 ≡ ok (true, tx')
    → (r s : BlockchainTransaction) × (row_at tx.id w.db.transactions ≡ some r)
      × ((r.status ≡ TransactionStatus.sending)
          × (r.tx_hash ≡ none)
          × (r.cancellation_requested_at ≡ none))
      × (row_at tx.id (run cs (prepare_broadcast tx hash nonce raw w).1).db.transactions ≡ some s)
      × IsBroadcast hash nonce raw r s
prepare_is_final cs tx hash nonce raw w {tx'} t h =
    let w₁ : World = (prepare_broadcast tx hash nonce raw w).1 in
    let t₁ : IsTable w₁.db =
      ((prepare_broadcast-Keeps w.db.transactions tx hash nonce raw).at w
        (record { table = t; grown = Grows-refl w.db.transactions })).table in
    let (r, found, fits, written) = prepare_hit tx hash nonce raw w {tx' = tx'} t h in
    let (s, f, stays) =
      broadcast_is_final cs w₁ tx.id {r = set_broadcasting hash nonce raw r} t₁ written
        (has_hash r) in
    (r, s, found, was_sending tx.id r fits, f, IsBroadcast-of hash nonce raw r s stays)
  where
    has_hash :
        (r : BlockchainTransaction) → is_some (set_broadcasting hash nonce raw r).tx_hash ≡ true
    has_hash r = unfold set_broadcasting in refl
