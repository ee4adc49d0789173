-- ===== src/Withdraw/Told.antt =====
-- Lemmas on tasks/process_withdrawal_requests.go: the messages to the relay.
use crynux_relay_wallet.Base.{
  String, true, false, ◌≢◌, ◌==◌, is_some, filter, find?, Option-cases, ℕ, ◌≡◌, refl, sym, ap, ◌∙◌,
  ◌⊎◌, inl, inr, not, Option, none, some, List, [], ◌∷◌, ◌++◌, arith, Bool-cases, last_or,
}
use crynux_relay_wallet.Models.Transaction.{TransactionStatus, status_eq, BlockchainTransaction}
use crynux_relay_wallet.World.{
  Db, World, Result, ok, err, Action, pure, raise, ◌>>◌, continue, db_call, Message, fulfill,
  reject, alert,
}
use crynux_relay_wallet.Models.Records.{WithdrawStatus, withdraw_status_eq, WithdrawRecord}
use crynux_relay_wallet.World.{call_with}
use mathlib.Core.Path.{subst}
use crynux_relay_wallet.World.Inversion.{bind-ok}
use crynux_relay_wallet.Errors.{withdrawal_without_transaction}
use crynux_relay_wallet.Transactions.Queries.{
  is_retry_of, get_transaction_by_id, get_retry_transactions_by_id,
}
use crynux_relay_wallet.Withdraw.Chains.{
  get_current_blockchain_transaction, answer, request, ensure_withdrawal_reject_safe,
  ensure_withdrawal_fulfill_safe, update_status, reject_withdrawal_request_safely, text_or_empty,
  fulfill_withdrawal, attempt_of, finish_withdrawal,
}
use crynux_relay_wallet.Withdraw.Reads.{
  root-ok, retries-ok, without_faults, IsReader, IsReader-pure, IsReader-raise, IsReader-if,
  IsReader-bind, IsReader-get_transaction_by_id, IsReader-get_retry_transactions_by_id,
}
use crynux_relay_wallet.Withdraw.Checked.{
  Checked, passed, stopped, IsRejectable, IsFulfillable, ensure_reject_safe_at-Checked,
  ensure_fulfill_safe_at-Checked,
}

told_and_updated :
    (message : Message) (r : WithdrawRecord) (status : WithdrawStatus) (w : World)
    → ((request message >> update_status r status) w).1.sent ≡ w.sent ++ message ∷ []
unfolding request answer update_status db_call call_with
told_and_updated message r status w = ground arith

-- The attempt at hand: the one that is given, and otherwise the first one of the table, or the last retry
-- if the first has failed and there is one.
pub data IsAtHand (r : WithdrawRecord) (db : Db)
    : Option BlockchainTransaction → BlockchainTransaction → Type 0 where
  given : (current : BlockchainTransaction) → IsAtHand r db (some current) current
  first :
      (root_id : ℕ) (tx : BlockchainTransaction)
      → r.blockchain_transaction_id ≡ some root_id
      → find? (λ row. row.id == root_id) db.transactions ≡ some tx
      → tx.status ≢ TransactionStatus.failed
      → IsAtHand r db none tx
  retried :
      (root_id : ℕ) (tx : BlockchainTransaction)
      → r.blockchain_transaction_id ≡ some root_id
      → find? (λ row. row.id == root_id) db.transactions ≡ some tx
      → tx.status ≡ TransactionStatus.failed
      → IsAtHand r db none (last_or tx (filter (is_retry_of root_id) db.transactions))

-- What is told of the withdrawal r with these tables, as the messages before and after.
pub data Told (r : WithdrawRecord) (held : Option BlockchainTransaction) (db : Db)
    (before : List Message) : List Message → Type 0 where
  nothing : Told r held db before before
  alerted : Told r held db before (before ++ alert ∷ [])
  rejected : IsRejectable r db → Told r held db before (before ++ reject r.remote_id ∷ [])
  fulfilled :
      (current : BlockchainTransaction) (hash : String)
      → IsAtHand r db held current
      → current.tx_hash ≡ some hash
      → IsFulfillable r current db
      → Told r held db before (before ++ fulfill r.remote_id hash ∷ [])

Told-quiet :
    (r : WithdrawRecord) (held : Option BlockchainTransaction) (db : Db)
    (before after : List Message)
    → (after ≡ before) ⊎ (after ≡ before ++ alert ∷ [])
    → Told r held db before after
Told-quiet r held db before after (inl e) = subst (Told r held db before) (sym e) nothing
Told-quiet r held db before after (inr e) = subst (Told r held db before) (sym e) alerted

-- A message that waits for a check.
tell :
    {C : Type 0} {p : Result (Unit {0}) × World} (r : WithdrawRecord)
    (held : Option BlockchainTransaction) (w : World) (message : Message) (status : WithdrawStatus)
    → (C → Told r held w.db w.sent (w.sent ++ message ∷ []))
    → Checked C w p
    → Told r held w.db w.sent (continue p (λ _. request message >> update_status r status)).1.sent
tell r held w message status told (passed c w' same) =
    subst (Told r held w.db w.sent)
      (ap (λ v. v.sent ++ message ∷ []) (sym same) ∙ sym (told_and_updated message r status w'))
      (told c)
tell r held w message status told (stopped e w' quiet) = Told-quiet r held w.db w.sent w'.sent quiet

-- The relay is told that a withdrawal is rejected only if it has no payout, or if every attempt of its
-- payout in the table at that time is proven to have failed.
reject_withdrawal_request_safely-Told :
    (r : WithdrawRecord) (held : Option BlockchainTransaction) (w : World)
    → Told r held w.db w.sent (reject_withdrawal_request_safely r w).1.sent
unfolding reject_withdrawal_request_safely ensure_withdrawal_reject_safe
reject_withdrawal_request_safely-Told r held w =
    tell r held w (reject r.remote_id) WithdrawStatus.finished_rejected rejected
      (ensure_reject_safe_at-Checked r r.blockchain_transaction_id w refl)

hash_of : (o : Option String) → is_some o ≡ true → (hash : String) × (o ≡ some hash)
hash_of none h = cc
hash_of (some hash) h = (hash, refl)

fulfill_withdrawal-Told :
    (r : WithdrawRecord) (held : Option BlockchainTransaction) (current : BlockchainTransaction)
    (w : World)
    → IsAtHand r w.db held current
    → Told r held w.db w.sent (fulfill_withdrawal r current w).1.sent
unfolding fulfill_withdrawal ensure_withdrawal_fulfill_safe
fulfill_withdrawal-Told r held current w at_hand =
    tell r held w (fulfill r.remote_id (text_or_empty current.tx_hash)) WithdrawStatus.finished
      (λ safe.
        let (root_id, txs, of_root, is_chain, one, confirmed, has_hash) = safe in
        let (hash, q) = hash_of current.tx_hash has_hash in
        subst (λ t. Told r held w.db w.sent (w.sent ++ fulfill r.remote_id t ∷ []))
          (sym (ap text_or_empty q)) (fulfilled current hash at_hand q safe))
      (ensure_fulfill_safe_at-Checked r r.blockchain_transaction_id current w refl)

IsReader-get_current : (id : ℕ) → IsReader (get_current_blockchain_transaction id)
unfolding get_current_blockchain_transaction
IsReader-get_current id =
    IsReader-bind (get_transaction_by_id id) _ (IsReader-get_transaction_by_id id) λ tx.
      IsReader-if (not (status_eq tx.status TransactionStatus.failed)) (IsReader-pure tx) (
        IsReader-bind (get_retry_transactions_by_id id) (λ retries. pure (last_or tx retries))
          (IsReader-get_retry_transactions_by_id id)
          (λ retries. IsReader-pure (last_or tx retries)))

IsReader-attempt_of :
    (r : WithdrawRecord) (current : Option BlockchainTransaction) → IsReader (attempt_of r current)
unfolding attempt_of
IsReader-attempt_of r (some current) = IsReader-pure current
IsReader-attempt_of r none = go r.blockchain_transaction_id
  where
    go :
        (o : Option ℕ)
        → IsReader (elim o as (λ _. Action BlockchainTransaction) [
          | none ↦ raise withdrawal_without_transaction
          | some root_id ↦ get_current_blockchain_transaction root_id
        ])
    go none = IsReader-raise withdrawal_without_transaction
    go (some root_id) = IsReader-get_current root_id

ok_injective : {A : Type 0} {a b : A} → ok a ≡ ok b → a ≡ b
ok_injective h = cc

is_failed :
    (tx : BlockchainTransaction)
    → status_eq tx.status TransactionStatus.failed ≡ true
    → tx.status ≡ TransactionStatus.failed
is_failed tx h = ground arith

is_not_failed :
    (tx : BlockchainTransaction)
    → status_eq tx.status TransactionStatus.failed ≡ false
    → tx.status ≢ TransactionStatus.failed
is_not_failed tx h = ground arith

current-IsAtHand :
    (r : WithdrawRecord) (root_id : ℕ) (w : World) {a : BlockchainTransaction}
    → r.blockchain_transaction_id ≡ some root_id
    → (get_current_blockchain_transaction root_id w).0 ≡ ok a
    → IsAtHand r w.db none a
unfolding get_current_blockchain_transaction
current-IsAtHand r root_id w {a} of_root h =
    let (tx, read, rest, _) = bind-ok (get_transaction_by_id root_id) _ w {b = a} h in
    let found = root-ok root_id w {tx = tx} read in
    let w₁ : World = (get_transaction_by_id root_id w).1 in
    let same_db : w₁.db ≡ w.db = ap (λ v. v.db) ((IsReader-get_transaction_by_id root_id).at w) in
    elim (Bool-cases (status_eq tx.status TransactionStatus.failed)) [
      | inr standing ↦
          subst (IsAtHand r w.db none) (ok_injective (rw standing at rest))
            (first root_id tx of_root found (is_not_failed tx standing))
      | inl failed ↦
          let (retries, selected, made, _) =
            bind-ok (get_retry_transactions_by_id root_id) (λ retries. pure (last_or tx retries)) w₁
              {b = a} (rw failed at rest) in
          let listed =
            ap (λ db. filter (is_retry_of root_id) db.transactions) (sym same_db)
            ∙ retries-ok root_id w₁ {txs = retries} selected in
          subst (IsAtHand r w.db none) (ap (last_or tx) listed ∙ ok_injective made)
            (retried root_id tx of_root found (is_failed tx failed))
    ]

attempt_of-IsAtHand :
    (r : WithdrawRecord) (held : Option BlockchainTransaction) (w : World)
    {a : BlockchainTransaction}
    → (attempt_of r held w).0 ≡ ok a
    → IsAtHand r w.db held a
unfolding attempt_of
attempt_of-IsAtHand r (some current) w {a} h =
    subst (IsAtHand r w.db (some current)) (ok_injective h) (given current)
attempt_of-IsAtHand r none w {a} h = elim (Option-cases r.blockchain_transaction_id) [
  | inl absent ↦ absurd (ground (arith, absent))
  | inr (root_id, of_root) ↦ current-IsAtHand r root_id w {a = a} of_root (rw of_root at h)
]

continue-Told :
    {A : Type 0} (r : WithdrawRecord) (held : Option BlockchainTransaction) (w : World)
    (p : Result A × World) (f : A → Action (Unit {0}))
    → without_faults p.1 ≡ without_faults w
    → ((a : A) (w₁ : World) → p.0 ≡ ok a → w₁.db ≡ w.db → Told r held w₁.db w₁.sent (f a w₁).1.sent)
    → Told r held w.db w.sent (continue p f).1.sent
continue-Told r held w (ok a, w₁) f same told =
    subst (λ v. Told r held v.db v.sent (f a w₁).1.sent) same (told a w₁ refl (ap (λ v. v.db) same))
continue-Told r held w (err e, w₁) f same told =
    Told-quiet r held w.db w.sent w₁.sent (inl (ap (λ v. v.sent) same))

-- When a withdrawal that is no longer pending is finished, the relay is told of it at most once: that it
-- is rejected, only if it has no payout or all attempts of its payout are proven to have failed, or that
-- it is fulfilled with the hash of the attempt at hand, only if that attempt is confirmed, exactly one
-- attempt of the payout is, and all others are proven to have failed. The attempt at hand is the one that
-- is given, and otherwise the first attempt in the table, or the last retry if the first has failed. In all
-- other cases the relay is told nothing, and the operators are alerted at most once.
pub finish_withdrawal-Told :
    (r : WithdrawRecord) (held : Option BlockchainTransaction) (w : World)
    → Told r held w.db w.sent (finish_withdrawal r held w).1.sent
unfolding finish_withdrawal
finish_withdrawal-Told r held w =
    elim (Bool-cases (withdraw_status_eq r.status WithdrawStatus.success)) [
      | inl paid ↦ rw paid (
          continue-Told r held w (attempt_of r held w) (fulfill_withdrawal r)
            ((IsReader-attempt_of r held).at w)
            (λ a w₁ read same. fulfill_withdrawal-Told r held a w₁ (
              subst (λ d. IsAtHand r d held a) (sym same)
                (attempt_of-IsAtHand r held w {a = a} read))))
      | inr unpaid ↦ rw unpaid (reject_withdrawal_request_safely-Told r held w)
    ]
