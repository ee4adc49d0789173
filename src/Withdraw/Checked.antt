-- ===== src/Withdraw/Checked.antt =====
-- Lemmas on tasks/process_withdrawal_requests.go: the checks before a message to the relay.
use crynux_relay_wallet.Base.{
  ℕ, ◌≡◌, refl, ap, ◌∙◌, ◌⊎◌, inl, inr, Bool, true, false, not, ◌||◌, Option, none, some, [], ◌∷◌,
  ◌++◌, arith, ltb, ◌==◌, if◌then◌else◌, is_some, is_none, Bool-cases, all, count,
}
use crynux_relay_wallet.Models.Transaction.{BlockchainTransaction, is_proven_terminal_failure}
use crynux_relay_wallet.World.{Db, World, Result, ok, err, Action, ◌>>=◌, continue, done, alert}
use crynux_relay_wallet.Models.Records.{WithdrawRecord}
use crynux_relay_wallet.Errors.{Error}
use crynux_relay_wallet.Models.Chain.{classify_transaction_chain, is_confirmed, classify-outcome}
use crynux_relay_wallet.Transactions.Queries.{Transactions, list_transaction_chain}
use crynux_relay_wallet.Withdraw.Chains.{
  stop_for_blocking_timeout, check_reject_chain, ensure_reject_safe_at, check_fulfill_chain,
  ensure_fulfill_safe_at,
}
use crynux_relay_wallet.Withdraw.Reads.{
  without_faults, IsChain, list_transaction_chain-IsChain, IsReader-list_transaction_chain,
}

-- A check that passes has changed nothing; one that fails has at most alerted the operators.
pub data Checked (C : Type 0) (w : World) : Result (Unit {0}) × World → Type 0 where
  passed : C → (w' : World) → without_faults w' ≡ without_faults w → Checked C w (ok tt, w')
  stopped :
      (e : Error) (w' : World)
      → (w'.sent ≡ w.sent) ⊎ (w'.sent ≡ w.sent ++ alert ∷ [])
      → Checked C w (err e, w')

Checked-from :
    {C : Type 0} (w w₁ : World) {p : Result (Unit {0}) × World}
    → without_faults w₁ ≡ without_faults w
    → Checked C w₁ p
    → Checked C w p
Checked-from w w₁ same (passed c w' same') = passed c w' (same' ∙ same)
Checked-from w w₁ same (stopped e w' (inl quiet)) =
    stopped e w' (inl (quiet ∙ ap (λ v. v.sent) same))
Checked-from w w₁ same (stopped e w' (inr alerted)) =
    stopped e w' (inr (alerted ∙ ap (λ v. v.sent ++ alert ∷ []) same))

continue-Checked :
    {C A : Type 0} (w : World) (p : Result A × World) (f : A → Action (Unit {0}))
    → without_faults p.1 ≡ without_faults w
    → ((a : A) → p.0 ≡ ok a → Checked C p.1 (f a p.1))
    → Checked C w (continue p f)
continue-Checked w (ok a, w₁) f same h = Checked-from w w₁ same (h a refl)
continue-Checked w (err e, w₁) f same h = stopped e w₁ (inl (ap (λ v. v.sent) same))

stop-Checked : {C : Type 0} (w : World) → Checked C w (stop_for_blocking_timeout w)
unfolding stop_for_blocking_timeout
stop-Checked w = stopped _ _ (inr refl)

if-Checked :
    {C : Type 0} (b : Bool) (w : World)
    → (b ≡ false → C)
    → Checked C w ((if b then stop_for_blocking_timeout else done) w)
if-Checked true w c = stop-Checked w
if-Checked false w c = passed (c refl) w refl

-- All attempts are proven to have failed.
abbrev pub AreProvenFailures : Transactions → Type 0
AreProvenFailures txs = all is_proven_terminal_failure txs ≡ true

-- Exactly one attempt is confirmed, and all others are proven to have failed.
abbrev pub HaveOneSuccess : Transactions → Type 0
HaveOneSuccess txs =
    (count is_confirmed txs ≡ 1)
    × (all (λ tx. is_confirmed tx || is_proven_terminal_failure tx) txs ≡ true)

check_reject_chain-Checked :
    (txs : Transactions) (w : World) → Checked (AreProvenFailures txs) w (check_reject_chain txs w)
unfolding check_reject_chain
check_reject_chain-Checked txs w =
    elim (Bool-cases (ltb 0 (classify_transaction_chain txs).confirmed_count)) [
      | inl paid ↦ rw paid (stop-Checked w)
      | inr unpaid ↦ rw unpaid (
          if-Checked (not (classify_transaction_chain txs).all_proven_fail) w
            (λ settled. ground (arith, classify-outcome txs)))
    ]

check_fulfill_chain-Checked :
    (txs : Transactions) (w : World) → Checked (HaveOneSuccess txs) w (check_fulfill_chain txs w)
unfolding check_fulfill_chain
check_fulfill_chain-Checked txs w =
    elim (Bool-cases (not ((classify_transaction_chain txs).confirmed_count == 1))) [
      | inl several ↦ rw several (stop-Checked w)
      | inr one ↦ rw one (
          if-Checked (not (all (λ tx. is_confirmed tx || is_proven_terminal_failure tx) txs)) w
            (λ settled. ground (arith, classify-outcome txs)))
    ]

-- What makes it safe to reject a withdrawal: it has no payout, or all attempts of its payout failed.
abbrev pub IsRejectable : WithdrawRecord → Db → Type 0
IsRejectable r db =
    (r.blockchain_transaction_id ≡ none)
    ⊎ ((root_id : ℕ) × (txs : Transactions) × (r.blockchain_transaction_id ≡ some root_id)
        × IsChain root_id db txs
        × AreProvenFailures txs)

-- What makes it safe to report a payout: the attempt at hand is confirmed, and it is paid out once.
abbrev pub IsFulfillable : WithdrawRecord → BlockchainTransaction → Db → Type 0
IsFulfillable r current db =
    (root_id : ℕ) × (txs : Transactions) × (r.blockchain_transaction_id ≡ some root_id)
    × IsChain root_id db txs
    × HaveOneSuccess txs
    × (is_confirmed current ≡ true)
    × (is_some current.tx_hash ≡ true)

Checked-map :
    {C D : Type 0} {w : World} {p : Result (Unit {0}) × World}
    → (C → D)
    → Checked C w p
    → Checked D w p
Checked-map f (passed c w' same) = passed (f c) w' same
Checked-map f (stopped e w' told) = stopped e w' told

-- The attempts are read, and then checked.
IsChain-Checked :
    {C : Transactions → Type 0} (root_id : ℕ) (f : Transactions → Action (Unit {0})) (w : World)
    → ((txs : Transactions) (w : World) → Checked (C txs) w (f txs w))
    → Checked
        ((txs : Transactions) × IsChain root_id w.db txs × C txs)
        w
        ((list_transaction_chain root_id >>= f) w)
IsChain-Checked root_id f w check =
    continue-Checked w (list_transaction_chain root_id w) f
      ((IsReader-list_transaction_chain root_id).at w)
      (λ txs read.
        Checked-map (λ c. (txs, list_transaction_chain-IsChain root_id w {txs = txs} read, c))
          (check txs (list_transaction_chain root_id w).1))

pub ensure_reject_safe_at-Checked :
    (r : WithdrawRecord) (o : Option ℕ) (w : World)
    → r.blockchain_transaction_id ≡ o
    → Checked (IsRejectable r w.db) w (ensure_reject_safe_at o w)
unfolding ensure_reject_safe_at
ensure_reject_safe_at-Checked r none w e = passed (inl e) w refl
ensure_reject_safe_at-Checked r (some root_id) w e =
    Checked-map (λ (txs, is_chain, failed_all). inr (root_id, txs, e, is_chain, failed_all))
      (IsChain-Checked root_id check_reject_chain w check_reject_chain-Checked)

pub ensure_fulfill_safe_at-Checked :
    (r : WithdrawRecord) (o : Option ℕ) (current : BlockchainTransaction) (w : World)
    → r.blockchain_transaction_id ≡ o
    → Checked (IsFulfillable r current w.db) w (ensure_fulfill_safe_at o current w)
unfolding ensure_fulfill_safe_at
ensure_fulfill_safe_at-Checked r none current w e = stopped _ w (inl refl)
ensure_fulfill_safe_at-Checked r (some root_id) current w e =
    elim (Bool-cases (not (is_confirmed current) || is_none current.tx_hash)) [
      | inl unfit ↦ rw unfit (stop-Checked w)
      | inr fit ↦ rw fit (
          Checked-map
            (λ (txs, is_chain, paid). (root_id, txs, e, is_chain, paid, ground arith, ground arith))
            (IsChain-Checked root_id check_fulfill_chain w check_fulfill_chain-Checked))
    ]
