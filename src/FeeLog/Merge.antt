-- ===== src/FeeLog/Merge.antt =====
-- tasks/sync_task_fee_logs.go: mergeTaskFeeLogs.
use crynux_relay_wallet.Base.{
  String, ◌≡◌, refl, ap, ◌∙◌, ◌⊎◌, inl, inr, not, Option, none, some, List, [], ◌∷◌, arith, str_eq,
  eq_iff, if◌then◌else◌, Option-cases,
}
use crynux_relay_wallet.Int.{ℤ, pos, ◌+ℤ◌, ◌-ℤ◌, int_laws, +ℤ_assoc, +ℤ_zero, zero_+ℤ}
use crynux_relay_wallet.World.{Result, ok, err}
use crynux_relay_wallet.Errors.{Error, task_fee_unknown_event_type, task_fee_amount_invalid}
use crynux_relay_wallet.Text.{parse_int}
use crynux_relay_wallet.FeeLog.Types.{
  TaskFeeLogType, TaskFeeLog, is_supported_task_fee_log_type, is_balance_ignored_task_fee_log_type,
}

-- A Go map from address to amount, in the order of insertion.
abbrev pub Amounts : Type 0
Amounts = List (String × ℤ)

abbrev pub lookup : String → Amounts → Option ℤ
lookup a [] = none
lookup a ((b, n) ∷ m) = let rest = lookup a m in if str_eq b a then some n else rest

-- `if _, ok := merged[a]; !ok { merged[a] = 0 }`, then `merged[a].Add(merged[a], n)`.
unfoldable pub add_amount : String → ℤ → Amounts → Amounts
add_amount a n [] = (a, pos 0 +ℤ n) ∷ []
add_amount a n ((b, k) ∷ m) =
    let rest = add_amount a n m in if str_eq b a then (b, k +ℤ n) ∷ m else (b, k) ∷ rest

-- The same with `Sub`.
unfoldable pub sub_amount : String → ℤ → Amounts → Amounts
sub_amount a n [] = (a, pos 0 -ℤ n) ∷ []
sub_amount a n ((b, k) ∷ m) =
    let rest = sub_amount a n m in if str_eq b a then (b, k -ℤ n) ∷ m else (b, k) ∷ rest

-- The `switch` on the type of a log that is not ignored.
unfoldable pub apply_amount : TaskFeeLogType → String → ℤ → Amounts → Result Amounts
apply_amount TaskFeeLogType.task_payment a n m = ok (sub_amount a n m)
apply_amount TaskFeeLogType.task_income a n m = ok (add_amount a n m)
apply_amount TaskFeeLogType.dao_task_share a n m = ok (add_amount a n m)
apply_amount TaskFeeLogType.withdrawal_fee_income a n m = ok (add_amount a n m)
apply_amount TaskFeeLogType.deposit a n m = ok (add_amount a n m)
apply_amount TaskFeeLogType.task_refund a n m = ok (add_amount a n m)
apply_amount TaskFeeLogType.user_delegation a n m = ok (add_amount a n m)
apply_amount TaskFeeLogType.vesting_release a n m = ok (add_amount a n m)
apply_amount _ a n m = err task_fee_unknown_event_type

apply_parsed : TaskFeeLog → Option ℤ → Amounts → Result Amounts
unfolding apply_amount
apply_parsed log none m = err task_fee_amount_invalid
apply_parsed log (some n) m = apply_amount log.type log.address n m

unfoldable pub merge_log : TaskFeeLog → Amounts → Result Amounts
unfolding apply_parsed is_supported_task_fee_log_type is_balance_ignored_task_fee_log_type
merge_log log m =
    if not (is_supported_task_fee_log_type log.type)
    then err task_fee_unknown_event_type
    else if is_balance_ignored_task_fee_log_type log.type
    then ok m
    else apply_parsed log (parse_int log.amount) m

-- The loop: it stops at the first error.
abbrev pub and_then : Result Amounts → (Amounts → Result Amounts) → Result Amounts
and_then (ok m) f = f m
and_then (err e) f = err e

unfoldable pub merge_from : List TaskFeeLog → Amounts → Result Amounts
unfolding merge_log
merge_from [] m = ok m
merge_from (log ∷ logs) m = and_then (merge_log log m) (merge_from logs)

unfoldable pub merge_task_fee_logs : List TaskFeeLog → Result Amounts
unfolding merge_from
merge_task_fee_logs logs = merge_from logs []

pub merge_cases : (r : Result Amounts) → ((m : Amounts) × (r ≡ ok m)) ⊎ ((e : Error) × (r ≡ err e))
merge_cases (ok m) = inl (m, refl)
merge_cases (err e) = inr (e, refl)

-- What a log means for the balance of an address.
abbrev pub credit : TaskFeeLogType → ℤ → ℤ
credit TaskFeeLogType.task_payment n = pos 0 -ℤ n
credit TaskFeeLogType.withdraw n = pos 0
credit TaskFeeLogType.withdraw_refund n = pos 0
credit TaskFeeLogType.vesting_created n = pos 0
credit (TaskFeeLogType.unknown t) n = pos 0
credit _ n = n

abbrev pub amount_of : Option ℤ → ℤ
amount_of none = pos 0
amount_of (some n) = n

abbrev pub log_credit : TaskFeeLog → ℤ
log_credit log = credit log.type (amount_of (parse_int log.amount))

-- The sum of the credits of an address in a list of logs.
abbrev pub credits : String → List TaskFeeLog → ℤ
credits a [] = pos 0
credits a (log ∷ logs) = (if str_eq log.address a then log_credit log else pos 0) +ℤ credits a logs

abbrev pub amount_at : String → Amounts → ℤ
amount_at a m = amount_of (lookup a m)

-- What an address gains, if it is the one that is written to.
abbrev if_same : String → String → ℤ → ℤ
if_same b a n = if str_eq b a then n else pos 0

amount_at-add :
    (a b : String) (n : ℤ) (m : Amounts)
    → amount_at a (add_amount b n m) ≡ amount_at a m +ℤ if_same b a n
unfolding add_amount
amount_at-add a b n [] = ground (arith, zero_+ℤ (pos 0))
amount_at-add a b n ((c, k) ∷ m) = ground (
  arith,
  eq_iff b a,
  eq_iff c a,
  eq_iff c b,
  amount_at-add a b n m,
  +ℤ_zero k,
  +ℤ_zero (amount_at a m),
)

minus-eq : (k n : ℤ) → k -ℤ n ≡ k +ℤ (pos 0 -ℤ n)
minus-eq k n = omega int_laws

amount_at-sub :
    (a b : String) (n : ℤ) (m : Amounts)
    → amount_at a (sub_amount b n m) ≡ amount_at a m +ℤ if_same b a (pos 0 -ℤ n)
unfolding sub_amount
amount_at-sub a b n [] = ground (arith, zero_+ℤ (pos 0), zero_+ℤ (pos 0 -ℤ n))
amount_at-sub a b n ((c, k) ∷ m) = ground (
  arith,
  eq_iff b a,
  eq_iff c a,
  eq_iff c b,
  amount_at-sub a b n m,
  minus-eq k n,
  +ℤ_zero k,
  +ℤ_zero (amount_at a m),
)

merge_log-amount :
    (a : String) (log : TaskFeeLog) (m : Amounts) {m' : Amounts}
    → merge_log log m ≡ ok m'
    → amount_at a m' ≡ amount_at a m +ℤ if_same log.address a (log_credit log)
unfolding merge_log
merge_log-amount a log m h = elim (Option-cases (parse_int log.amount)) [
  | inl junk ↦ ground (arith, +ℤ_zero (amount_at a m))
  | inr (n, parsed) ↦ ground (
    arith,
    amount_at-add a log.address n m,
    amount_at-sub a log.address n m,
    +ℤ_zero (amount_at a m),
  )
]

merge_from-amount :
    (a : String) (logs : List TaskFeeLog) (m : Amounts) {m' : Amounts}
    → merge_from logs m ≡ ok m'
    → amount_at a m' ≡ amount_at a m +ℤ credits a logs
unfolding merge_from
merge_from-amount a [] m h = ground (arith, +ℤ_zero (amount_at a m))
merge_from-amount a (log ∷ logs) m {m'} h = elim (merge_cases (merge_log log m)) [
  | inr (e, broken) ↦ absurd (ground arith)
  | inl (m₁, done) ↦
      let first = merge_log-amount a log m {m' = m₁} done in
      let rest = merge_from-amount a logs m₁ {m' = m'} (ground arith) in
      rest ∙ ap (λ x. x +ℤ credits a logs) first ∙ +ℤ_assoc _ _ _
]

-- When a batch of logs merges, the merged amount of every address is the sum of the credits of its logs:
-- a payment counts negative, a withdrawal, its refund and a vesting schedule count nothing, and every
-- other type counts its amount.
pub merge-credits :
    (a : String) (logs : List TaskFeeLog) {m : Amounts}
    → merge_task_fee_logs logs ≡ ok m
    → amount_at a m ≡ credits a logs
unfolding merge_task_fee_logs
merge-credits a logs {m} h = merge_from-amount a logs [] {m' = m} h ∙ zero_+ℤ (credits a logs)
