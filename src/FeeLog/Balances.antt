-- ===== src/FeeLog/Balances.antt =====
-- Lemmas on processTaskFeeLogs of tasks/sync_task_fee_logs.go: the balances that it writes.
use crynux_relay_wallet.Base.{
  String, ◌≡◌, refl, sym, ap, ◌∙◌, inl, inr, Option, none, some, List, [], ◌∷◌, ◌++◌, map, arith,
  eq_iff, if◌then◌else◌, is_some, Option-cases, filter,
}
use crynux_relay_wallet.Int.{ℤ, pos, ◌+ℤ◌, int_laws, +ℤ_zero, zero_+ℤ}
use crynux_relay_wallet.World.{call_with, Db, World, ok, ◌>>◌, db_call}
use crynux_relay_wallet.Models.Records.{RelayAccount}
use mathlib.Core.List.{append-nil}
use crynux_relay_wallet.World.Inversion.{bind-ok, db_call-db}
use crynux_relay_wallet.FeeLog.Types.{TaskFeeLog}
use crynux_relay_wallet.FeeLog.Merge.{
  merge_cases, amount_of, Amounts, lookup, amount_at, credits, merge_task_fee_logs, merge-credits,
}
use crynux_relay_wallet.FeeLog.Accounts.{
  Accounts, account_at, is_merged, add_merged, new_accounts, set_balance, create_accounts,
  update_balances, apply_merged, process_task_fee_logs,
}

abbrev balance_in : Option RelayAccount → ℤ
balance_in none = pos 0
balance_in (some account) = account.balance

-- The balance of an address; an address without an account has none.
abbrev pub balance_of : String → Accounts → ℤ
balance_of a rows = balance_in (account_at a rows)

map-same : (rows : Accounts) → map (set_balance []) rows ≡ rows
unfolding set_balance
map-same [] = refl
map-same (r ∷ rows) = ap (λ t. r ∷ t) (map-same rows)

-- The accounts after the two writes.
abbrev merged_into : Amounts → Accounts → Accounts
merged_into merged rows =
    let existed = filter (is_merged merged) rows in
    map (set_balance (map (add_merged merged) existed)) (rows ++ new_accounts merged existed)

account_at-filter :
    (a : String) (merged : Amounts) (rows : Accounts)
    → account_at a (filter (is_merged merged) rows)
      ≡ (if is_some (lookup a merged) then account_at a rows else none)
account_at-filter a merged [] = ground arith
account_at-filter a merged (r ∷ rows) =
    ground (arith, eq_iff r.address a, account_at-filter a merged rows)

abbrev map_account : (RelayAccount → RelayAccount) → Option RelayAccount → Option RelayAccount
map_account f none = none
map_account f (some r) = some (f r)

account_at-map :
    (a : String) (f : RelayAccount → RelayAccount) (rows : Accounts)
    → ((r : RelayAccount) → (f r).address ≡ r.address)
    → account_at a (map f rows) ≡ map_account f (account_at a rows)
account_at-map a f [] same = refl
account_at-map a f (r ∷ rows) same = ground (arith, same r, account_at-map a f rows same)

abbrev or_account : Option RelayAccount → Option RelayAccount → Option RelayAccount
or_account none b = b
or_account (some r) b = some r

account_at-append :
    (a : String) (rows more : Accounts)
    → account_at a (rows ++ more) ≡ or_account (account_at a rows) (account_at a more)
account_at-append a [] more = refl
account_at-append a (r ∷ rows) more = ground (arith, account_at-append a rows more)

abbrev account_of : String → Option ℤ → Option RelayAccount
account_of a none = none
account_of a (some n) = some (record { address = a; balance = n })

account_at-new_accounts :
    (a : String) (merged : Amounts) (existed : Accounts)
    → account_at a (new_accounts merged existed)
      ≡ (if is_some (account_at a existed) then none else account_of a (lookup a merged))
unfolding new_accounts
account_at-new_accounts a [] existed = ground arith
account_at-new_accounts a ((b, n) ∷ merged) existed =
    ground (arith, eq_iff b a, account_at-new_accounts a merged existed)

account_at-address :
    (a : String) (rows : Accounts) {r : RelayAccount} → account_at a rows ≡ some r → r.address ≡ a
account_at-address a [] e = cc
account_at-address a (x ∷ rows) {r} e =
    ground (arith, eq_iff x.address a, account_at-address a rows {r = r})

set_balance-address :
    (listed : Accounts) (r : RelayAccount) → (set_balance listed r).address ≡ r.address
unfolding set_balance
set_balance-address listed r = ground arith

add_merged-address :
    (merged : Amounts) (r : RelayAccount) → (add_merged merged r).address ≡ r.address
unfolding add_merged
add_merged-address merged r = ground arith

abbrev added : Option ℤ → ℤ → ℤ
added none balance = balance
added (some n) balance = balance +ℤ n

-- The account of an address among the listed ones, after the amounts are added.
account_at-listed :
    (a : String) (merged : Amounts) (rows : Accounts)
    → account_at a (map (add_merged merged) (filter (is_merged merged) rows))
      ≡ map_account
          (add_merged merged)
          (if is_some (lookup a merged) then account_at a rows else none)
account_at-listed a merged rows =
    account_at-map a (add_merged merged) (filter (is_merged merged) rows)
      (add_merged-address merged)
    ∙ ap (map_account (add_merged merged)) (account_at-filter a merged rows)

-- The written balance of an account that is the first at its address.
written_old :
    (a : String) (merged : Amounts) (rows : Accounts) {r : RelayAccount}
    → account_at a rows ≡ some r
    → (set_balance (map (add_merged merged) (filter (is_merged merged) rows)) r).balance
      ≡ added (lookup a merged) r.balance
unfolding set_balance add_merged
written_old a merged rows {r} found =
    let here : r.address ≡ a = account_at-address a rows {r = r} found in
    elim (Option-cases (lookup a merged)) [
      | inl absent ↦ ground (arith, account_at-listed a merged rows)
      | inr (n, there) ↦ ground (arith, account_at-listed a merged rows)
    ]

written_new :
    (a : String) (merged : Amounts) (rows : Accounts) (n : ℤ)
    → account_at a rows ≡ none
    → (set_balance
        (map (add_merged merged) (filter (is_merged merged) rows))
        (record { address = a; balance = n })).balance
      ≡ n
unfolding set_balance
written_new a merged rows n found = ground (arith, account_at-listed a merged rows)

balance_of-merged_into :
    (a : String) (merged : Amounts) (rows : Accounts)
    → balance_of a (merged_into merged rows) ≡ balance_of a rows +ℤ amount_at a merged
balance_of-merged_into a merged rows =
    let existed = filter (is_merged merged) rows in
    let listed = map (add_merged merged) existed in
    rw
      (
        account_at-map a (set_balance listed) (rows ++ new_accounts merged existed)
            (set_balance-address listed),
        account_at-append a rows (new_accounts merged existed),
        account_at-new_accounts a merged existed,
        account_at-filter a merged rows,
      )
      (go (account_at a rows) refl (lookup a merged) refl)
  where
    go :
        (o : Option RelayAccount)
        → account_at a rows ≡ o
        → (l : Option ℤ) → lookup a merged ≡ l
        → balance_in (
            map_account (set_balance (map (add_merged merged) (filter (is_merged merged) rows))) (
              or_account o
                (if is_some (if is_some l then o else none) then none else account_of a l)))
          ≡ balance_in o +ℤ amount_of l
    go none found none absent = omega int_laws
    go none found (some n) there = written_new a merged rows n found ∙ sym (zero_+ℤ n)
    go (some r) found none absent =
        written_old a merged rows {r = r} found ∙ rw absent (sym (+ℤ_zero r.balance))
    go (some r) found (some n) there = written_old a merged rows {r = r} found ∙ rw there refl

update_balances-ok :
    (listed : Accounts) (w : World)
    → (update_balances listed w).0 ≡ ok tt
    → (update_balances listed w).1.db
      ≡ record w.db { accounts = map (set_balance listed) w.db.accounts }
unfolding update_balances set_balance db_call call_with
update_balances-ok [] w h = ground (arith, map-same w.db.accounts)
update_balances-ok (a ∷ rest) w h = ground arith

create_accounts-ok :
    (fresh : Accounts) (w : World)
    → (create_accounts fresh w).0 ≡ ok tt
    → (create_accounts fresh w).1.db ≡ record w.db { accounts = w.db.accounts ++ fresh }
unfolding create_accounts db_call call_with
create_accounts-ok [] w h = ground (arith, append-nil w.db.accounts)
create_accounts-ok (a ∷ rest) w h = ground arith

writes-ok :
    (merged : Amounts) (w : World)
    → let existed = filter (is_merged merged) w.db.accounts in
      let writes =
        create_accounts (new_accounts merged existed)
        >> update_balances (map (add_merged merged) existed) in
      (writes w).0 ≡ ok tt
      → (writes w).1.db ≡ record w.db { accounts = merged_into merged w.db.accounts }
writes-ok merged w h =
    let existed : Accounts = filter (is_merged merged) w.db.accounts in
    let fresh : Accounts = new_accounts merged existed in
    let (u, created, rest, q) = bind-ok (create_accounts fresh) _ w {b = tt} h in
    let w₁ : World = (create_accounts fresh w).1 in
    ap (λ p. p.1.db) q
    ∙ update_balances-ok (map (add_merged merged) existed) w₁ rest
    ∙ ap
        (λ (d : Db). record d {
          accounts = map (set_balance (map (add_merged merged) existed)) d.accounts;
        })
        (create_accounts-ok fresh w created)

apply_merged-ok :
    (merged : Amounts) (w : World)
    → (apply_merged merged w).0 ≡ ok tt
    → (apply_merged merged w).1.db ≡ record w.db { accounts = merged_into merged w.db.accounts }
unfolding apply_merged
apply_merged-ok merged w h =
    let (u, called, rest, q) = bind-ok db_call _ w {b = tt} h in
    ap (λ p. p.1.db) q
    ∙ writes-ok merged (db_call w).1 rest
    ∙ ap (λ (d : Db). record d { accounts = merged_into merged d.accounts }) (db_call-db w)

filter-nil : (rows : Accounts) → filter (is_merged []) rows ≡ []
filter-nil [] = refl
filter-nil (r ∷ rows) = filter-nil rows

merged_into-nil : (rows : Accounts) → merged_into [] rows ≡ rows
unfolding new_accounts
merged_into-nil rows = rw (filter-nil rows, append-nil) (map-same rows)

-- What processTaskFeeLogs does, once the logs are merged.
process-db :
    (logs : List TaskFeeLog) (w : World)
    → (process_task_fee_logs logs w).0 ≡ ok tt
    → (m : Amounts) × (merge_task_fee_logs logs ≡ ok m)
      × ((process_task_fee_logs logs w).1.db
          ≡ record w.db { accounts = merged_into m w.db.accounts })
unfolding process_task_fee_logs
process-db logs w h = elim (merge_cases (merge_task_fee_logs logs)) [
  | inr (e, broken) ↦ absurd (ground arith)
  | inl ([], merged) ↦ (
    [],
    merged,
    rw merged
        (ap (λ (t : Accounts). record w.db { accounts = t }) (sym (merged_into-nil w.db.accounts))),
  )
  | inl (x ∷ m, merged) ↦ (x ∷ m, merged, rw merged (apply_merged-ok (x ∷ m) w (rw merged at h)))
]

-- When a batch of logs is processed without an error, the balance of every address has grown by the sum
-- of the credits of its logs, and no other table has changed.
pub process-credits :
    (logs : List TaskFeeLog) (w : World)
    → (process_task_fee_logs logs w).0 ≡ ok tt
    → ((a : String)
        → balance_of a (process_task_fee_logs logs w).1.db.accounts
          ≡ balance_of a w.db.accounts +ℤ credits a logs)
      × ((process_task_fee_logs logs w).1.db
          ≡ record w.db { accounts = (process_task_fee_logs logs w).1.db.accounts })
process-credits logs w h =
    let (m, merged, written) = process-db logs w h in
    (
      λ a.
          ap (λ d. balance_of a d.accounts) written
          ∙ balance_of-merged_into a m w.db.accounts
          ∙ ap (λ n. balance_of a w.db.accounts +ℤ n) (merge-credits a logs {m = m} merged),
      written
          ∙ ap (λ (t : Accounts). record w.db { accounts = t })
              (sym (ap (λ d. d.accounts) written)),
    )
