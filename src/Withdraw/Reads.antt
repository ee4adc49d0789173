-- ===== src/Withdraw/Reads.antt =====
-- Queries change nothing but the schedule of faults; what a chain query returns.
use crynux_relay_wallet.Base.{
  ℕ, ◌≡◌, refl, sym, ap, ◌∙◌, Bool, true, false, Option, none, some, List, [], ◌∷◌, ◌==◌,
  if◌then◌else◌, filter, find?,
}
use crynux_relay_wallet.Models.Transaction.{BlockchainTransaction}
use crynux_relay_wallet.World.{
  Db, World, Result, ok, err, Action, pure, raise, gets, ◌>>=◌, continue, db_call,
}
use crynux_relay_wallet.World.{call_with}
use mathlib.Core.Path.{subst}
use crynux_relay_wallet.World.Inversion.{bind-ok, db_call-db}
use crynux_relay_wallet.Errors.{Error}
use crynux_relay_wallet.Transactions.Queries.{
  Transactions, select, select_first, or_not_found, is_retry_of, get_transaction_by_id,
  get_retry_transactions_by_id, list_transaction_chain,
}

abbrev pub without_faults : World → World
without_faults w = record w { faults = [] }

pub record IsReader {A : Type 0} (m : Action A) : Type 0 where
  pub at : (w : World) → without_faults (m w).1 ≡ without_faults w

pub IsReader-pure : {A : Type 0} (a : A) → IsReader (pure a)
IsReader-pure a = record { at = λ w. refl }

pub IsReader-raise : {A : Type 0} (e : Error) → IsReader (raise {A = A} e)
IsReader-raise e = record { at = λ w. refl }

IsReader-gets : {A : Type 0} (f : World → A) → IsReader (gets f)
IsReader-gets f = record { at = λ w. refl }

call_with-reader :
    (fs : List Bool) (w : World) → without_faults (call_with fs w).1 ≡ without_faults w
unfolding call_with
call_with-reader [] w = refl
call_with-reader (false ∷ fs) w = refl
call_with-reader (true ∷ fs) w = refl

pub IsReader-db_call : IsReader db_call
unfolding db_call
IsReader-db_call = record { at = λ w. call_with-reader w.faults w }

pub IsReader-if :
    {A : Type 0} (b : Bool) {m k : Action A}
    → IsReader m
    → IsReader k
    → IsReader (if b then m else k)
IsReader-if true hm hk = hm
IsReader-if false hm hk = hk

continue-reader :
    {A B : Type 0} (p : Result A × World) (f : A → Action B)
    → ((a : A) → IsReader (f a))
    → without_faults (continue p f).1 ≡ without_faults p.1
continue-reader (ok a, w) f h = (h a).at w
continue-reader (err e, w) f h = refl

pub IsReader-bind :
    {A B : Type 0} (m : Action A) (f : A → Action B)
    → IsReader m
    → ((a : A) → IsReader (f a))
    → IsReader (m >>= f)
IsReader-bind m f hm hf = record { at = λ w. continue-reader (m w) f hf ∙ hm.at w }

IsReader-or_not_found : (o : Option BlockchainTransaction) → IsReader (or_not_found o)
unfolding or_not_found
IsReader-or_not_found none = record { at = λ w. refl }
IsReader-or_not_found (some tx) = record { at = λ w. refl }

IsReader-select : (p : BlockchainTransaction → Bool) → IsReader (select p)
unfolding select
IsReader-select p =
    IsReader-bind db_call (λ _. gets (λ w. filter p w.db.transactions)) IsReader-db_call
      (λ _. IsReader-gets (λ w. filter p w.db.transactions))

IsReader-select_first : (p : BlockchainTransaction → Bool) → IsReader (select_first p)
unfolding select_first
IsReader-select_first p =
    IsReader-bind db_call (λ _. gets (λ w. find? p w.db.transactions) >>= or_not_found)
      IsReader-db_call
      (λ _.
        IsReader-bind (gets (λ w. find? p w.db.transactions)) or_not_found
          (IsReader-gets (λ w. find? p w.db.transactions)) IsReader-or_not_found)

pub IsReader-get_transaction_by_id : (id : ℕ) → IsReader (get_transaction_by_id id)
unfolding get_transaction_by_id
IsReader-get_transaction_by_id id = IsReader-select_first (λ row. row.id == id)

pub IsReader-get_retry_transactions_by_id : (id : ℕ) → IsReader (get_retry_transactions_by_id id)
unfolding get_retry_transactions_by_id
IsReader-get_retry_transactions_by_id id = IsReader-select (is_retry_of id)

pub IsReader-list_transaction_chain : (root_id : ℕ) → IsReader (list_transaction_chain root_id)
unfolding list_transaction_chain
IsReader-list_transaction_chain root_id =
    IsReader-bind (get_transaction_by_id root_id)
      (λ root. get_retry_transactions_by_id root_id >>= λ retries. pure (root ∷ retries))
      (IsReader-get_transaction_by_id root_id)
      (λ root.
        IsReader-bind (get_retry_transactions_by_id root_id) (λ retries. pure (root ∷ retries))
          (IsReader-get_retry_transactions_by_id root_id)
          (λ retries. IsReader-pure (root ∷ retries)))

-- The attempts of the payout with the first attempt root_id: that attempt, and its retries.
pub data IsChain (root_id : ℕ) (db : Db) : Transactions → Type 0 where
  chain :
      (root : BlockchainTransaction)
      → find? (λ row. row.id == root_id) db.transactions ≡ some root
      → IsChain root_id db (root ∷ filter (is_retry_of root_id) db.transactions)

or_not_found-ok :
    (o : Option BlockchainTransaction) (w : World) {tx : BlockchainTransaction}
    → (or_not_found o w).0 ≡ ok tx
    → o ≡ some tx
unfolding or_not_found
or_not_found-ok none w h = cc
or_not_found-ok (some tx) w h = cc

pub root-ok :
    (root_id : ℕ) (w : World) {tx : BlockchainTransaction}
    → (get_transaction_by_id root_id w).0 ≡ ok tx
    → find? (λ row. row.id == root_id) w.db.transactions ≡ some tx
unfolding get_transaction_by_id select_first
root-ok root_id w {tx} h =
    let (u, called, found, q) = bind-ok db_call _ w {b = tx} h in
    ap (λ db. find? (λ row. row.id == root_id) db.transactions) (sym (db_call-db w))
    ∙ or_not_found-ok _ (db_call w).1 {tx = tx} found

ok_injective : {A : Type 0} {a b : A} → ok a ≡ ok b → a ≡ b
ok_injective h = cc

pub retries-ok :
    (root_id : ℕ) (w : World) {txs : Transactions}
    → (get_retry_transactions_by_id root_id w).0 ≡ ok txs
    → filter (is_retry_of root_id) w.db.transactions ≡ txs
unfolding get_retry_transactions_by_id select
retries-ok root_id w {txs} h =
    let (u, called, selected, q) = bind-ok db_call _ w {b = txs} h in
    ap (λ db. filter (is_retry_of root_id) db.transactions) (sym (db_call-db w))
    ∙ ok_injective selected

pub list_transaction_chain-IsChain :
    (root_id : ℕ) (w : World) {txs : Transactions}
    → (list_transaction_chain root_id w).0 ≡ ok txs
    → IsChain root_id w.db txs
unfolding list_transaction_chain
list_transaction_chain-IsChain root_id w {txs} h =
    let (root, read, rest, q) = bind-ok (get_transaction_by_id root_id) _ w {b = txs} h in
    let w₁ : World = (get_transaction_by_id root_id w).1 in
    let (retries, selected, whole, q') =
      bind-ok (get_retry_transactions_by_id root_id) _ w₁ {b = txs} rest in
    let same_db : w₁.db ≡ w.db = ap (λ w'. w'.db) ((IsReader-get_transaction_by_id root_id).at w) in
    let listed : root ∷ filter (is_retry_of root_id) w.db.transactions ≡ txs =
      ap (λ db. root ∷ filter (is_retry_of root_id) db.transactions) (sym same_db)
      ∙ ap (λ rows. root ∷ rows) (retries-ok root_id w₁ {txs = retries} selected)
      ∙ ok_injective whole in
    subst (IsChain root_id w.db) listed (chain root (root-ok root_id w {tx = root} read))
