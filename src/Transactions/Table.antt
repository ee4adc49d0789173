-- ===== src/Transactions/Table.antt =====
-- The whole table: every row consistent, and later tables against earlier ones.
use crynux_relay_wallet.Base.{
  ℕ, suc, ◌≤◌, ◌≡◌, inl, inr, Bool, Option, some, [], ◌∷◌, ◌++◌, arith, ◌==◌, Bool-cases, All,
  find?, update_where,
}
use crynux_relay_wallet.Models.Transaction.{BlockchainTransaction}
use crynux_relay_wallet.World.{Db}
use crynux_relay_wallet.Transactions.Queries.{Transactions}
use crynux_relay_wallet.Transactions.Invariant.{IsConsistent, Evolves, Evolves-refl, Evolves-trans}
use crynux_relay_wallet.Transactions.Legal.{Legal}

-- Every row of the first table stands in the second at its place, as it was or evolved; new rows
-- stand behind.
abbrev pub Grows : Transactions → Transactions → Type 0
Grows [] new = Unit
Grows (r ∷ old) [] = ⊥
Grows (r ∷ old) (s ∷ new) = Evolves r s × Grows old new

pub Grows-refl : (rows : Transactions) → Grows rows rows
Grows-refl [] = tt
Grows-refl (r ∷ rows) = (Evolves-refl r, Grows-refl rows)

pub Grows-trans : (a b c : Transactions) → Grows a b → Grows b c → Grows a c
Grows-trans [] b c p q = tt
Grows-trans (x ∷ a) (y ∷ b) [] p q = absurd q
Grows-trans (x ∷ a) (y ∷ b) (z ∷ c) p q = (Evolves-trans p.0 q.0, Grows-trans a b c p.1 q.1)
Grows-trans (x ∷ a) [] c p q = absurd p

pub Grows-append : (rows more : Transactions) → Grows rows (rows ++ more)
Grows-append [] more = tt
Grows-append (r ∷ rows) more = (Evolves-refl r, Grows-append rows more)

abbrev pub at_id : ℕ → BlockchainTransaction → Bool
at_id id row = row.id == id

-- The row with an id, if there is one.
abbrev pub row_at : ℕ → Transactions → Option BlockchainTransaction
row_at id rows = find? (at_id id) rows

-- A row that is there stays there, and evolves.
pub Grows-row_at :
    (id : ℕ) (old new : Transactions) {r : BlockchainTransaction}
    → Grows old new
    → row_at id old ≡ some r
    → (s : BlockchainTransaction) × (row_at id new ≡ some s) × Evolves r s
Grows-row_at id [] new g e = cc
Grows-row_at id (x ∷ old) [] g e = absurd g
Grows-row_at id (x ∷ old) (y ∷ new) {r} (v, g) e = elim (Bool-cases (x.id == id)) [
  | inl here ↦ (y, ground arith, ground arith)
  | inr there ↦
      let (s, f, u) = Grows-row_at id old new {r = r} g (ground arith) in (s, ground arith, u)
]

module _ {p : BlockchainTransaction → Bool} {f : BlockchainTransaction → BlockchainTransaction}
    (legal : Legal p f) where
  pub update_where-IsConsistent :
      (rows : Transactions) → All IsConsistent rows → All IsConsistent (update_where p f rows)
  update_where-IsConsistent [] h = tt
  update_where-IsConsistent (r ∷ rows) (c, h) = elim (Bool-cases (p r)) [
    | inl fits ↦ rw fits (legal.next r c fits, update_where-IsConsistent rows h)
    | inr misses ↦ rw misses (c, update_where-IsConsistent rows h)
  ]

  pub update_where-Grows :
      (rows : Transactions) → All IsConsistent rows → Grows rows (update_where p f rows)
  update_where-Grows [] h = tt
  update_where-Grows (r ∷ rows) (c, h) = elim (Bool-cases (p r)) [
    | inl fits ↦ rw fits (legal.onward r c fits, update_where-Grows rows h)
    | inr misses ↦ rw misses (Evolves-refl r, update_where-Grows rows h)
  ]

pub append-IsConsistent :
    (rows : Transactions) {r : BlockchainTransaction}
    → All IsConsistent rows
    → IsConsistent r
    → All IsConsistent (rows ++ r ∷ [])
append-IsConsistent [] h c = (c, tt)
append-IsConsistent (x ∷ rows) (d, h) c = (d, append-IsConsistent rows h c)

-- The ids ascend, from `lo` on and below `hi`.
abbrev pub Ascends : ℕ → Transactions → ℕ → Type 0
Ascends lo [] hi = lo ≤ hi
Ascends lo (r ∷ rows) hi = (lo ≤ r.id) × Ascends (suc r.id) rows hi

pub Ascends-append :
    (lo : ℕ) (rows : Transactions) (hi : ℕ) (r : BlockchainTransaction)
    → Ascends lo rows hi
    → r.id ≡ hi
    → Ascends lo (rows ++ r ∷ []) (suc hi)
Ascends-append lo [] hi r h e = omega arith
Ascends-append lo (x ∷ rows) hi r h e = (h.0, Ascends-append (suc x.id) rows hi r h.1 e)

pub update_where-Ascends :
    (p : BlockchainTransaction → Bool) (f : BlockchainTransaction → BlockchainTransaction) (lo : ℕ)
    (rows : Transactions) (hi : ℕ)
    → Legal p f
    → All IsConsistent rows
    → Ascends lo rows hi
    → Ascends lo (update_where p f rows) hi
update_where-Ascends p f lo [] hi legal c h = h
update_where-Ascends p f lo (r ∷ rows) hi legal (c, cs) (le, h) = elim (Bool-cases (p r)) [
  | inl fits ↦
      let e = (legal.onward r c fits).same_id in
      rw (fits, e) (le, update_where-Ascends p f (suc r.id) rows hi legal cs h)
  | inr misses ↦ rw misses (le, update_where-Ascends p f (suc r.id) rows hi legal cs h)
]

-- What holds of the table at all times.
pub record IsTable (db : Db) : Type 0 where
  pub consistent : All IsConsistent db.transactions
  pub ascends : Ascends 1 db.transactions db.next_transaction_id

-- The table is in order, and has grown out of the table `old`.
pub record GrownFrom (old : Transactions) (db : Db) : Type 0 where
  pub table : IsTable db
  pub grown : Grows old db.transactions
