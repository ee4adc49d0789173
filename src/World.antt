-- ===== src/World.antt =====
-- The state that the tasks share, and the actions on it. `Db` holds the tables (config/db.go opens
-- one database for all tasks). A statement may fail: `faults` says of each database call to come
-- whether it does. An action that fails keeps what it has written, unless it runs in a transaction.
pub mod Keeps
pub mod Inversion
use crynux_relay_wallet.Base.{
  refl, ◌≡◌, ◌⊎◌, inl, inr, inr, inl, ◌⊎◌, ◌≡◌, ℕ, String, Bool, true, false, List, [], ◌∷◌,
}
use crynux_relay_wallet.Models.Transaction.{BlockchainTransaction}
use crynux_relay_wallet.Models.Records.{
  WithdrawRecord, RelayAccount, TaskFeeCheckpoint, WithdrawalRequestCheckpoint, DepositRecord,
  VestingRecord,
}
use crynux_relay_wallet.Errors.{Error, db_error}

-- The tables, each in the order of its primary key.
pub record Db : Type 0 where
  pub transactions : List BlockchainTransaction
  pub next_transaction_id : ℕ
  pub withdraw_records : List WithdrawRecord
  pub next_record_id : ℕ
  pub accounts : List RelayAccount
  pub deposits : List DepositRecord
  pub vestings : List VestingRecord
  pub fee_checkpoint : TaskFeeCheckpoint
  pub request_checkpoint : WithdrawalRequestCheckpoint

-- What the wallet tells the relay and the operators, and the signed payloads that it sends to the
-- node of a network.
pub data Message : Type 0 where
  fulfill : ℕ → String → Message
  reject : ℕ → Message
  alert : Message
  broadcast : String → String → Message

-- `clock` is `time.Now()`. At each wait of a polling loop the other tasks act: `others` says what
-- they do to the database, wait by wait; when it is used up, the context is done. `nonces` holds
-- the nonce of each client of a blockchain that has one.
pub record World : Type 0 where
  pub db : Db
  pub clock : ℕ
  pub faults : List Bool
  pub others : List (Db → Db)
  pub sent : List Message
  pub nonces : List (String × ℕ)

pub data Result (A : Type 0) : Type 0 where
  ok : A → Result A
  err : Error → Result A

pub Result-cases :
    {A : Type 0} (r : Result A) → ((a : A) × (r ≡ ok a)) ⊎ ((e : Error) × (r ≡ err e))
Result-cases (ok a) = inl (a, refl)
Result-cases (err e) = inr (e, refl)

abbrev pub Action : Type 0 → Type 0
Action A = World → Result A × World

module _ {A : Type 0} where
  abbrev pub pure : A → Action A
  pure a w = (ok a, w)

  abbrev pub raise : Error → Action A
  raise e w = (err e, w)

  abbrev pub gets : (World → A) → Action A
  gets f w = (ok (f w), w)

-- What follows a call that succeeded; a failure skips it.
abbrev pub continue : {A B : Type 0} → Result A × World → (A → Action B) → Result B × World
continue (ok a, w) f = f a w
continue (err e, w) f = (err e, w)

infixl 5 ◌>>=◌ ◌>>◌
abbrev pub ◌>>=◌ : {A B : Type 0} → Action A → (A → Action B) → Action B
◌>>=◌ m f w = continue (m w) f

abbrev pub ◌>>◌ : {B : Type 0} → Action (Unit {0}) → Action B → Action B
m >> k = m >>= λ _. k

abbrev pub done : Action (Unit {0})
done = pure tt

abbrev pub modify : (Db → Db) → Action (Unit {0})
modify f w = (ok tt, record w { db = f w.db })

unfoldable pub call_with : List Bool → Action (Unit {0})
call_with [] w = (ok tt, w)
call_with (false ∷ fs) w = (ok tt, record w { faults = fs })
call_with (true ∷ fs) w = (err db_error, record w { faults = fs })

-- A call of the database: it fails if the schedule of faults says so.
unfoldable pub db_call : Action (Unit {0})
unfolding call_with
db_call w = call_with w.faults w

unfoldable pub restore : {A : Type 0} → Db → Result A × World → Result A × World
restore db (ok a, w) = (ok a, w)
restore db (err e, w) = (err e, record w { db = db })

-- `db.Transaction`: the body, then the commit; a failure of either restores the tables.
unfoldable pub atomic : {A : Type 0} → Action A → Action A
unfolding restore db_call
atomic m w = restore w.db ((do a ← m; db_call; pure a) w)
