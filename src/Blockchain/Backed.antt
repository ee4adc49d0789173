-- ===== src/Blockchain/Backed.antt =====
-- Lemmas on blockchain/transaction_sender.go: a payload that is broadcast is one that a row of the table
-- is committed to, and stays so.
use crynux_relay_wallet.Base.{
  ℕ, String, ◌≡◌, ap, ◌∙◌, ◌≢◌, Bool, true, false, none, some, List, [], ◌∷◌, ◌++◌, if◌then◌else◌,
  is_some, All,
}
use crynux_relay_wallet.Models.Transaction.{TransactionStatus, BlockchainTransaction}
use crynux_relay_wallet.World.{
  broadcast, Db, World, Result, ok, err, Action, pure, raise, ◌>>=◌, continue, Message, fulfill,
  reject, alert,
}
use crynux_relay_wallet.Transactions.Queries.{Transactions}
use crynux_relay_wallet.World.Keeps.{Keeps}
use crynux_relay_wallet.Transactions.Invariant.{Evolves-refl, IsConsistent}
use crynux_relay_wallet.Transactions.Table.{
  GrownFrom, Grows-refl, Grows-trans, Grows-row_at, row_at,
}
use crynux_relay_wallet.Transactions.Safety.{stays_broadcast, row_at-IsConsistent}
use crynux_relay_wallet.Blockchain.Confirmer.{attempted}
use crynux_relay_wallet.Errors.{Error}

-- A row that has a hash and this payload, and that can neither be cancelled nor be sent anew.
pub record IsBacked (rows : Transactions) (raw : String) : Type 0 where
  pub id : ℕ
  pub row : BlockchainTransaction
  pub found : row_at id rows ≡ some row
  pub payload : row.signed_raw_tx ≡ some raw
  pub has_hash : is_some row.tx_hash ≡ true
  pub not_requested : row.cancellation_requested_at ≡ none
  pub not_pending : row.status ≢ TransactionStatus.pending
  pub not_sending : row.status ≢ TransactionStatus.sending
  pub not_cancelled : row.status ≢ TransactionStatus.cancelled

-- A row of a table in order that has a hash is as good.
pub IsBacked-row :
    (rows : Transactions) (id : ℕ) (raw : String) {r : BlockchainTransaction}
    → All IsConsistent rows
    → row_at id rows ≡ some r
    → is_some r.tx_hash ≡ true
    → r.signed_raw_tx ≡ some raw
    → IsBacked rows raw
IsBacked-row rows id raw {r} c found hash payload =
    let agrees = row_at-IsConsistent id rows {r = r} c found in
    let stays = stays_broadcast agrees agrees (Evolves-refl r) hash in
    record {
      id = id;
      row = r;
      found = found;
      payload = payload;
      has_hash = hash;
      not_requested = stays.not_requested;
      not_pending = stays.not_pending;
      not_sending = stays.not_sending;
      not_cancelled = stays.not_cancelled;
    }

pub IsBacked-later :
    (rows : Transactions) (db : Db) (raw : String)
    → GrownFrom rows db
    → IsBacked rows raw
    → IsBacked db.transactions raw
IsBacked-later rows db raw g b =
    let (s, found, v) = Grows-row_at b.id rows db.transactions {r = b.row} g.grown b.found in
    IsBacked-row db.transactions b.id raw {r = s} g.table.consistent found
      (ap is_some (v.hash_kept b.has_hash) ∙ b.has_hash)
      (v.raw_kept (ap is_some b.payload) ∙ b.payload)

-- The sender alerts, and broadcasts payloads that are backed.
abbrev pub Backed : Transactions → Message → Type 0
Backed rows alert = Unit
Backed rows (broadcast network raw) = IsBacked rows raw
Backed rows (fulfill id hash) = ⊥
Backed rows (reject id) = ⊥

Backed-later :
    (rows : Transactions) (db : Db)
    → GrownFrom rows db
    → (message : Message) → Backed rows message
    → Backed db.transactions message
Backed-later rows db g alert b = tt
Backed-later rows db g (broadcast network raw) b = IsBacked-later rows db raw g b
Backed-later rows db g (fulfill id hash) b = b
Backed-later rows db g (reject id) b = b

AllBacked-later :
    (rows : Transactions) (db : Db)
    → GrownFrom rows db
    → (messages : List Message) → All (Backed rows) messages
    → All (Backed db.transactions) messages
AllBacked-later rows db g [] h = tt
AllBacked-later rows db g (m ∷ messages) (h, hs) =
    (Backed-later rows db g m h, AllBacked-later rows db g messages hs)

-- The table has grown out of `old`, what was told is `base` and then messages that are backed, and the
-- payloads at hand are backed too.
pub record Sound (old : Transactions) (base : List Message) (raws : List String) (w : World)
    : Type 0 where
  pub grown : GrownFrom old w.db
  pub more : List Message
  pub told : w.sent ≡ base ++ more
  pub backed : All (Backed w.db.transactions) more
  pub at_hand : All (IsBacked w.db.transactions) raws

-- A property of the world that an action leaves true.
pub record Preserves {A : Type 0} (P : World → Type 0) (m : Action A) : Type 0 where
  pub at : (w : World) → P w → P (m w).1

AllIsBacked-later :
    (rows : Transactions) (db : Db)
    → GrownFrom rows db
    → (raws : List String) → All (IsBacked rows) raws
    → All (IsBacked db.transactions) raws
AllIsBacked-later rows db g [] h = tt
AllIsBacked-later rows db g (raw ∷ raws) (h, hs) =
    (IsBacked-later rows db raw g h, AllIsBacked-later rows db g raws hs)

grown_on :
    {old : Transactions} {db db' : Db}
    → GrownFrom old db
    → GrownFrom db.transactions db'
    → GrownFrom old db'
grown_on {old} {db} {db'} g h = record {
  table = h.table;
  grown = Grows-trans old db.transactions db'.transactions g.grown h.grown;
}

-- What keeps every table in order and tells nobody anything is sound.
pub Preserves-Keeps :
    {A : Type 0} {old : Transactions} {base : List Message} {raws : List String} {m : Action A}
    → ((rows : Transactions) → Keeps (GrownFrom rows) m)
    → Preserves (Sound old base raws) m
Preserves-Keeps {raws} {m} keeps = record {
  at = λ w s.
      let k = keeps w.db.transactions in
      let g : GrownFrom w.db.transactions (m w).1.db =
        k.at w (record { table = s.grown.table; grown = Grows-refl w.db.transactions }) in
      record {
        grown = grown_on s.grown g;
        more = s.more;
        told = k.quiet w ∙ s.told;
        backed = AllBacked-later w.db.transactions (m w).1.db g s.more s.backed;
        at_hand = AllIsBacked-later w.db.transactions (m w).1.db g raws s.at_hand;
      };
}

module _ {P : World → Type 0} where
  pub Preserves-pure : {A : Type 0} (a : A) → Preserves P (pure a)
  Preserves-pure a = record { at = λ w h. h }

  pub Preserves-raise : {A : Type 0} (e : Error) → Preserves P (raise {A = A} e)
  Preserves-raise e = record { at = λ w h. h }

  Preserves-continue :
      {A B : Type 0} (p : Result A × World) (f : A → Action B)
      → ((a : A) → Preserves P (f a))
      → P p.1
      → P (continue p f).1
  Preserves-continue (ok a, w) f k h = (k a).at w h
  Preserves-continue (err e, w) f k h = h

  pub Preserves-bind :
      {A B : Type 0} {m : Action A} {f : A → Action B}
      → Preserves P m
      → ((a : A) → Preserves P (f a))
      → Preserves P (m >>= f)
  Preserves-bind {m} {f} km kf = record { at = λ w h. Preserves-continue (m w) f kf (km.at w h) }

  pub Preserves-if :
      {A : Type 0} (b : Bool) {m k : Action A}
      → Preserves P m
      → Preserves P k
      → Preserves P (if b then m else k)
  Preserves-if true km kk = km
  Preserves-if false km kk = kk

  pub Preserves-attempted : {A : Type 0} {m : Action A} → Preserves P m → Preserves P (attempted m)
  Preserves-attempted km = record { at = km.at }
